-- ===== src/Webadmin/Stored/Tests.antt =====
-- webadmin/api: the configuration files at concrete inputs.
use frp_python.Prelude.{codes, refl, none, List, [], ◌∷◌}
use frp_python.Py.Int.{pos}
use frp_python.Webadmin.Config.Schema.{text, int, member, no_members, Members}
use frp_python.Webadmin.Config.Store.{client_type, server_type, ParsedJson, parsed, not_json, Json}
use frp_python.Webadmin.Proxies.{create_request, toggle_request}
use frp_python.Webadmin.Stored.{ConfigRequest, put_config, put_raw, proxy_route, handle_configs}
use frp_python.Webadmin.Stored.Sound.{IsSound, handle_configs-IsSound}

-- Files that hold what a text is read as.
abbrev json : Json ParsedJson
json = record { loads = λ p. p; dumps = parsed; loads-dumps = λ c. refl }

abbrev ssh : Members
ssh = member "name" (text (codes "ssh")) (
    member "type" (text (codes "tcp"))
      (member "local_port" (int (pos 22)) (member "remote_port" (int (pos 8022)) no_members)))

abbrev saves : List (ConfigRequest ParsedJson)
saves =
    put_config server_type (("bind_port", int (pos 70000)) ∷ [])
    ∷ put_config server_type (("bind_port", int (pos 7001)) ∷ [])
    ∷ put_raw client_type not_json
    ∷ proxy_route (create_request ssh)
    ∷ proxy_route (toggle_request (codes "ssh"))
    ∷ []

handle_configs-IsSound_example :
    IsSound json (handle_configs json saves (record { frps_file = none; frpc_file = none }))
handle_configs-IsSound_example = handle_configs-IsSound json saves (tt, (tt, (tt, (tt, (tt, tt)))))
