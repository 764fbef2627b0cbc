-- ===== src/ForwardProxy/Tests.antt =====
-- forward_proxy.py at concrete inputs. Base64 is the identity, and every target can be reached.
use frp_python.Prelude.{
  nat_beq, codes, whole, All, all, ◌≡◌, refl, ◌⊎◌, Bool, true, false, not, some, List, [], ◌∷◌,
  ◌++◌, arith,
}
use frp_python.ForwardProxy.Body.{forward_body, forward_body-eq-take}
use frp_python.ForwardProxy.Credentials.{HoldCredentials}
use frp_python.ForwardProxy.Headers.{
  check_auth, host_line, rewrite_headers, check_decoded, check_lines,
}
use frp_python.ForwardProxy.Headers.Rewritten.{IsRewritten, rewrite_headers-IsRewritten}
use frp_python.ForwardProxy.Request.{
  Env, Reached, opened, Url, unset, handle_connect, handle_http, read_headers, handle_conn,
  connected, connect_to, connect_parts, dispatch, handle_request,
}
use frp_python.ForwardProxy.Tunnel.{
  needs_auth, handle_conn-authorized, client_gets, both, handle_http-no_answer,
}
use frp_python.Protocol.Codec.{Bytes}
use frp_python.Py.Int.{pos, digit_value, digit_step, digits_from, digits, signed, parse_int}
use frp_python.Py.Lines.{split_crlf, unlines, glue, IsLine}
use frp_python.Py.Text.{Text, starts_with, lstrip, rstrip, strip, split_first, lower_char, lower}
use frp_python.Py.Words.{words_onto, words, before_last, split_last, partition, upper}

abbrev has_no_cr : Text → Bool
has_no_cr l = all (λ c. not (nat_beq c 13)) l

no_cr-IsLine : (l : Text) → has_no_cr l ≡ true → IsLine l
no_cr-IsLine [] h = tt
no_cr-IsLine (c ∷ l) h = ground (arith, no_cr-IsLine l)

no_crs-AreLines : (ls : List Text) → all has_no_cr ls ≡ true → All IsLine ls
no_crs-AreLines [] h = tt
no_crs-AreLines (l ∷ ls) h = ground (arith, no_cr-IsLine l, no_crs-AreLines ls)

abbrev head : List Text
head = codes "HOST: old" ∷ codes "Accept: */*" ∷ codes "Proxy-Authorization: Basic a:b" ∷ []

abbrev example : Text
example = codes "example.org"

rewrite_headers-IsRewritten_example :
    (out : List Text) × (split_crlf (rewrite_headers example 8080 (unlines head)) ≡ out ++ [] ∷ [])
    × IsRewritten (host_line example 8080) head out
rewrite_headers-IsRewritten_example =
    rewrite_headers-IsRewritten example 8080 head (no_crs-AreLines head refl)
      (no_cr-IsLine example refl)

abbrev pieces : List Bytes
pieces = (1 ∷ 2 ∷ 3 ∷ []) ∷ (4 ∷ 5 ∷ []) ∷ []

forward_body-eq-take_example :
    ((forward_body 4 4 pieces).0 ≡ 1 ∷ 2 ∷ 3 ∷ 4 ∷ [])
    × (whole (forward_body 4 4 pieces).1 ≡ 5 ∷ [])
forward_body-eq-take_example = forward_body-eq-take 4 4 pieces (omega arith) (omega arith)

abbrev site_url : Url
site_url = record { hostname = example; port = unset; path = []; query = [] }

abbrev env : Env
env = record {
  connect = λ host port. opened;
  urlsplit = λ uri. some site_url;
  base64 = record { b64decode = λ s. some s };
  check_ip = λ ip. true;
  auth_user = codes "a";
  auth_pass = codes "b";
}

abbrev tunnel_target : Reached
tunnel_target = record { host = example; port = pos 443; sent = [] }

abbrev head_lines : List Text
head_lines = codes "Proxy-Authorization: Basic a:b\r\n" ∷ codes "\r\n" ∷ []

reached_target :
    (handle_conn env [] (codes "CONNECT example.org:443 HTTP/1.1\r\n") head_lines []).reached
    ≡ some tunnel_target
unfolding handle_conn handle_request dispatch handle_connect connect_parts connect_to connected
    read_headers words words_onto split_last before_last upper check_auth check_lines check_decoded
    split_crlf glue partition split_first starts_with lower lower_char strip lstrip rstrip parse_int
    signed digits digits_from digit_step digit_value
reached_target = refl

handle_conn-authorized_example :
    (env.check_ip [] ≡ true)
    × ((needs_auth env ≡ false)
        ⊎ HoldCredentials env.base64
            (codes "a")
            (codes "b")
            (split_crlf (read_headers [] head_lines)))
handle_conn-authorized_example =
    handle_conn-authorized env [] (codes "CONNECT example.org:443 HTTP/1.1\r\n") head_lines []
      tunnel_target reached_target

handle_http-no_answer_example :
    let o = handle_http env (codes "GET") (codes "http://example.org/") (codes "HTTP/1.1") [] [] in
    client_gets o (both [] (codes "hello")) ≡ client_gets o (both [] [])
handle_http-no_answer_example =
    handle_http-no_answer env (codes "GET") (codes "http://example.org/") (codes "HTTP/1.1") [] []
      [] (codes "hello") []
