-- ===== src/Server/Ftp/Public.antt =====
-- frps.py: `_handle_ftp_data_conn` behind its wait for the client.
use frp_python.Prelude.{
  if◌then◌else◌, lookup, erase, ℕ, String, Bool, false, Option, none, some, List, [], ◌∷◌, nat_eq,
  string_eq, list_eq,
}
use frp_python.Protocol.Codec.{Bytes}
use frp_python.Server.State.{Reply, FtpData, Server, write}

abbrev pub writer_of_data : Option FtpData → Option ℕ
writer_of_data none = none
writer_of_data (some d) = d.client_writer

-- The `finally` branch: CLOSE to the client, where there is one, and the entry goes.
unfoldable pub end_data : (ℕ → Bool) → String → Option ℕ → Server → Server
end_data alive data_conn_id none s = record s {
  ftp_data_ports = erase data_conn_id s.ftp_data_ports;
}
end_data alive data_conn_id (some w) s =
    let ended = record s { ftp_data_ports = erase data_conn_id s.ftp_data_ports } in
    if alive w then write w (Reply.conn_close data_conn_id) ended else ended

-- A read goes to the client, where there is one; a write that raises ends the loop.
unfoldable pub pass_data :
    (ℕ → Bool) → String → Bytes → Option ℕ → (Server → Server) → Server → Server
unfolding end_data
pass_data alive data_conn_id bs none more s = more s
pass_data alive data_conn_id bs (some w) more s =
    let later = more (write w (Reply.conn_data data_conn_id bs) s) in
    if alive w then later else end_data alive data_conn_id (some w) s

-- `forward_client_to_server` over what each read returns, and what follows it.
unfoldable pub forward_client_to_server : (ℕ → Bool) → String → List Bytes → Server → Server
unfolding pass_data end_data
forward_client_to_server alive data_conn_id [] s = s
forward_client_to_server alive data_conn_id ([] ∷ reads) s =
    end_data alive data_conn_id (writer_of_data (lookup data_conn_id s.ftp_data_ports)) s
forward_client_to_server alive data_conn_id ((b ∷ bs) ∷ reads) s =
    pass_data alive data_conn_id (b ∷ bs) (writer_of_data (lookup data_conn_id s.ftp_data_ports))
      (forward_client_to_server alive data_conn_id reads) s

abbrev pub is_ready_data : Option FtpData → Bool
is_ready_data none = false
is_ready_data (some d) = d.is_ready

-- The wait for `ready_event` is over: after a timeout the entry and its listener stay.
unfoldable pub serve_data : (ℕ → Bool) → String → List Bytes → Server → Server
unfolding forward_client_to_server
serve_data alive data_conn_id reads s =
    if is_ready_data (lookup data_conn_id s.ftp_data_ports)
    then forward_client_to_server alive data_conn_id reads s
    else s
