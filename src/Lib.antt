-- ===== src/Lib.antt =====
-- frp-python: a reverse proxy in Python. A client behind a firewall (frpc.py) keeps a control
-- connection to a public server (frps.py), registers proxies there, and the two exchange frames
-- (protocol.py) that carry the traffic of the public side. The server asks access.py which ports
-- and addresses are allowed and counts its traffic in stats.py. A web administration (webadmin/api)
-- edits the configuration, with accounts of its own and a live view of the logs.
--
-- Files, and the code that each models:
--   Prelude, Prelude/*      what the files share: Boolean tests, `==` as an instance, lists over ℕ,
--                           Python's `dict` as a list of entries in insertion order
--   Py/*                    methods of `str`, `int`, `bytes` and `uuid.UUID` that the source uses:
--                           strip, split, replace, `int(s, base)`, `to_bytes`, the text of a UUID,
--                           lines that end in CR LF, and `os.path` on POSIX
--   Protocol/Message        protocol.py: `MessageType`, its codes, `Message` and its dictionary
--   Protocol/Codec          protocol.py: `Protocol.encode` and `Protocol.decode`
--   Protocol/Roundtrip      what `decode` makes of what `encode` writes
--   Protocol/Stream         frps.py, `handle_control_conn`: the loop over reads and its buffer
--   Access/Ports            access.py: port ranges and `check_port`; webadmin/api/config_manager.py:
--                           `_validate_allow_ports`. Ports/Validated sets one against the other
--   Access/Networks         access.py: address lists, `ip in network`
--   Access/Control          access.py: `AccessControl`, `configure` and `check_ip`
--   Stats, Stats/Invariant  stats.py: `Stats`, and its counters against its table of connections
--   LogBuffer               webadmin/api/log_buffer.py: `LogBuffer`
--   Server/State            frps.py: the tables of `FRPServer`
--   Server/Handlers         frps.py: `handle_login`, `handle_register`, `handle_init_conn`,
--                           `handle_ping`, `handle_remote_cmd_resp`; Handlers/Allowed: the ports
--                           of registered proxies
--   Server/Registry         frps.py: `_register_stcp_proxy`, `_register_stcp_visitor`;
--                           Registry/Admission: which visitors are let in
--   Server/Http             frps.py: `_register_http_proxy`, the choice of a proxy in
--                           `handle_http_vhost_conn`; Http/Routing: host names and their proxies;
--                           Http/Vhost: the new connection of a request
--   Server/Stcp             frps.py: `handle_stcp_new_visitor`, `handle_stcp_visitor_ready`, the STCP
--                           part of `handle_data`, `close_stcp_conn`; Stcp/Relay and Stcp/Opened:
--                           the bytes that each side gets
--   Server/Ftp              frps.py: `_handle_ftp_response`, `_rewrite_pasv_response`,
--                           `_rewrite_epsv_response`; Ftp/Cuts: answers in pieces; Ftp/Data: the
--                           entries of data connections and the data of a client for them;
--                           Ftp/Public: the data of the public side
--   Server/Tcp              frps.py: `handle_tcp_proxy_conn`, `handle_ftp_proxy_conn`,
--                           `forward_proxy_data`, `handle_data`, `datagram_received`; Tcp/Relayed,
--                           Tcp/Forwarded: what gets through
--   Server/Messages         frps.py: `process_message`
--   Server/Control          frps.py: `handle_control_conn`; Control/Stranger: a connection without
--                           the token; Control/Departed: what is left at the end of one
--   Server/Remote           frps.py: `send_remote_cmd`; Remote/Answers: which answer reaches it
--   Server/DataChannel      frps.py: `handle_data_conn`; DataChannel/Unlinked: without a session
--   Server/Cleanup          frps.py: `close_conn`, `handle_close`, `_remove_session`,
--                           `_remove_proxy`, `cleanup_client_by_writer`,
--                           `_cleanup_idle_connections`; Cleanup/Idle: which connections go
--   Client/State            frpc.py: `ClientState`, the writers of `FRPClient`, what it writes
--   Client/Handlers         frpc.py: `handle_new_conn`, `handle_stcp_new_visitor`,
--                           `_handle_stcp_visitor_conn`, `handle_ftp_new_data`, `close_conn`;
--                           Handlers/Answered: the answer to NEW_CONN
--   Client/Relay            frpc.py: `handle_data`, `handle_close`, the forwarding loops,
--                           `process_message`, `handle_server_messages`, `handle_data_messages`.
--                           Client/Delivery and Client/Forwarding: the bytes that get through,
--                           Client/Invariant: the tables
--   Client/Session          frpc.py: `_login`, `_connect_data_channel`, `register_proxies`, with
--                           Session/Answers and Session/Registration
--   Client/Remote           frpc.py: `handle_remote_cmd` and its commands; Remote/Roundtrip: a file
--                           that is written and read
--   Client/Backoff          frpc.py: the loop of `start`
--   Tunnel                  frps.py and frpc.py together: a connection from end to end
--   ForwardProxy/Request    forward_proxy.py: `handle_conn`, `_handle_connect`, `_handle_http`,
--                           which ends `_tunnel` joins; ForwardProxy/Credentials and Tunnel: who is
--                           let in, and what the client of a plain request gets
--   ForwardProxy/Headers    forward_proxy.py: `_check_auth`, `_rewrite_headers`,
--                           `_get_content_length`; Headers/Rewritten: the headers that are sent on
--   ForwardProxy/Body       forward_proxy.py: the loop that sends a body on
--   Webadmin/Auth           webadmin/api/auth.py: `AuthManager`; Auth/Lock, Auth/Login and
--                           Auth/Users: the lock after failures, logins, users
--   Webadmin/Config         webadmin/api/config_manager.py: the checks of a server's configuration;
--                           Config/Schema: the schemas; Config/Checked: the checks against the
--                           schema; Config/Clients: the checks of a client's configuration, with
--                           what passes them (Clients/Distinct); Config/Store: the configuration files
--   Webadmin/Proxies        webadmin/api/routes/proxies.py: the routes; Proxies/Checks:
--                           `_validate_proxy`; Proxies/Valid, Keyed, Changes and Kept: the list
--                           through the routes
--   Webadmin/Stored         webadmin/api/routes/config.py and proxies.py: the requests that change
--                           the configuration files; Stored/Sound: what the files hold
--   Webadmin/Files          webadmin/api/routes/files.py: the paths of requests and the routes;
--                           Files/Paths: what a path of a request stands for; Files/Inside: the
--                           paths that are let in; Files/Confined: what is done
--   Webadmin/Service        webadmin/api/service_manager.py: `ServiceManager` between its awaits;
--                           Service/Starts and Alive: the processes; Service/Stopped: a stop
--   Tests of a directory    the code at concrete inputs
--
-- How the code is modelled. A handler is a function from the state to the state; what it writes to
-- a stream is appended to the field `outbox`, with the number of the writer, and a parameter
-- `alive` says to which writers a write goes through. A handler runs to its end before the next
-- begins: an `await` of a drain inside of one is not a point where another can come in; of the
-- flush of an STCP buffer the parts before and behind its drain are `flush_begins` and
-- `flush_ends`. Where `handle_data` raises, `data_raises` says so, and the connection ends. The time
-- is an argument. A float of the configuration is the integer that it is equal to or its text. A number that can be negative is an ℤ; ports of registered proxies, lengths and
-- times are ℕ. `struct.pack` raises on a length above 2 ^ 32 - 1, and `pack_header` returns `none`
-- there. Characters are numbers, and `strip` and `lower` treat those of ASCII.
--
-- Fuel: the inner loop of the reader and the loop over the lines of an FTP answer have one more
-- than the length of their buffer. Every round shortens the buffer, so that is enough, and more
-- changes nothing. The loop that sends a body on has at least as much as bytes remain; every read
-- of it takes one byte or more.
--
-- Parameters: the JSON library (`Json` of the protocol, and `Json` of the configuration files,
-- with the law that it reads back what it printed), the file system (with the law that it reads
-- back what was written), the working directory, the shell, UTF-8, the reading of addresses and
-- networks (`IpAddress`), bcrypt (`Passwords`), Base64, `urlsplit`, the ids that `uuid4` makes,
-- whether a listener could be started and which port it has, and whether a target or a local
-- service can be reached.
--
-- A task that reads from a connection is a function over a list of its reads, as if no other task
-- came in between; the tasks of the client also run as events in any order (Client/Invariant).
--
-- The manager of a service is steps between its awaits, in any order; its processes are numbers.
--
-- Not modelled: sockets, TLS and the listeners themselves; the loop of a pipe in `_tunnel`; what a client says of its machine, its
-- screenshots and system information; JWT tokens; the routes of the web administration that only
-- call what is modelled, its pydantic schemas and its front end; the search for other processes
-- by `ps`; logging and the command line. Symbolic links are the file system's: `os.path.abspath`
-- does not follow them.
pub mod Prelude
pub mod Py
pub mod Protocol
pub mod Access
pub mod Stats
pub mod LogBuffer
pub mod Server
pub mod Client
pub mod ForwardProxy
pub mod Tunnel
pub mod Webadmin
