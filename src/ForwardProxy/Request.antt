-- ===== src/ForwardProxy/Request.antt =====
-- forward_proxy.py: `handle_conn`, `_handle_connect`, `_handle_http`, and which ends the pipes of
-- `_tunnel` join; the loop of a pipe is left out. The connection to a target, `urlsplit` and the
-- check of the client's address are parameters. A connection ends in what was written to the client,
-- the target that was reached with what was written to it before the tunnel, and the pipes.
-- `_active_conns` goes up at the start and down at the end.
use frp_python.Prelude.{
  ltb, if◌then◌else◌, ◌==◌, is_nil, codes, length, all, ℕ, Bool, true, false, ◌&&◌, ◌||◌, not,
  Option, none, some, List, [], ◌∷◌, ◌++◌, map, nat_eq, string_eq, list_eq,
}
use frp_python.ForwardProxy.Body.{forward_body}
use frp_python.ForwardProxy.Headers.{Base64, check_auth, rewrite_headers, get_content_length}
use frp_python.Protocol.Codec.{Bytes}
use frp_python.Py.Int.{ℤ, pos, negsuc, parse_int}
use frp_python.Py.Text.{Text}
use frp_python.Py.Words.{words, split_last, upper, decimal}

pub data End : Type 0 where
  client target : End

-- From the first end's reader to the second end's writer.
abbrev pub Pipe : Type 0
Pipe = End × End

-- The pipes that `_tunnel` starts, with its readers and writers as the ends that they belong to
unfoldable pub tunnel : End → End → End → End → Bool → List Pipe
tunnel r1 w1 r2 w2 true = (r2, w1) ∷ (r1, w2) ∷ []
tunnel r1 w1 r2 w2 false = (r1, w2) ∷ (r2, w1) ∷ []

pub record Reached : Type 0 where
  pub host : Text
  pub port : ℤ
  pub sent : Bytes

pub record Handled : Type 0 where
  pub to_client : Bytes
  pub reached : Option Reached
  pub pipes : List Pipe
  -- what is left of the client's stream
  pub unread : List Bytes

-- What `open_connection` comes to: a connection, a timeout, or an error with its text.
pub data Connection : Type 0 where
  opened : Connection
  timed_out : Connection
  refused : Text → Connection

-- The parts of `urlsplit(uri)` that are used. Reading `port` raises where it is no port.
pub data UrlPort : Type 0 where
  unset bad_port : UrlPort
  port_number : ℕ → UrlPort

pub record Url : Type 0 where
  pub hostname : Text
  pub port : UrlPort
  pub path : Text
  pub query : Text

pub record Env : Type 0 where
  pub connect : Text → ℤ → Connection
  -- `none` is a `ValueError`
  pub urlsplit : Text → Option Url
  pub base64 : Base64
  pub check_ip : Text → Bool
  pub auth_user : Text
  pub auth_pass : Text

abbrev pub reply : Bytes → List Bytes → Handled
reply bytes stream = record { to_client = bytes; reached = none; pipes = []; unread = stream }

abbrev pub bad_request : Bytes
bad_request = codes "HTTP/1.1 400 Bad Request\r\nContent-Length: 0\r\n\r\n"

abbrev pub gateway_timeout : Bytes
gateway_timeout = codes "HTTP/1.1 504 Gateway Timeout\r\nContent-Length: 0\r\n\r\n"

abbrev pub established : Bytes
established = codes "HTTP/1.1 200 Connection Established\r\n\r\n"

abbrev pub auth_required : Bytes
auth_required =
    codes "HTTP/1.1 407 Proxy Authentication Required\r\n"
    ++ (codes "Proxy-Authenticate: Basic realm=\"Forward Proxy\"\r\n"
        ++ codes "Content-Length: 0\r\n\r\n")

-- `s.encode("ascii", errors="replace")`, and `decode` the other way
abbrev pub encoded_char : ℕ → ℕ
encoded_char c = if ltb c 128 then c else b'?'

abbrev pub decoded_byte : ℕ → ℕ
decoded_byte c = if ltb c 128 then c else 65533

abbrev pub bad_gateway : Text → Bytes
bad_gateway message =
    codes "HTTP/1.1 502 Bad Gateway\r\nContent-Type: text/plain\r\nContent-Length: "
    ++ (decimal (length message) ++ (codes "\r\n\r\n" ++ map encoded_char message))

unfoldable pub connected : Text → ℤ → List Bytes → Connection → Handled
unfolding tunnel
connected host port stream opened = record {
  to_client = established;
  reached = some (record { host = host; port = port; sent = [] });
  pipes = tunnel client client target target false;
  unread = stream;
}
connected host port stream timed_out = reply gateway_timeout stream
connected host port stream (refused message) = reply (bad_gateway message) stream

unfoldable pub connect_to : Env → Text → List Bytes → Option ℤ → Handled
unfolding connected
connect_to env host stream none = reply bad_request stream
connect_to env host stream (some port) = connected host port stream (env.connect host port)

unfoldable pub connect_parts : Env → Text → List Bytes → Option (Text × Text) → Handled
unfolding connect_to
connect_parts env whole_target stream none = connect_to env whole_target stream (some (pos 443))
connect_parts env whole_target stream (some (host, port)) =
    connect_to env host stream (parse_int 10 port)

-- `_handle_connect`
unfoldable pub handle_connect : Env → Text → List Bytes → Handled
unfolding connect_parts
handle_connect env whole_target stream =
    connect_parts env whole_target stream (split_last b':' whole_target)

abbrev pub is_ascii : Text → Bool
is_ascii s = all (λ c. ltb c 128) s

abbrev pub path_of : Url → Text
path_of u =
    (if is_nil u.path then codes "/" else u.path) ++ (if is_nil u.query then [] else b'?' ∷ u.query)

-- How many bytes of the body are sent on.
abbrev pub body_length : ℤ → ℕ
body_length (pos n) = n
body_length (negsuc n) = 0

-- The head is written, the body follows, and the tunnel starts. A character that is not ASCII
-- raises before anything is written.
unfoldable pub forward : Text → Text → Url → ℕ → Text → List Bytes → Handled
unfolding tunnel
forward method http_version u port headers stream =
    let n = body_length (get_content_length headers) in
    let body = forward_body n n stream in
    let line = method ++ (b' ' ∷ (path_of u ++ (b' ' ∷ (http_version ++ codes "\r\n")))) in
    if is_ascii line && is_ascii u.hostname
    then record {
      to_client = [];
      reached = some (record {
        host = u.hostname;
        port = pos port;
        sent = line ++ (rewrite_headers u.hostname port headers ++ body.0);
      });
      pipes = tunnel target client client target true;
      unread = body.1;
    }
    else record {
      to_client = [];
      reached = some (record { host = u.hostname; port = pos port; sent = [] });
      pipes = [];
      unread = stream;
    }

unfoldable pub forwarded : Text → Text → Url → ℕ → Text → List Bytes → Connection → Handled
unfolding forward
forwarded method http_version u port headers stream opened =
    forward method http_version u port headers stream
forwarded method http_version u port headers stream timed_out = reply gateway_timeout stream
forwarded method http_version u port headers stream (refused message) =
    reply (bad_gateway message) stream

-- `parsed.port or 80`
unfoldable pub port_of : UrlPort → Option ℕ
port_of unset = some 80
port_of bad_port = none
port_of (port_number n) = some (if n == 0 then 80 else n)

unfoldable pub forward_to : Env → Text → Text → Url → Text → List Bytes → Option ℕ → Handled
unfolding forwarded
forward_to env method http_version u headers stream none = reply [] stream
forward_to env method http_version u headers stream (some port) =
    forwarded method http_version u port headers stream (env.connect u.hostname (pos port))

unfoldable pub split_uri : Env → Text → Text → Text → List Bytes → Option Url → Handled
unfolding forward_to port_of
split_uri env method http_version headers stream none = reply [] stream
split_uri env method http_version headers stream (some u) =
    if is_nil u.hostname
    then reply
        (codes "HTTP/1.1 400 Bad Request\r\nContent-Type: text/plain\r\n"
          ++ codes "Content-Length: 11\r\n\r\nBad Request")
        stream
    else forward_to env method http_version u headers stream (port_of u.port)

-- `_handle_http`, for a request line with its three words
unfoldable pub handle_http : Env → Text → Text → Text → Text → List Bytes → Handled
unfolding split_uri
handle_http env method uri http_version headers stream =
    split_uri env method http_version headers stream (env.urlsplit uri)

-- `len(parts) < 3`, and the choice by the method
unfoldable pub dispatch : Env → List Text → Text → List Bytes → Handled
unfolding handle_connect handle_http
dispatch env (method ∷ uri ∷ http_version ∷ more) headers stream =
    if upper method == codes "CONNECT"
    then handle_connect env uri stream
    else handle_http env method uri http_version headers stream
dispatch env parts headers stream = reply bad_request stream

-- The header lines as `readline` returns them, up to the empty one or 16384 bytes.
unfoldable pub read_headers : Text → List Text → Text
read_headers headers [] = headers
read_headers headers (line ∷ lines) =
    let more = headers ++ line in
    let rest = read_headers more lines in
    if is_nil line || line == codes "\r\n"
    then headers
    else if ltb 16384 (length more)
    then more
    else rest

unfoldable pub handle_request : Env → Text → Text → List Bytes → Handled
unfolding dispatch
handle_request env request_line headers stream =
    if not (is_nil env.auth_user || is_nil env.auth_pass)
      && not (check_auth env.base64 env.auth_user env.auth_pass headers)
    then reply auth_required stream
    else dispatch env (words (map decoded_byte request_line)) headers stream

-- `handle_conn`: the request line and the header lines are what `readline` returns; a timeout of
-- the first read stands as no line.
unfoldable pub handle_conn : Env → Text → Text → List Text → List Bytes → Handled
unfolding handle_request read_headers
handle_conn env ip request_line lines stream =
    if not (env.check_ip ip)
    then reply [] stream
    else if is_nil request_line
    then reply [] stream
    else handle_request env request_line (read_headers [] lines) stream
