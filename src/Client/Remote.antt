-- ===== src/Client/Remote.antt =====
-- frpc.py: `handle_remote_cmd` and its commands. The file system, the shell, the text of UTF-8 and
-- Base64 are parameters, as are the answers to `screenshot` and `sys_info`. Times and modes of files
-- are left out.
pub mod Roundtrip
mod Tests
use frp_python.Prelude.{
  if◌then◌else◌, ◌==◌, is_nil, codes, length, Dict, ℕ, ◌≡◌, Bool, true, not, Option, none, some,
  List, [], ◌∷◌, nat_eq, string_eq, list_eq,
}
use frp_python.Client.State.{Client, ProxyInfo}
use frp_python.Protocol.Codec.{Bytes}
use frp_python.Py.Int.{ℤ}
use frp_python.Py.Path.{is_absolute, join, dot, abspath, dirname}
use frp_python.Py.Text.{Text}

-- `.decode("utf-8")`, `.encode("utf-8")` and `base64`: `none` raises.
pub record Codecs : Type 0 where
  pub utf8_encode : Text → Option Bytes
  pub utf8_decode : Bytes → Option Text
  pub b64encode : Bytes → Text
  pub b64decode : Text → Option Bytes
  pub utf8_exact : (bs : Bytes) (t : Text) → utf8_decode bs ≡ some t → utf8_encode t ≡ some bs
  pub b64_exact : (bs : Bytes) → b64decode (b64encode bs) ≡ some bs

-- The disk, with `none` for an exception. `write` makes the directories of the path, too.
pub record Disk (S : Type 0) : Type 0 where
  pub exists : Text → S → Bool
  pub isdir : Text → S → Bool
  pub isfile : Text → S → Bool
  pub sorted_names : Text → S → Option (List Text)
  pub read : Text → S → Option Bytes
  pub write : Text → Bytes → S → Option S
  pub rmtree : Text → S → Option S
  pub remove : Text → S → Option S
  pub written :
      (p : Text) (bs : Bytes) (s t : S)
      → write p bs s ≡ some t
      → (exists p t ≡ true) × (isfile p t ≡ true) × (read p t ≡ some bs)

-- The shell: a time-out, an exception, or a code with what was printed.
pub data ShellResult : Type 0 where
  shell_timeout shell_error : ShellResult
  shell_done : ℤ → Text → Text → ShellResult

pub data Encoding : Type 0 where
  as_text as_base64 : Encoding

pub record ListedProxy : Type 0 where
  pub name : Text
  pub kind : Text
  pub local_ip : Text
  pub local_port : ℕ
  pub sk : Text

pub data RemoteError : Type 0 where
  path_not_found not_a_directory not_a_file empty_command command_timeout : RemoteError
  unknown_command raised : RemoteError

-- A result of a command; `error_result` has `success` false.
pub data RemoteResult : Type 0 where
  error_result : RemoteError → RemoteResult
  proxies_result : List ListedProxy → RemoteResult
  entries_result : Text → List (Text × Bool) → Option Text → RemoteResult
  content_result : Text → Text → Encoding → ℕ → RemoteResult
  written_result : Text → ℕ → RemoteResult
  deleted_result : Text → RemoteResult
  shell_result : ℤ → Text → Text → RemoteResult
  other_result : Text → RemoteResult

-- `args`, where a key may be missing
pub record RemoteArgs : Type 0 where
  pub path : Option Text
  pub content : Option Text
  pub encoding : Option Text
  pub command : Option Text

abbrev pub arg_or : Text → Option Text → Text
arg_or d none = d
arg_or d (some t) = t

abbrev pub masked : Text → Text
masked sk = if is_nil sk then [] else codes "***"

-- `_cmd_list_proxies`
unfoldable pub listed_proxies : Dict Text ProxyInfo → List ListedProxy
listed_proxies [] = []
listed_proxies ((name, info) ∷ ps) =
    record {
      name = name;
      kind = info.kind;
      local_ip = info.local_ip;
      local_port = info.local_port;
      sk = masked info.sk;
    }
    ∷ listed_proxies ps

-- `if not os.path.isabs(path): path = os.path.abspath(path)`
abbrev pub full_path : Text → Text → Text
full_path cwd p = if is_absolute p then p else abspath cwd p

module _ (codecs : Codecs) where
  abbrev pub or_base64 : Bytes → Option Text → Text × Encoding
  or_base64 bs none = (codecs.b64encode bs, as_base64)
  or_base64 bs (some t) = (t, as_text)

  -- The content of a file, as text where it is UTF-8.
  unfoldable pub content_of_file : Bytes → Text × Encoding
  content_of_file bs = or_base64 bs (codecs.utf8_decode bs)

  -- The bytes that a content stands for.
  unfoldable pub bytes_of : Encoding → Text → Option Bytes
  bytes_of as_base64 t = codecs.b64decode t
  bytes_of as_text t = codecs.utf8_encode t

abbrev pub encoding_of : Text → Encoding
encoding_of t = if t == codes "base64" then as_base64 else as_text

module _ {S : Type 0} (disk : Disk S) (codecs : Codecs) (cwd : Text) where
  abbrev pub read_result : Text → Option Bytes → RemoteResult
  read_result p none = error_result raised
  read_result p (some bs) =
      let c = content_of_file codecs bs in content_result p c.0 c.1 (length bs)

  -- `_cmd_read_file`
  unfoldable pub cmd_read_file : RemoteArgs → S → RemoteResult
  unfolding content_of_file
  cmd_read_file args s =
      let p = full_path cwd (arg_or [] args.path) in
      if not (disk.exists p s)
      then error_result path_not_found
      else if not (disk.isfile p s)
      then error_result not_a_file
      else read_result p (disk.read p s)

  abbrev pub stored : Text → Bytes → S → Option S → RemoteResult × S
  stored p bs s none = (error_result raised, s)
  stored p bs s (some t) = (written_result p (length bs), t)

  abbrev pub write_bytes : Text → S → Option Bytes → RemoteResult × S
  write_bytes p s none = (error_result raised, s)
  write_bytes p s (some bs) = stored p bs s (disk.write p bs s)

  -- `_cmd_write_file`
  unfoldable pub cmd_write_file : RemoteArgs → S → RemoteResult × S
  unfolding bytes_of
  cmd_write_file args s =
      write_bytes (full_path cwd (arg_or [] args.path)) s (
        bytes_of codecs (encoding_of (arg_or (codes "text") args.encoding))
          (arg_or [] args.content))

  abbrev pub deleted : Text → S → Option S → RemoteResult × S
  deleted p s none = (error_result raised, s)
  deleted p s (some t) = (deleted_result p, t)

  -- `_cmd_delete_file`
  unfoldable pub cmd_delete_file : RemoteArgs → S → RemoteResult × S
  cmd_delete_file args s =
      let p = full_path cwd (arg_or [] args.path) in
      if not (disk.exists p s)
      then (error_result path_not_found, s)
      else deleted p s (if disk.isdir p s then disk.rmtree p s else disk.remove p s)

  unfoldable pub entries_in : Text → List Text → S → List (Text × Bool)
  entries_in dir [] s = []
  entries_in dir (name ∷ names) s = (name, disk.isdir (join dir name) s) ∷ entries_in dir names s

  abbrev pub listing : Text → S → Option (List Text) → RemoteResult
  listing p s none = error_result raised
  listing p s (some names) =
      entries_result p (entries_in p names s) (if p == codes "/" then none else some (dirname p))

  -- `_cmd_list_files`
  unfoldable pub cmd_list_files : RemoteArgs → S → RemoteResult
  unfolding entries_in
  cmd_list_files args s =
      let p = full_path cwd (arg_or dot args.path) in
      if not (disk.exists p s)
      then error_result path_not_found
      else if not (disk.isdir p s)
      then error_result not_a_directory
      else listing p s (disk.sorted_names p s)

  abbrev pub shown : ShellResult → RemoteResult
  shown shell_timeout = error_result command_timeout
  shown shell_error = error_result raised
  shown (shell_done code out err) = shell_result code out err

  -- `_cmd_exec_shell`
  unfoldable pub cmd_exec_shell : (Text → ShellResult) → RemoteArgs → RemoteResult
  cmd_exec_shell shell args =
      let command = arg_or [] args.command in
      if is_nil command then error_result empty_command else shown (shell command)

  -- `handle_remote_cmd`, up to the answer
  unfoldable pub run_remote_cmd :
      (Text → ShellResult)
      → RemoteResult
      → RemoteResult
      → Client
      → Text
      → RemoteArgs
      → S
      → RemoteResult × S
  unfolding listed_proxies cmd_list_files cmd_read_file cmd_write_file cmd_delete_file
      cmd_exec_shell
  run_remote_cmd shell screenshot sys_info client cmd args s =
      if cmd == codes "list_proxies"
      then (proxies_result (listed_proxies client.proxies), s)
      else if cmd == codes "list_files"
      then (cmd_list_files args s, s)
      else if cmd == codes "read_file"
      then (cmd_read_file args s, s)
      else if cmd == codes "write_file"
      then cmd_write_file args s
      else if cmd == codes "delete_file"
      then cmd_delete_file args s
      else if cmd == codes "screenshot"
      then (screenshot, s)
      else if cmd == codes "sys_info"
      then (sys_info, s)
      else if cmd == codes "exec_shell"
      then (cmd_exec_shell shell args, s)
      else (error_result unknown_command, s)
