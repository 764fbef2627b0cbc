-- ===== src/Client/Remote/Roundtrip.antt =====
-- frpc.py: a file that is written by a remote command, and read by one.
use frp_python.Prelude.{codes, length, ℕ, ◌≡◌, refl, Option, none, some, []}
use frp_python.Access.Control.{given}
use frp_python.Client.Remote.{
  RemoteResult, written_result, content_result, Encoding, Disk, Codecs, RemoteArgs, arg_or,
  full_path, or_base64, content_of_file, bytes_of, encoding_of, cmd_read_file, stored, write_bytes,
  cmd_write_file,
}
use frp_python.Protocol.Codec.{Bytes}
use frp_python.Py.Text.{Text}

-- An answer with a content that stands for the bytes that arguments of a write give, and their
-- number.
pub record IsContentOf (codecs : Codecs) (cwd : Text) (args : RemoteArgs) (r : RemoteResult)
    : Type 0 where
  pub bytes : Bytes
  pub content : Text
  pub encoding : Encoding
  pub given_eq :
      bytes_of codecs (encoding_of (arg_or (codes "text") args.encoding)) (arg_or [] args.content)
      ≡ some bytes
  pub result_eq :
      r ≡ content_result (full_path cwd (arg_or [] args.path)) content encoding (length bytes)
  pub stands_for : bytes_of codecs encoding content ≡ some bytes

content_of_file-exact :
    (codecs : Codecs) (bs : Bytes)
    → let c = content_of_file codecs bs in bytes_of codecs c.1 c.0 ≡ some bs
unfolding content_of_file bytes_of
content_of_file-exact codecs bs = go (codecs.utf8_decode bs) refl
  where
    go :
        (o : Option Text)
        → codecs.utf8_decode bs ≡ o
        → bytes_of codecs (or_base64 codecs bs o).1 (or_base64 codecs bs o).0 ≡ some bs
    go none e = codecs.b64_exact bs
    go (some t) e = codecs.utf8_exact bs t e

module _ {S : Type 0} (disk : Disk S) (codecs : Codecs) (cwd : Text) where
  -- What a write that succeeds does to the disk.
  write_bytes-written :
      (p q : Text) (n : ℕ) (s : S) (o : Option Bytes)
      → (write_bytes disk codecs cwd p s o).0 ≡ written_result q n
      → (bs : Bytes) × (o ≡ some bs)
        × (disk.write p bs s ≡ some (write_bytes disk codecs cwd p s o).1)
  write_bytes-written p q n s none e = cc e
  write_bytes-written p q n s (some bs) e = go (disk.write p bs s) refl e
    where
      go :
          (o : Option S)
          → disk.write p bs s ≡ o
          → (stored disk codecs cwd p bs s o).0 ≡ written_result q n
          → (cs : Bytes) × (some bs ≡ some cs)
            × (disk.write p cs s ≡ some (stored disk codecs cwd p bs s o).1)
      go none k f = cc f
      go (some t) k f = (bs, refl, k)

  -- What a write_file that succeeds writes, a read_file of the same path answers: a content that
  -- stands for the same bytes, as text or in Base64, and their number.
  pub cmd_write_file-IsContentOf :
      (args : RemoteArgs) (q : Text) (n : ℕ) (s : S)
      → (cmd_write_file disk codecs cwd args s).0 ≡ written_result q n
      → IsContentOf codecs cwd args
          (cmd_read_file disk codecs cwd args (cmd_write_file disk codecs cwd args s).1)
  unfolding cmd_write_file cmd_read_file
  cmd_write_file-IsContentOf args q n s e =
      let p = full_path cwd (arg_or [] args.path) in
      let (bs, given, wrote) = write_bytes-written p q n s _ e in
      let (there, file, same) = disk.written p bs s _ wrote in
      record {
        bytes = bs;
        content = (content_of_file codecs bs).0;
        encoding = (content_of_file codecs bs).1;
        given_eq = given;
        result_eq = rw there (rw file (rw same refl));
        stands_for = content_of_file-exact codecs bs;
      }
