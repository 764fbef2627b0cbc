-- ===== src/Client/Remote/Tests.antt =====
-- frpc.py: remote commands at concrete inputs.
use frp_python.Prelude.{
  ltb, if◌then◌else◌, ==_refl, is_some, codes, all, Dict, lookup, insert, erase, lookup-insert, ◌≡◌,
  refl, sym, ap, ◌∙◌, subst, Bool, true, false, Option, none, some, [], ◌∷◌, nat_eq, string_eq,
  list_eq,
}
use frp_python.Client.Remote.{
  Disk, Codecs, RemoteArgs, full_path, bytes_of, cmd_read_file, cmd_write_file,
}
use frp_python.Client.Remote.Roundtrip.{IsContentOf, cmd_write_file-IsContentOf}
use frp_python.Protocol.Codec.{Bytes}
use frp_python.Py.Text.{Text}

found_again :
    (p : Text) (bs : Bytes) (s t : Dict Text Bytes)
    → some (insert p bs s) ≡ some t
    → lookup p t ≡ some bs
found_again p bs s t e =
    let same : insert p bs s ≡ t = cc e in
    subst (λ d. lookup p d ≡ some bs) same (lookup-insert p p bs s ∙ rw (==_refl p) refl)

-- A disk of files by their paths.
abbrev store : Disk (Dict Text Bytes)
store = record {
  exists = λ p s. is_some (lookup p s);
  isdir = λ p s. false;
  isfile = λ p s. is_some (lookup p s);
  sorted_names = λ p s. some [];
  read = lookup;
  write = λ p bs s. some (insert p bs s);
  rmtree = λ p s. none;
  remove = λ p s. some (erase p s);
  written =
      λ p bs s t e. let same = found_again p bs s t e in (ap is_some same, ap is_some same, same);
}

abbrev ascii_text : Bytes → Option Text
ascii_text bs = if all (λ b. ltb b 128) bs then some bs else none

ascii_exact : (bs : Bytes) (t : Text) → ascii_text bs ≡ some t → some t ≡ some bs
ascii_exact bs t e = go (all (λ b. ltb b 128) bs) e
  where
    go : (b : Bool) → (if b then some bs else none) ≡ some t → some t ≡ some bs
    go true f = sym f
    go false f = cc f

-- Texts of ASCII, and a Base64 that changes nothing.
abbrev codecs : Codecs
codecs = record {
  utf8_encode = some;
  utf8_decode = ascii_text;
  b64encode = λ bs. bs;
  b64decode = some;
  utf8_exact = ascii_exact;
  b64_exact = λ bs. refl;
}

abbrev note : RemoteArgs
note = record {
  path = some (codes "note.bin");
  content = some (200 ∷ 7 ∷ []);
  encoding = some (codes "base64");
  command = none;
}

cmd_write_file-IsContentOf_example : IsContentOf codecs (codes "/home") note (
    cmd_read_file store codecs
      (codes "/home")
      note
      (cmd_write_file store codecs (codes "/home") note []).1)
unfolding cmd_write_file bytes_of
cmd_write_file-IsContentOf_example =
    cmd_write_file-IsContentOf store codecs (codes "/home") note
      (full_path (codes "/home") (codes "note.bin")) 2 [] refl
