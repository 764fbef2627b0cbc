-- ===== src/Webadmin/Files.antt =====
-- webadmin/api/routes/files.py: the paths of requests and the operations on files. The working
-- directory and what the file system says of a path are parameters; an operation is the refusal or
-- what it does with which path, and whether that fails is the file system's.

pub mod Paths
pub mod Inside
pub mod Confined
mod Tests
use frp_python.Prelude.{
  leb, if◌then◌else◌, ◌==◌, is_nil, codes, elem, ℕ, ◌⊎◌, inl, inr, Bool, true, false, ◌||◌, not,
  Option, none, some, List, [], ◌∷◌, map, nat_eq, string_eq, list_eq,
}
use frp_python.Protocol.Codec.{Bytes}
use frp_python.Py.Path.{join, dot_dot, abspath, basename, dirname, extension}
use frp_python.Py.Text.{Text, starts_with, split, split_first, has_char, lower}
use frp_python.Py.Words.{split_last}
use frp_python.Webadmin.Files.Paths.{
  FileError, already_there, bad_extension, bad_name, dots_not_allowed, not_directory, not_file,
  not_found, out_of_range, read_failed, resolve_path, to_rel, too_large, virtual_root,
}

pub data FileAction : Type 0 where
  read_text : Text → FileAction
  write_text : Text → Text → FileAction
  send_file : Text → Text → FileAction
  remove_tree : Text → FileAction
  remove_file : Text → FileAction
  move_path : Text → Text → FileAction
  make_directory : Text → FileAction
  write_chunks : Text → List Bytes → FileAction

-- What the file system says: `os.path.exists`, `isdir`, `isfile` and `getsize`, the size and
-- time of `stat`, and the sorted names of `listdir`; `none` is an `OSError`.
pub record FileSystem : Type 0 where
  pub exists : Text → Bool
  pub isdir : Text → Bool
  pub isfile : Text → Bool
  pub getsize : Text → ℕ
  pub stat : Text → Option (ℕ × ℕ)
  pub sorted_names : Text → Option (List Text)

abbrev pub bad_new_name : Text → Bool
bad_new_name name = is_nil name || (has_char b'/' name || has_char b'\\' name)

-- `raise HTTPException` before what follows, or what follows with the path
unfoldable pub and_then : {A B : Type 0} → FileError ⊎ A → (A → FileError ⊎ B) → FileError ⊎ B
and_then (inl e) act = inl e
and_then (inr p) act = act p

unfoldable pub check : {B : Type 0} → Bool → FileError → FileError ⊎ B → FileError ⊎ B
check ok e r = if ok then r else inl e

abbrev pub max_text_file_size : ℕ
max_text_file_size = 2097152

-- `_ALLOWED_TEXT_EXT`
abbrev pub allowed_text_ext : List Text
allowed_text_ext = map codes (
    ".txt" ∷ ".json" ∷ ".yaml" ∷ ".yml" ∷ ".toml" ∷ ".ini" ∷ ".cfg" ∷ ".conf" ∷ ".py" ∷ ".js"
    ∷ ".ts" ∷ ".tsx" ∷ ".jsx" ∷ ".html" ∷ ".css" ∷ ".md" ∷ ".log" ∷ ".env" ∷ ".sh" ∷ [])

-- `ext and ext not in _ALLOWED_TEXT_EXT`, the other way round
abbrev pub is_text_path : Text → Bool
is_text_path p = let ext = lower (extension p) in is_nil ext || elem ext allowed_text_ext

-- `os.unlink` of a path that is no directory, `shutil.rmtree` of one that is
abbrev pub removal : Bool → Text → FileAction
removal true p = remove_tree p
removal false p = remove_file p

-- An entry of a listing; the time is what the file system gives.
pub record FileItem : Type 0 where
  pub name : Text
  pub path : Text
  pub is_dir : Bool
  pub size : ℕ
  pub modified_at : ℕ

-- `path.rsplit("/", 1)[0]`, or the virtual root
abbrev pub parent_of : Text → Text
parent_of path = elim (split_last b'/' path) [ none ↦ [] | some (head, tail) ↦ head ]

pub record FileList : Type 0 where
  pub path : Text
  pub items : List FileItem
  pub parent : Option Text

module _ (cwd : Text) (roots : List Text) (fs : FileSystem) where
  -- An entry that cannot be read is passed over.
  abbrev pub item_for : Text → Text → Option (ℕ × ℕ) → List FileItem → List FileItem
  item_for name full none items = items
  item_for name full (some (size, time)) items =
      record {
        name = name;
        path = to_rel cwd roots full;
        is_dir = fs.isdir full;
        size = if fs.isdir full then 0 else size;
        modified_at = time;
      }
      ∷ items

  unfoldable pub items_of : Text → List Text → List FileItem
  items_of dir [] = []
  items_of dir (name ∷ names) =
      let full = join dir name in item_for name full (fs.stat full) (items_of dir names)

  abbrev pub root_item : Text → Option (ℕ × ℕ) → List FileItem → List FileItem
  root_item name none items = items
  root_item name (some (size, time)) items =
      record { name = name; path = name; is_dir = true; size = 0; modified_at = time } ∷ items

  unfoldable pub root_items : List Text → List FileItem
  root_items [] = []
  root_items (root ∷ rest) =
      let base = abspath cwd root in root_item (basename base) (fs.stat base) (root_items rest)

  abbrev pub listed : Text → Text → Option (List Text) → FileError ⊎ FileList
  listed path p none = inl read_failed
  listed path p (some names) =
      inr (record { path = path; items = items_of p names; parent = some (parent_of path) })

  -- `list_files`
  unfoldable pub list_files : Text → FileError ⊎ FileList
  unfolding items_of root_items
  list_files path =
      if is_nil path || path == codes "/"
      then inr (record { path = []; items = root_items roots; parent = none })
      else and_then (resolve_path cwd roots path)
          (λ p. check (fs.isdir p) not_directory (listed path p (fs.sorted_names p)))

  -- `get_file_content`
  unfoldable pub get_file_content : Text → FileError ⊎ FileAction
  get_file_content path = and_then (resolve_path cwd roots path) (λ p.
      check (fs.isfile p) not_file (
        check (leb (fs.getsize p) max_text_file_size) too_large
          (check (is_text_path p) bad_extension (inr (read_text p)))))

  -- `save_file_content`
  unfoldable pub save_file_content : Text → Text → FileError ⊎ FileAction
  save_file_content path content = and_then (resolve_path cwd roots path) (λ p.
      check (fs.isfile p) not_file
        (check (is_text_path p) bad_extension (inr (write_text p content))))

  -- `download_file`
  unfoldable pub download_file : Text → FileError ⊎ FileAction
  download_file path =
      and_then (resolve_path cwd roots path)
        (λ p. check (fs.isfile p) not_file (inr (send_file p (basename p))))

  -- `delete_file`
  unfoldable pub delete_file : Text → FileError ⊎ FileAction
  delete_file path =
      and_then (resolve_path cwd roots path)
        (λ p. check (fs.exists p) not_found (inr (removal (fs.isdir p) p)))

  -- `rename_file`
  unfoldable pub rename_file : Text → Text → FileError ⊎ FileAction
  rename_file path new_name = and_then (resolve_path cwd roots path) (λ p.
      check (fs.exists p) not_found (
        check (not (bad_new_name new_name)) bad_name (
          let new = join (dirname p) new_name in
          and_then (resolve_path cwd roots (to_rel cwd roots new))
            (λ q. check (not (fs.exists new)) already_there (inr (move_path p new))))))

  -- `make_dir`
  unfoldable pub make_dir : Text → Text → FileError ⊎ FileAction
  make_dir path dir_name = and_then (resolve_path cwd roots path) (λ p.
      check (fs.isdir p) not_directory (
        check (not (bad_new_name dir_name)) bad_name (
          let new = join p dir_name in
          check (not (fs.exists new)) already_there (inr (make_directory new)))))

  -- `upload_file`; an empty name is `upload`.
  unfoldable pub upload_file : Text → Text → List Bytes → FileError ⊎ FileAction
  upload_file path filename chunks = and_then (resolve_path cwd roots path) (λ p.
      check (fs.isdir p) not_directory (
        let name = if is_nil filename then codes "upload" else filename in
        check (not (has_char b'/' name || has_char b'\\' name)) bad_name
          (inr (write_chunks (join p name) chunks))))

-- A request of the router, but for listings.
pub data FileRequest : Type 0 where
  content_of : Text → FileRequest
  save : Text → Text → FileRequest
  download : Text → FileRequest
  delete : Text → FileRequest
  rename : Text → Text → FileRequest
  mkdir : Text → Text → FileRequest
  upload : Text → Text → List Bytes → FileRequest

module _ (cwd : Text) (roots : List Text) (fs : FileSystem) where
  unfoldable pub serve_file : FileRequest → FileError ⊎ FileAction
  unfolding get_file_content save_file_content download_file delete_file rename_file make_dir
      upload_file
  serve_file (FileRequest.content_of path) = get_file_content cwd roots fs path
  serve_file (FileRequest.save path content) = save_file_content cwd roots fs path content
  serve_file (FileRequest.download path) = download_file cwd roots fs path
  serve_file (FileRequest.delete path) = delete_file cwd roots fs path
  serve_file (FileRequest.rename path new_name) = rename_file cwd roots fs path new_name
  serve_file (FileRequest.mkdir path dir_name) = make_dir cwd roots fs path dir_name
  serve_file (FileRequest.upload path name chunks) = upload_file cwd roots fs path name chunks
