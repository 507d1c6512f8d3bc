-- ===== src/Fs/Disk.antt =====
-- Looking a path up on the disk: `seekpath`, `metadata`, `list`, `info` and `change_dir` of
-- src/syskrnl/fs/wrap.rs. The file system itself is the package `fatfs`: its directories and what
-- can be read of them are a parameter.
use tju_cinea_os.Prelude.{Bool, not, Option, none, some, List, [], ◌∷◌, length, ◌==◌, if◌then◌else◌}
use tju_cinea_os.Prelude.Map.{bytes_beq}
use tju_cinea_os.Fs.{
  Result, ok, err, ◌>>=◌, ok_or, not_found_error, root_dir_error, not_a_dir_error,
}
use tju_cinea_os.Fs.Path.{
  Bytes, realpath, dirname, filename, split, filter_nonempty, process_relative_path,
  path_standardize, path_combine,
}

-- `fatfs::Dir` and `fatfs::DirEntry`: `open_dir` finds no directory or gives it, `iter` gives
-- entries or errors.
pub record Disk : Type 1 where
  pub Dir : Type 0
  pub Entry : Type 0
  pub root_dir : Dir
  pub open_dir : Dir → Bytes → Option Dir
  pub iter : Dir → List (Option Entry)
  pub file_name : Entry → Bytes
  pub is_dir : Entry → Bool
  pub is_file : Entry → Bool
  pub to_dir : Entry → Dir

-- `Metadata`, as far as the kernel looks at it, and `FileEntry`.
pub record Metadata : Type 0 where
  pub path : Bytes
  pub file_name : Bytes
  pub is_dir : Bool
  pub is_file : Bool

pub data FileEntry : Type 0 where
  dir : Metadata → FileEntry
  file : Metadata → FileEntry

module _ (disk : Disk) where
  open disk use {Dir, Entry, root_dir, open_dir, iter, to_dir}

  -- The loop of `seekpath` over the directories of the path.
  pub walk : Dir → List Bytes → Result Dir
  walk d [] = ok d
  walk d (next ∷ path) = do d ← ok_or (open_dir d next) not_found_error; walk d path

  -- `dir.iter().find(…)`: the first entry without an error that has the name.
  pub find_entry : Bytes → List (Option Entry) → Result Entry
  find_entry name [] = err not_found_error
  find_entry name (none ∷ es) = find_entry name es
  find_entry name (some e ∷ es) =
      if bytes_beq (disk.file_name e) name then ok e else find_entry name es

  -- `seekpath`; `cwd` is the working directory of the current process.
  unfoldable pub seekpath : Bytes → Bytes → Result Entry
  unfolding walk find_entry
  seekpath cwd path = do
    let path = realpath path cwd
    segs ← process_relative_path (filter_nonempty (split (dirname path)))
    d ← walk root_dir segs
    if length (filename path) == 0 then err root_dir_error else find_entry (filename path) (iter d)

  -- `Metadata::from_dir_entry`.
  unfoldable pub from_dir_entry : Entry → Bytes → Metadata
  from_dir_entry e path = record {
    path = path;
    file_name = disk.file_name e;
    is_dir = disk.is_dir e;
    is_file = disk.is_file e;
  }

  unfoldable pub metadata : Bytes → Bytes → Result Metadata
  unfolding seekpath from_dir_entry
  metadata cwd path = do e ← seekpath cwd path; ok (from_dir_entry e path)

  -- The entries of a directory that can be read.
  pub list_entries : Bytes → List (Option Entry) → List FileEntry
  unfolding from_dir_entry
  list_entries path [] = []
  list_entries path (none ∷ es) = list_entries path es
  list_entries path (some e ∷ es) =
      (let m = from_dir_entry e (path_combine path (disk.file_name e)) in
        if disk.is_dir e then dir m else file m)
      ∷ list_entries path es

  unfoldable pub list : Bytes → Bytes → Result (List FileEntry)
  unfolding seekpath list_entries
  list cwd path = do
    e ← seekpath cwd path
    if not (disk.is_dir e) then err not_a_dir_error else ok (list_entries path (iter (to_dir e)))

  unfoldable pub info : Bytes → Bytes → Result Metadata
  unfolding metadata
  info cwd path = do path ← path_standardize path; metadata cwd path

  -- `change_dir`: the new working directory.
  unfoldable pub change_dir : Bytes → Bytes → Result Bytes
  unfolding metadata
  change_dir cwd path = do
    path ← path_standardize path
    meta ← metadata cwd path
    if not meta.is_dir then err not_a_dir_error else ok path
