-- ===== src/Fs/Handles.antt =====
-- The table of open files of src/syskrnl/fs/wrap.rs: `register_opened_file`, `open` and `close`, and
-- the checks that `read` and `write_all` make on a handle.
pub mod Counts
pub mod Sharing
use tju_cinea_os.Prelude.{
  ℕ, suc, ◌+◌, ◌-◌, Bool, true, false, not, ◌||◌, Option, none, some, List, [], ◌∷◌, ltb, ◌==◌,
  if◌then◌else◌,
}
use tju_cinea_os.Prelude.Map
use tju_cinea_os.Prelude.Map.{Map, nat_key, bytes_key, bytes_beq}
use tju_cinea_os.Fs.{
  Result, ok, err, ◌>>=◌, not_found_error, file_busy_error, not_a_file_error, os_error,
  open_method_error,
}
use tju_cinea_os.Fs.Path.{Bytes, path_standardize}
use tju_cinea_os.Fs.Disk.{Disk, metadata}

-- `OpenFileHandle`.
pub record OpenFileHandle : Type 0 where
  pub id : ℕ
  pub path : Bytes
  pub write : Bool
  pub device : Bool

-- `SystemFileEntry`.
pub record SystemFileEntry : Type 0 where
  pub path : Bytes
  pub share : ℕ
  pub mutex : Bool

-- `SYSTEM_FILE_TABLE`, the handles of the current process (which it shares with its parent), and
-- `USER_FILE_HANDLER_ID`.
pub record Files : Type 0 where
  pub table : Map Bytes SystemFileEntry
  pub handles : Map ℕ OpenFileHandle
  pub next_id : ℕ

-- The devices of `DEVICE_TABLE` in src/syskrnl/fs/device.rs.
abbrev pub dev_stdout : Bytes
dev_stdout = b'/' ∷ b'd' ∷ b'e' ∷ b'v' ∷ b'/' ∷ b's' ∷ b't' ∷ b'd' ∷ b'o' ∷ b'u' ∷ b't' ∷ []

abbrev pub dev_uptime : Bytes
dev_uptime = b'/' ∷ b'd' ∷ b'e' ∷ b'v' ∷ b'/' ∷ b'u' ∷ b'p' ∷ b't' ∷ b'i' ∷ b'm' ∷ b'e' ∷ []

unfoldable pub is_device : Bytes → Bool
is_device path = bytes_beq path dev_stdout || bytes_beq path dev_uptime

-- The handle that is given out, and the state with it.
abbrev pub with_handle : Files → Map Bytes SystemFileEntry → Bytes → Bool → Bool → Files
with_handle s table path write device = record {
  table = table;
  handles =
      Map.insert s.next_id (record { id = s.next_id; path = path; write = write; device = device })
        s.handles;
  next_id = s.next_id + 1;
}

-- `register_opened_file`.
unfoldable pub register_opened_file : Files → Bytes → Bool → Bool → Result (ℕ × Files)
register_opened_file s path write device = elim (Map.lookup path s.table) [
  | some sft ↦
      if sft.mutex
      then err file_busy_error
      else ok (
        s.next_id,
        with_handle s (Map.insert path (record sft { share = sft.share + 1 }) s.table) path write
            device,
      )
  | none ↦ ok (
    s.next_id,
    with_handle s (Map.insert path (record { path = path; share = 1; mutex = write }) s.table) path
        write device,
  )
]

-- `open`.
unfoldable pub open_file : (disk : Disk) → Bytes → Files → Bytes → Bool → Result (ℕ × Files)
unfolding register_opened_file
open_file disk cwd s path write = do
  path ← path_standardize path
  if is_device path then register_opened_file s path write true else do
    meta ← metadata disk cwd path
    if not meta.is_file then err not_a_file_error else register_opened_file s path write false

-- The end of `close`, once the handle is gone: the new state and the result.
pub release : Files → Bytes → Files × Result (Unit {0})
release s path = elim (Map.lookup path s.table) [
  | none ↦ (s, err os_error)
  | some sft ↦ if sft.share == 1 then (record s { table = Map.remove path s.table }, ok tt) else (
    record s { table = Map.insert path (record sft { share = sft.share - 1 }) s.table },
    ok tt,
  )
]

-- `close`.
unfoldable pub close : Files → ℕ → Files × Result (Unit {0})
unfolding release
close s id = if ltb id 4 then (s, err not_found_error) else elim (Map.lookup id s.handles) [
  | none ↦ (s, err not_found_error)
  | some h ↦ release (record s { handles = Map.remove id s.handles }) h.path
]

-- The checks of `write_all`; `write_device` and `write_path` write the bytes.
unfoldable pub write_all :
    (write_device write_path : Bytes → Bytes → Result ℕ) → Files → ℕ → Bytes → Result ℕ
write_all write_device write_path s id buf = elim (Map.lookup id s.handles) [
  | none ↦ err not_found_error
  | some h ↦
      if h.write
      then if h.device then write_device h.path buf else write_path h.path buf
      else err open_method_error
]

-- `read`; `read_device` and `read_path` read the bytes.
unfoldable pub read_handle :
    (read_device read_path : Bytes → Result Bytes) → Files → ℕ → Result Bytes
read_handle read_device read_path s id = elim (Map.lookup id s.handles) [
  | none ↦ err not_found_error
  | some h ↦ if h.device then read_device h.path else read_path h.path
]

-- The first of the handles on a path.
unfoldable pub handle_on : Bytes → Map ℕ OpenFileHandle → Option OpenFileHandle
handle_on path [] = none
handle_on path ((id, h) ∷ m) =
    let rest = handle_on path m in if bytes_beq h.path path then some h else rest

-- `write_with_path`.
unfoldable pub write_with_path :
    (write_device write_path : Bytes → Bytes → Result ℕ) → Files → Bytes → Bytes → Result ℕ
write_with_path write_device write_path s path buf = do
  path ← path_standardize path
  elim (handle_on path s.handles) [
    | none ↦ err not_found_error
    | some h ↦
        if h.write
        then if h.device then write_device path buf else write_path path buf
        else err open_method_error
  ]

-- `read_with_path`.
unfoldable pub read_with_path :
    (read_device read_path : Bytes → Result Bytes) → Files → Bytes → Result Bytes
read_with_path read_device read_path s path = do
  path ← path_standardize path
  elim (handle_on path s.handles) [
    | none ↦ err not_found_error
    | some h ↦ if h.device then read_device path else read_path path
  ]
