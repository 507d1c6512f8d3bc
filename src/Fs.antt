-- ===== src/Fs.antt =====
-- src/sysapi/src/fs.rs and src/syskrnl/fs/wrap.rs: paths, and the kernel's table of open files. A
-- path is the list of its bytes.
pub mod Ahci
pub mod Ata
pub mod Path
pub mod Disk
pub mod Handles
use tju_cinea_os.Prelude.{ℕ, Option, none, some}

-- `FileError`.
pub data FileError : Type 0 where
  not_found_error : FileError
  root_dir_error : FileError
  bad_relate_path_error : FileError
  not_a_dir_error : FileError
  not_a_device_error : FileError
  not_a_file_error : FileError
  file_busy_error : FileError
  open_method_error : FileError
  device_io_error : FileError
  os_error : FileError

-- `Result<A, FileError>`, with the two ways of giving no result: a panic, and a loop on fuel that
-- has used it up.
pub data Result {ℓ} (A : Type ℓ) : Type ℓ where
  ok : A → Result A
  err : FileError → Result A
  panics : Result A
  loops : Result A

-- The operator `?`.
infixl 5 ◌>>=◌ ◌>>◌
abbrev pub ◌>>=◌ {ℓ κ} : {A : Type ℓ} {B : Type κ} → Result A → (A → Result B) → Result B
ok a >>= f = f a
err e >>= f = err e
panics >>= f = panics
loops >>= f = loops

abbrev pub ◌>>◌ {ℓ κ} : {A : Type ℓ} {B : Type κ} → Result A → Result B → Result B
m >> k = m >>= λ _. k

abbrev pub ok_or {ℓ} : {A : Type ℓ} → Option A → FileError → Result A
ok_or none e = err e
ok_or (some a) e = ok a
