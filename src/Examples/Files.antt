-- ===== src/Examples/Files.antt =====
-- The file `/a` opened, and paths and disks.
use tju_cinea_os.Prelude.{
  ◌+◌, ◌*◌, ◌-◌, min, ◌≡◌, refl, Bool, true, false, none, some, [], ◌∷◌, arith,
}
use tju_cinea_os.Prelude.{ok as run_ok}
use tju_cinea_os.Prelude.Map.{nat_key, bytes_key, lookup, insert}
use tju_cinea_os.Fs.{ok}
use tju_cinea_os.Fs.Path.{
  Bytes, path_standardize, process_relative_path, split, filter_nonempty, join, dot, dotdot,
}
use tju_cinea_os.Fs.Path.Relative.{resolve, process_relative_path-resolve}
use tju_cinea_os.Fs.Path.Standard.{path_standardize-path_standardize}
use tju_cinea_os.Fs.Handles.{Files, register_opened_file, close}
use tju_cinea_os.Fs.Handles.Counts.{IsCounted, register-IsCounted, close-IsCounted, count}
use tju_cinea_os.Fs.Handles.Sharing.{Restored, close-register}
use tju_cinea_os.Fs.Ata.{Drive, Reader, read}
use tju_cinea_os.Fs.Ata.Content.{range, read-range}

abbrev path : Bytes
path = b'/' ∷ b'a' ∷ []

abbrev none_open : Files
none_open = record { table = []; handles = []; next_id = 4 }

-- `/a` open, for writing or not.
abbrev one_open : Bool → Files
one_open write = record {
  table = (path, record { path = path; share = 1; mutex = write }) ∷ [];
  handles = (4, record { id = 4; path = path; write = write; device = false }) ∷ [];
  next_id = 5;
}

none_open-IsCounted : IsCounted none_open
unfolding lookup count
none_open-IsCounted = record {
  rises = omega arith;
  ids = omega arith;
  shares = λ p. refl;
  shared = λ p sft h. ground arith;
}

opened : (write : Bool) → register_opened_file none_open path write false ≡ ok (4, one_open write)
unfolding lookup insert register_opened_file
opened write = refl

absent : lookup path none_open.table ≡ none
unfolding lookup
absent = refl

held :
    lookup 4 (one_open true).handles
    ≡ some (record { id = 4; path = path; write = true; device = false })
unfolding lookup
held = refl

register-IsCounted_example : IsCounted (one_open true)
register-IsCounted_example =
    register-IsCounted none_open path true false none_open-IsCounted (opened true)

one_open-IsCounted : IsCounted (one_open true)
one_open-IsCounted = register-IsCounted none_open path true false none_open-IsCounted (opened true)

close-IsCounted_example : IsCounted (close (one_open true) 4).0
close-IsCounted_example = close-IsCounted (one_open true) 4 one_open-IsCounted

close-register_example : Restored none_open (close (one_open true) 4)
close-register_example = close-register none_open path true false none_open-IsCounted (opened true)

-- `a/./..//b`.
abbrev crooked : Bytes
crooked = b'a' ∷ b'/' ∷ b'.' ∷ b'/' ∷ b'.' ∷ b'.' ∷ b'/' ∷ b'/' ∷ b'b' ∷ []

abbrev straight : Bytes
straight = b'/' ∷ b'b' ∷ []

straightened : path_standardize crooked ≡ ok straight
unfolding path_standardize split filter_nonempty process_relative_path join
straightened = refl

path_standardize-path_standardize_example : path_standardize straight ≡ ok straight
path_standardize-path_standardize_example =
    path_standardize-path_standardize crooked straight straightened

process_relative_path-resolve_example :
    process_relative_path ((b'a' ∷ []) ∷ dotdot ∷ dot ∷ [])
    ≡ resolve [] ((b'a' ∷ []) ∷ dotdot ∷ dot ∷ [])
process_relative_path-resolve_example =
    process_relative_path-resolve ((b'a' ∷ []) ∷ dotdot ∷ dot ∷ [])

-- A drive of 4 blocks on which the byte at `p` is `p`.
abbrev drive : Drive (Unit {0})
drive = record { read = λ b buf d. (range (λ p. p) (b * 512) 512, true); write = λ b buf d. some d }

abbrev reader : Reader
reader = record { max_block = 4; position = 510; cache = []; writing = false }

read-range_example :
    (r' : Reader) × (read drive 1000 reader tt
      ≡ run_ok (range (λ p. p) 510 (min 1000 (4 * 512 - 510)), r', tt))
    × (r'.position ≡ 510 + min 1000 (4 * 512 - 510))
read-range_example =
    read-range drive (λ p. p) 4 tt (λ b buf h. refl) 1000 reader refl refl (omega arith)
