-- ===== src/Fs/Path.antt =====
-- The path functions of src/sysapi/src/fs.rs.
pub mod Relative
pub mod Standard
use tju_cinea_os.Prelude.{
  ℕ, zero, suc, ◌+◌, ◌-◌, Bool, true, false, Option, none, some, List, [], ◌∷◌, ◌++◌, ◌==◌,
  if◌then◌else◌, length, take, drop, get_elem?,
}
use tju_cinea_os.Prelude.Map.{bytes_beq}
use tju_cinea_os.Fs.{Result, ok, err, loops, ◌>>=◌, bad_relate_path_error}

abbrev pub Bytes : Type 0
Bytes = List ℕ

abbrev pub slash : ℕ
slash = b'/'

abbrev pub dot : Bytes
dot = b'.' ∷ []

abbrev pub dotdot : Bytes
dotdot = b'.' ∷ b'.' ∷ []

-- `path.rfind('/')`.
unfoldable pub rfind_slash : Bytes → Option ℕ
rfind_slash [] = none
rfind_slash (c ∷ cs) = elim (rfind_slash cs) [
  | some i ↦ some (suc i)
  | none ↦ if c == slash then some 0 else none
]

-- The `match` of `dirname`; `n` is the length of the path.
abbrev pub dir_end : ℕ → Option ℕ → ℕ
dir_end n none = n
dir_end n (some zero) = 1
dir_end n (some (suc i)) = suc i

-- `dirname`.
unfoldable pub dirname : Bytes → Bytes
unfolding rfind_slash
dirname pathname = take (dir_end (length pathname) (rfind_slash pathname)) pathname

-- `filename`.
unfoldable pub filename : Bytes → Bytes
unfolding rfind_slash
filename pathname = drop (elim (rfind_slash pathname) [ none ↦ 0 | some i ↦ i + 1 ]) pathname

-- `str::starts_with('/')` and `str::ends_with('/')`.
unfoldable pub starts_with_slash : Bytes → Bool
starts_with_slash [] = false
starts_with_slash (c ∷ cs) = c == slash

unfoldable pub ends_with_slash : Bytes → Bool
ends_with_slash [] = false
ends_with_slash (c ∷ []) = c == slash
ends_with_slash (c ∷ d ∷ cs) = ends_with_slash (d ∷ cs)

-- `path_combine`.
unfoldable pub path_combine : Bytes → Bytes → Bytes
path_combine path1 path2 = path1 ++ ((if ends_with_slash path1 then [] else slash ∷ []) ++ path2)

-- `realpath`.
unfoldable pub realpath : Bytes → Bytes → Bytes
realpath pathname current_dir =
    if starts_with_slash pathname then pathname else path_combine current_dir pathname

-- `vec.remove(i)`, for an index inside.
pub remove_at {ℓ} : {A : Type ℓ} → ℕ → List A → List A
remove_at i [] = []
remove_at zero (x ∷ xs) = xs
remove_at (suc i) (x ∷ xs) = x ∷ remove_at i xs

-- The loop of `process_relative_path` at the index `i`.
unfoldable pub relative_loop : ℕ → ℕ → List Bytes → Result (List Bytes)
relative_loop zero i segs = loops
relative_loop (suc fuel) i segs = elim (get_elem? segs i) [
  | none ↦ ok segs
  | some s ↦ elim (bytes_beq s dot) [
    | true ↦ relative_loop fuel i (remove_at i segs)
    | false ↦ elim (bytes_beq s dotdot) [
      | true ↦ elim (i == 0) [
        | true ↦ err bad_relate_path_error
        | false ↦ relative_loop fuel (i - 1) (remove_at (i - 1) (remove_at i segs))
      ]
      | false ↦ relative_loop fuel (i + 1) segs
    ]
  ]
]

-- `process_relative_path`: each round brings the end nearer by one.
unfoldable pub process_relative_path : List Bytes → Result (List Bytes)
unfolding relative_loop remove_at
process_relative_path segs = relative_loop (length segs + 1) 0 segs

-- A byte in front of the first piece.
abbrev pub push_byte : ℕ → List Bytes → List Bytes
push_byte c [] = (c ∷ []) ∷ []
push_byte c (s ∷ ss) = (c ∷ s) ∷ ss

-- `path.split('/')`.
unfoldable pub split : Bytes → List Bytes
split [] = [] ∷ []
split (c ∷ cs) = let ss = split cs in if c == slash then [] ∷ ss else push_byte c ss

-- `.filter(|x| x.len() > 0)`.
unfoldable pub filter_nonempty : List Bytes → List Bytes
filter_nonempty [] = []
filter_nonempty ([] ∷ ss) = filter_nonempty ss
filter_nonempty ((c ∷ s) ∷ ss) = (c ∷ s) ∷ filter_nonempty ss

-- `.join("/")`.
unfoldable pub join : List Bytes → Bytes
join [] = []
join (s ∷ []) = s
join (s ∷ t ∷ ss) = s ++ (slash ∷ join (t ∷ ss))

-- `path_standardize`.
unfoldable pub path_standardize : Bytes → Result Bytes
path_standardize path = do
  segs ← process_relative_path (filter_nonempty (split path))
  ok (join ([] ∷ segs))
