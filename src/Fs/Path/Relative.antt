-- ===== src/Fs/Path/Relative.antt =====
-- `process_relative_path` of src/sysapi/src/fs.rs goes by a stack of the segments kept so far.
use mathlib.Core.List.{reverse, append-nil, reverse-cons, append_assoc}
use tju_cinea_os.Prelude.{
  ℕ, zero, suc, ◌+◌, ◌-◌, ◌<◌, ◌≡◌, refl, ap, true, false, none, some, List, [], ◌∷◌, ◌++◌, arith,
  length, length-append, get_elem?,
}
use tju_cinea_os.Prelude.Map.{bytes_beq}
use tju_cinea_os.Fs.{Result, ok, err, bad_relate_path_error}
use tju_cinea_os.Fs.Path.{Bytes, dot, dotdot, remove_at, relative_loop, process_relative_path}

-- The segments kept, last first, and those to come.
unfoldable pub resolve : List Bytes → List Bytes → Result (List Bytes)
resolve kept [] = ok (reverse kept)
resolve kept (s ∷ rest) = elim (bytes_beq s dot) [
  | true ↦ resolve kept rest
  | false ↦ elim (bytes_beq s dotdot) [
    | true ↦ elim kept [ [] ↦ err bad_relate_path_error | k ∷ ks ↦ resolve ks rest ]
    | false ↦ resolve (s ∷ kept) rest
  ]
]

get_elem?-append :
    (xs : List Bytes) (s : Bytes) (ys : List Bytes) (i : ℕ)
    → i ≡ length xs
    → get_elem? (xs ++ s ∷ ys) i ≡ some s
get_elem?-append [] s ys zero h = refl
get_elem?-append [] s ys (suc i) h = absurd (omega arith)
get_elem?-append (x ∷ xs) s ys zero h = absurd (omega arith)
get_elem?-append (x ∷ xs) s ys (suc i) h = get_elem?-append xs s ys i (omega arith)

get_elem?-end : (xs : List Bytes) (i : ℕ) → i ≡ length xs → get_elem? xs i ≡ none
get_elem?-end [] i h = refl
get_elem?-end (x ∷ xs) zero h = absurd (omega arith)
get_elem?-end (x ∷ xs) (suc i) h = get_elem?-end xs i (omega arith)

remove_at-append :
    (xs : List Bytes) (s : Bytes) (ys : List Bytes) (i : ℕ)
    → i ≡ length xs
    → remove_at i (xs ++ s ∷ ys) ≡ xs ++ ys
unfolding remove_at
remove_at-append [] s ys zero h = refl
remove_at-append [] s ys (suc i) h = absurd (omega arith)
remove_at-append (x ∷ xs) s ys zero h = absurd (omega arith)
remove_at-append (x ∷ xs) s ys (suc i) h = ap (◌∷◌ x) (remove_at-append xs s ys i (omega arith))

length-reverse : (xs : List Bytes) → length (reverse xs) ≡ length xs
length-reverse [] = refl
length-reverse (x ∷ xs) =
    omega
      (arith, ap length (reverse-cons x xs), length-append (reverse xs) (x ∷ []), length-reverse xs)

-- A kept segment stands at the end of what the loop has passed.
kept-cons : (k : Bytes) (ks rest : List Bytes) → reverse (k ∷ ks) ++ rest ≡ reverse ks ++ k ∷ rest
kept-cons k ks rest = rw (reverse-cons k ks, append_assoc)

module _ (i : ℕ) (kept : List Bytes) (s : Bytes) (rest : List Bytes) (h : i ≡ length kept) where
  seen : get_elem? (reverse kept ++ s ∷ rest) i ≡ some s
  seen = get_elem?-append (reverse kept) s rest i (omega (arith, length-reverse kept))

  dropped : remove_at i (reverse kept ++ s ∷ rest) ≡ reverse kept ++ rest
  dropped = remove_at-append (reverse kept) s rest i (omega (arith, length-reverse kept))

relative_loop-resolve :
    (fuel i : ℕ) (kept rest : List Bytes)
    → i ≡ length kept
    → length rest < fuel
    → relative_loop fuel i (reverse kept ++ rest) ≡ resolve kept rest
unfolding relative_loop resolve
relative_loop-resolve zero i kept rest h f = elim f [ ]
relative_loop-resolve (suc fuel) i kept [] h f =
    rw (append-nil)
      (rw (get_elem?-end (reverse kept) i (omega (arith, length-reverse kept)), relative_loop))
relative_loop-resolve (suc fuel) i [] (s ∷ rest) h f = ground (
  arith,
  seen i [] s rest h,
  dropped i [] s rest h,
  relative_loop-resolve fuel i [] rest h,
  kept-cons s [] rest,
  relative_loop-resolve fuel (i + 1) (s ∷ []) rest,
)
relative_loop-resolve (suc fuel) i (k ∷ ks) (s ∷ rest) h f = ground (
  arith,
  seen i (k ∷ ks) s rest h,
  dropped i (k ∷ ks) s rest h,
  relative_loop-resolve fuel i (k ∷ ks) rest h,
  kept-cons k ks rest,
  remove_at-append (reverse ks) k rest (i - 1),
  length-reverse ks,
  relative_loop-resolve fuel (i - 1) ks rest,
  kept-cons s (k ∷ ks) rest,
  relative_loop-resolve fuel (i + 1) (s ∷ k ∷ ks) rest,
)

-- The function drops each `.` and each `..` together with the segment kept before it, and fails
-- exactly where a `..` has nothing before it.
pub process_relative_path-resolve :
    (segs : List Bytes) → process_relative_path segs ≡ resolve [] segs
unfolding process_relative_path
process_relative_path-resolve segs =
    relative_loop-resolve (length segs + 1) 0 [] segs refl (omega arith)
