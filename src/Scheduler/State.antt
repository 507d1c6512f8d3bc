-- ===== src/Scheduler/State.antt =====
-- The well-formed states of the scheduler of src/syskrnl/schedule/roundroll.rs.
use tju_cinea_os.Prelude.{
  ℕ, ◌+◌, ◌<◌, ◌≤◌, ◌≡◌, refl, true, false, some, List, [], ◌∷◌, arith, length, map,
}
use tju_cinea_os.Prelude.Map
use tju_cinea_os.Prelude.Map.{nat_key}
use tju_cinea_os.Scheduler.{Scheduler, new}
use tju_cinea_os.Scheduler.Table.{Table, next_of, prev_of, pid_of, skip_of, empty_of, node_at}
use tju_cinea_os.Scheduler.Ring.{◌∈◌, ◌∉◌, AllDistinct, Links}

-- The free list from `e`: nodes marked empty, linked through `next`, up to the head of the ring.
abbrev pub Free : Table → ℕ → ℕ → List ℕ → Type 0
Free t head e [] = e ≡ head
Free t head e (f ∷ fs) = (e ≡ f) × (empty_of t f ≡ true) × Free t head (next_of t f) fs

-- The ring is the head followed by `xs`; the free nodes are `fs`; the map from process ids to nodes
-- is exactly the ring's.
pub record IsRing (s : Scheduler) (xs fs : List ℕ) : Type 0 where
  pub links : Links (next_of s.table) (prev_of s.table) s.head xs s.head
  pub distinct : AllDistinct xs
  pub head_out : s.head ∉ xs
  pub inside : (i : ℕ) → i ∈ s.head ∷ xs → i < length s.table
  pub cursor_in : s.cursor ∈ s.head ∷ xs
  pub head_used : empty_of s.table s.head ≡ false
  pub free : Free s.table s.head s.empty fs
  pub free_inside : (i : ℕ) → i ∈ fs → i < length s.table
  pub free_distinct : AllDistinct fs
  pub free_ready : (i : ℕ) → i ∈ fs → skip_of s.table i ≡ false
  pub apart : (i : ℕ) → i ∈ fs → i ∉ s.head ∷ xs
  pub fits : length xs + 1 + length fs ≤ length s.table
  pub known : (i : ℕ) → i ∈ s.head ∷ xs → Map.lookup (pid_of s.table i) s.pids ≡ some i
  pub found : (p i : ℕ) → Map.lookup p s.pids ≡ some i → (i ∈ s.head ∷ xs) × (pid_of s.table i ≡ p)

-- The process ids in the order in which the scheduler goes round, from the head.
unfoldable pub rotation : Scheduler → List ℕ → List ℕ
rotation s xs = map (pid_of s.table) (s.head ∷ xs)

pub Free-frame :
    (t t' : Table) (head e : ℕ) (fs : List ℕ)
    → ((i : ℕ) → i ∈ fs → next_of t' i ≡ next_of t i)
    → ((i : ℕ) → i ∈ fs → empty_of t' i ≡ empty_of t i)
    → Free t head e fs
    → Free t' head e fs
Free-frame t t' head e [] fn fe h = h
Free-frame t t' head e (f ∷ fs) fn fe (p, q, r) = (
  p,
  ground (arith, fe f),
  Free-frame t t' head (next_of t' f) fs (λ i h. fn i (ground arith)) (λ i h. fe i (ground arith))
      (ground (arith, fn f)),
)

node_zero : (i : ℕ) → i ≡ 0 → Map.lookup (pid_of new.table i) new.pids ≡ some i
unfolding new node_at Map.insert Map.lookup
node_zero i h = rw h

pub new-IsRing : IsRing new [] []
unfolding new node_at Map.insert Map.lookup
new-IsRing = record {
  links = (refl, refl);
  distinct = tt;
  head_out = refl;
  inside = λ i h. ground arith;
  cursor_in = refl;
  head_used = refl;
  free = refl;
  free_inside = λ i h. ground arith;
  free_distinct = tt;
  free_ready = λ i h. ground arith;
  apart = λ i h. ground arith;
  fits = omega arith;
  known = λ i h. node_zero i (ground arith);
  found = λ p i h. ground arith;
}
