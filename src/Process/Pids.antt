-- ===== src/Process/Pids.antt =====
-- The process ids in the ring of the scheduler of src/syskrnl/schedule/roundroll.rs, and those in the
-- pool of src/syskrnl/proc.rs.
use tju_cinea_os.Prelude.{
  ℕ, ◌+◌, ◌≤◌, ◌<◌, ◌≡◌, refl, subst, not, ◌&&◌, inl, inr, ◌||◌, none, some, List, [], ◌∷◌, arith,
  map, ◌==◌, Bool-cases, Option-cases,
}
use tju_cinea_os.Prelude.Map
use tju_cinea_os.Prelude.Map.{nat_key}
use tju_cinea_os.Scheduler.{Scheduler}
use tju_cinea_os.Scheduler.Ring.{mem, ◌∈◌, ◌∉◌, AllDistinct, erase}
use tju_cinea_os.Scheduler.State.{IsRing, rotation}
use tju_cinea_os.Scheduler.Table.{pid_of}
use tju_cinea_os.Process.{pool_insert}

-- The set of free ids: in ascending order, from `low` on.
abbrev pub Ascending : ℕ → List ℕ → Type 0
Ascending low [] = Unit {0}
Ascending low (x ∷ xs) = (low ≤ x) × Ascending (x + 1) xs

pub not_mem_below : (low q : ℕ) (xs : List ℕ) → Ascending low xs → q < low → q ∉ xs
not_mem_below low q [] h l = refl
not_mem_below low q (x ∷ xs) h l = ground (arith, not_mem_below (x + 1) q xs h.1 (omega arith))

pub Ascending-weaken :
    (low low' : ℕ) (xs : List ℕ) → low' ≤ low → Ascending low xs → Ascending low' xs
Ascending-weaken low low' [] l h = tt
Ascending-weaken low low' (x ∷ xs) l h = (omega arith, h.1)

pub pool_insert-Ascending :
    (low i : ℕ) (xs : List ℕ) → low ≤ i → Ascending low xs → Ascending low (pool_insert i xs)
unfolding pool_insert
pool_insert-Ascending low i [] l h = (l, tt)
pool_insert-Ascending low i (x ∷ xs) l h = ground (arith, pool_insert-Ascending (x + 1) i xs)

pub mem-pool_insert : (q i : ℕ) (xs : List ℕ) → mem q (pool_insert i xs) ≡ ((q == i) || mem q xs)
unfolding pool_insert
mem-pool_insert q i [] = ground arith
mem-pool_insert q i (x ∷ xs) = ground (arith, mem-pool_insert q i xs)

pub mem_of_erased :
    (q r : ℕ) (xs : List ℕ) → AllDistinct xs → mem q (erase r xs) ≡ (not (q == r) && mem q xs)
unfolding erase
mem_of_erased q r [] d = ground arith
mem_of_erased q r (x ∷ xs) d = ground (arith, mem_of_erased q r xs d.1)

mem-map : (f : ℕ → ℕ) (q : ℕ) (xs : List ℕ) → q ∈ map f xs → (i : ℕ) × (i ∈ xs) × (f i ≡ q)
mem-map f q [] h = ground arith
mem-map f q (x ∷ xs) h = elim (Bool-cases (q == f x)) [
  | inl e ↦ (x, ground arith, ground arith)
  | inr e ↦ let (i, a, b) = mem-map f q xs (ground arith) in (i, ground arith, b)
]

mem_map_of : (f : ℕ → ℕ) (i : ℕ) (xs : List ℕ) → i ∈ xs → f i ∈ map f xs
mem_map_of f i [] h = ground arith
mem_map_of f i (x ∷ xs) h = ground (arith, mem_map_of f i xs)

module _ (s : Scheduler) (xs fs : List ℕ) (r : IsRing s xs fs) where
  -- A process outside the ring has no node.
  pub not_in_ring : (q : ℕ) → q ∉ rotation s xs → Map.lookup q s.pids ≡ none
  unfolding rotation
  not_in_ring q h = elim (Option-cases (Map.lookup q s.pids)) [
    | inl e ↦ e
    | inr (i, e) ↦
        let (a, b) = r.found q i e in
        let c = mem_map_of (pid_of s.table) i (s.head ∷ xs) a in absurd (ground arith)
  ]

  pub in_ring : (q i : ℕ) → Map.lookup q s.pids ≡ some i → q ∈ rotation s xs
  unfolding rotation
  in_ring q i e =
      let (a, b) = r.found q i e in
      subst (λ z. z ∈ map (pid_of s.table) (s.head ∷ xs)) b
        (mem_map_of (pid_of s.table) i (s.head ∷ xs) a)

  -- No process stands twice in the ring.
  nodes-AllDistinct :
      (ys : List ℕ)
      → ((i : ℕ) → i ∈ ys → i ∈ s.head ∷ xs)
      → AllDistinct ys
      → AllDistinct (map (pid_of s.table) ys)
  nodes-AllDistinct [] h d = tt
  nodes-AllDistinct (y ∷ ys) h d = (
    elim (Bool-cases (mem (pid_of s.table y) (map (pid_of s.table) ys))) [
      | inr e ↦ e
      | inl e ↦
          let (i, a, b) = mem-map (pid_of s.table) (pid_of s.table y) ys e in
          ground (arith, r.known i (h i (ground arith)), r.known y (h y (ground arith)))
    ],
    nodes-AllDistinct ys (λ i k. h i (ground arith)) d.1,
  )

  pub rotation-AllDistinct : AllDistinct (rotation s xs)
  unfolding rotation
  rotation-AllDistinct = nodes-AllDistinct (s.head ∷ xs) (λ i h. h) (r.head_out, r.distinct)
