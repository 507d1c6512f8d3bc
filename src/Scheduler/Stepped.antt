-- ===== src/Scheduler/Stepped.antt =====
-- Going round the ring of src/syskrnl/schedule/roundroll.rs: `step` ends, and on a process that is
-- not to be skipped, whenever the ring has one.
use mathlib.Core.List.{append_assoc}
use tju_cinea_os.Prelude.{
  ℕ, zero, suc, ◌+◌, ◌<◌, ◌≡◌, ap, inl, inr, false, Option, none, some, List, [], ◌∷◌, ◌++◌, arith,
  length, length-append, ok, Bool-cases, if◌then◌else◌,
}
use tju_cinea_os.Scheduler.{Scheduler, step, skip_loop, timeup, now}
use tju_cinea_os.Scheduler.Table.{Table, skip_of, next_of, prev_of, pid_of, index-node_at}
use tju_cinea_os.Scheduler.Ring.{◌∈◌, mem, mem-append, Links}
use tju_cinea_os.Scheduler.State.{IsRing}

-- The nodes that `next` leads to from `a`, one after the other.
abbrev pub Walk : (ℕ → ℕ) → ℕ → List ℕ → Type 0
Walk next a [] = Unit {0}
Walk next a (x ∷ xs) = (next a ≡ x) × Walk next x xs

-- The first node that is not to be skipped.
unfoldable pub first_ready : Table → List ℕ → Option ℕ
first_ready t [] = none
first_ready t (x ∷ xs) = if skip_of t x then first_ready t xs else some x

Links→Walk :
    (next prev : ℕ → ℕ) (a : ℕ) (xs : List ℕ) (b : ℕ)
    → Links next prev a xs b
    → Walk next a (xs ++ b ∷ [])
Links→Walk next prev a [] b (p, q) = (p, tt)
Links→Walk next prev a (x ∷ xs) b (p, q, l) = (p, Links→Walk next prev x xs b l)

-- A walk through `c` is a walk to `c` and one from it.
Walk-split :
    (next : ℕ → ℕ) (a : ℕ) (xs : List ℕ) (c : ℕ) (ys : List ℕ)
    → Walk next a (xs ++ c ∷ ys)
    → Walk next a (xs ++ c ∷ []) × Walk next c ys
Walk-split next a [] c ys (p, w) = ((p, tt), w)
Walk-split next a (x ∷ xs) c ys (p, w) = let (u, v) = Walk-split next x xs c ys w in ((p, u), v)

Walk-join :
    (next : ℕ → ℕ) (a : ℕ) (xs : List ℕ) (c : ℕ) (ys : List ℕ)
    → Walk next a (xs ++ c ∷ [])
    → Walk next c ys
    → Walk next a (xs ++ c ∷ ys)
Walk-join next a [] c ys (p, u) w = (p, w)
Walk-join next a (x ∷ xs) c ys (p, u) w = (p, Walk-join next x xs c ys u w)

-- From any node of the ring `next` goes once round and comes back.
Walk-round :
    (next prev : ℕ → ℕ) (h : ℕ) (xs ys : List ℕ) (c : ℕ) (zs : List ℕ)
    → h ∷ xs ≡ ys ++ c ∷ zs
    → Links next prev h xs h
    → Walk next c (zs ++ (ys ++ c ∷ []))
Walk-round next prev h xs [] c zs e l =
    let eh : h ≡ c = cc in let ez : xs ≡ zs = cc in rw (← ez, ← eh) (Links→Walk next prev h xs h l)
Walk-round next prev h xs (y ∷ ys) c zs e l =
    let eh : h ≡ y = cc in
    let ez : xs ≡ ys ++ c ∷ zs = cc in
    let w : Walk next h (xs ++ h ∷ []) = Links→Walk next prev h xs h l in
    let w' : Walk next h (ys ++ c ∷ (zs ++ h ∷ [])) = rw (ez, append_assoc) at w in
    let (u, v) = Walk-split next h ys c (zs ++ h ∷ []) w' in
    rw (← eh) (Walk-join next c zs h (ys ++ c ∷ []) v u)

pub skip_loop-first_ready :
    (fuel : ℕ) (t : Table) (a : ℕ) (xs : List ℕ) (b : ℕ)
    → length xs < fuel + 1
    → Walk (next_of t) a xs
    → ((i : ℕ) → i ∈ xs → i < length t)
    → first_ready t xs ≡ some b
    → skip_loop fuel t (next_of t a) ≡ ok b
unfolding skip_loop first_ready
skip_loop-first_ready fuel t a [] b h w q e = ground arith
skip_loop-first_ready zero t a (x ∷ xs) b h w q e = absurd (omega arith)
skip_loop-first_ready (suc fuel) t a (x ∷ xs) b h (p, w) q e =
    rw (p, index-node_at t x (q x (ground arith)))
      (elim (Bool-cases (skip_of t x)) [
        | inl skipped ↦ rw skipped (
            skip_loop-first_ready fuel t x xs b (omega arith) w (λ i k. q i (ground arith))
              (ground arith))
        | inr ready ↦ rw ready (ground arith)
      ])

length-round :
    (h : ℕ) (xs ys : List ℕ) (c : ℕ) (zs : List ℕ)
    → h ∷ xs ≡ ys ++ c ∷ zs
    → length (zs ++ (ys ++ c ∷ [])) ≡ length xs + 1
length-round h xs ys c zs e = omega (
  arith,
  length-append zs (ys ++ c ∷ []),
  length-append ys (c ∷ []),
  length-append ys (c ∷ zs),
  ap length e,
)

mem-round :
    (h : ℕ) (xs ys : List ℕ) (c : ℕ) (zs : List ℕ) (i : ℕ)
    → h ∷ xs ≡ ys ++ c ∷ zs
    → i ∈ zs ++ (ys ++ c ∷ [])
    → i ∈ h ∷ xs
mem-round h xs ys c zs i e k = ground (
  arith,
  mem-append i zs (ys ++ c ∷ []),
  mem-append i ys (c ∷ []),
  mem-append i ys (c ∷ zs),
  ap (mem i) e,
)

pub first_ready_mem :
    (t : Table) (xs : List ℕ) (b : ℕ) → first_ready t xs ≡ some b → (b ∈ xs) × (skip_of t b ≡ false)
unfolding first_ready
first_ready_mem t [] b e = ground arith
first_ready_mem t (x ∷ xs) b e = elim (Bool-cases (skip_of t x)) [
  | inl skipped ↦ ground (arith, first_ready_mem t xs b)
  | inr ready ↦ ground arith
]

module _ (s : Scheduler) (xs fs ys zs : List ℕ) (b : ℕ) (r : IsRing s xs fs)
    (place : s.head ∷ xs ≡ ys ++ s.cursor ∷ zs)
    (ready : first_ready s.table (zs ++ (ys ++ s.cursor ∷ [])) ≡ some b) where
  -- `step` goes on to the first process, in ring order after the current one, that is not waiting;
  -- the current one comes last. It does end.
  pub step-first_ready : step s ≡ ok (record s { cursor = b })
  unfolding step
  step-first_ready = rw (
    index-node_at s.table s.cursor (r.inside s.cursor r.cursor_in),
    skip_loop-first_ready (suc (length s.table)) s.table s.cursor (zs ++ (ys ++ s.cursor ∷ [])) b
        (omega (arith, length-round s.head xs ys s.cursor zs place, r.fits))
        (Walk-round (next_of s.table) (prev_of s.table) s.head xs ys s.cursor zs place r.links)
        (λ i k. r.inside i (mem-round s.head xs ys s.cursor zs i place k)) ready,
  )

  pub ready_mem : (b ∈ s.head ∷ xs) × (skip_of s.table b ≡ false)
  ready_mem =
      let (m, k) = first_ready_mem s.table (zs ++ (ys ++ s.cursor ∷ [])) b ready in
      (mem-round s.head xs ys s.cursor zs b place m, k)

  pub step-IsRing : IsRing (record s { cursor = b }) xs fs
  step-IsRing = record {
    links = r.links;
    distinct = r.distinct;
    head_out = r.head_out;
    inside = r.inside;
    cursor_in = ready_mem.0;
    head_used = r.head_used;
    free = r.free;
    free_inside = r.free_inside;
    free_distinct = r.free_distinct;
    free_ready = r.free_ready;
    apart = r.apart;
    fits = r.fits;
    known = r.known;
    found = r.found;
  }

  -- When its time is up, the current process hands over to the first process after it, in the order
  -- of the ring, that is not waiting (itself if there is no other); the state stays well formed.
  pub timeup-first_ready :
      (timeup s ≡ ok (pid_of s.table b, record s { cursor = b }))
      × IsRing (record s { cursor = b }) xs fs
  unfolding timeup now
  timeup-first_ready =
      (rw (step-first_ready, index-node_at s.table b (r.inside b ready_mem.0)), step-IsRing)
