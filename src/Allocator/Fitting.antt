-- ===== src/Allocator/Fitting.antt =====
-- Which free region `find_region` of src/syskrnl/allocator/linked_list.rs takes.
use tju_cinea_os.Prelude.{
  ℕ, ◌+◌, ◌-◌, ◌≤◌, ◌<◌, ◌≡◌, refl, ◌⊎◌, inl, inr, ◌&&◌, Option, none, some, List, [], ◌∷◌, Run, ok,
  panic, arith, ◌>>=◌, ltb, leb, Bool-cases, checked_cases,
}
use tju_cinea_os.Allocator.{
  Region, end_of, end_addr, align_up, round_up, block_in, alloc_from_region, find_region, choose,
  put_back, node_size, usize_end,
}
use tju_cinea_os.Allocator.Cover.{cover, within, AllBelow}

-- A block in a region, at the first address of its alignment: inside the region, with nothing behind
-- it or room for a list node.
pub record Room (region : Region) (size align ptr : ℕ) : Type 0 where
  pub at : ptr ≡ round_up region.start_addr align
  pub inside : ptr + size ≤ end_of region
  pub below : ptr + size < usize_end
  pub rest : (end_of region ≡ ptr + size) ⊎ (ptr + size + node_size ≤ end_of region)

-- No region has room.
unfoldable pub NoneFits : ℕ → ℕ → List Region → Type 0
NoneFits size align [] = Unit {0}
NoneFits size align (region ∷ rest) =
    ((ptr : ℕ) → ¬ Room region size align ptr) × NoneFits size align rest

-- Each region ends in the address space, and its first address of the alignment can be computed.
unfoldable pub AllWithin : ℕ → List Region → Type 0
AllWithin align [] = Unit {0}
AllWithin align (region ∷ rest) =
    (end_of region < usize_end) × (region.start_addr + align < usize_end) × AllWithin align rest

pub AllWithin-AllBelow : (align : ℕ) (free : List Region) → AllWithin align free → AllBelow free
unfolding AllWithin AllBelow
AllWithin-AllBelow align [] w = tt
AllWithin-AllBelow align (g ∷ gs) w = (w.0, AllWithin-AllBelow align gs w.2)

-- What is found in one region.
data Tried (region : Region) (size align : ℕ) : Run (Option ℕ) → Type 0 where
  failed :
      (end_of region < usize_end → ¬ (region.start_addr + align < usize_end))
      → Tried region size align panic
  full : ((ptr : ℕ) → ¬ Room region size align ptr) → Tried region size align (ok none)
  fit : {ptr : ℕ} → Room region size align ptr → Tried region size align (ok (some ptr))

block_in-Tried :
    (region : Region) (size align : ℕ)
    → round_up region.start_addr align + size < usize_end
    → Tried region size align
        (ok (block_in (end_of region) (round_up region.start_addr align) size))
unfolding block_in
block_in-Tried region size align low =
    let ptr : ℕ = round_up region.start_addr align in
    let left : ℕ = end_of region - (ptr + size) in
    elim (Bool-cases (ltb (end_of region) (ptr + size))) [
      | inl e ↦ rw e (full (λ p r. ground (arith, r.at, r.inside)))
      | inr e ↦ elim (Bool-cases (ltb 0 left && ltb left node_size)) [
        | inl f ↦ rw (e, f) (full (λ p r. ground (arith, r.at, r.rest)))
        | inr f ↦
            rw (e, f)
              (fit (record { at = refl; inside = ground arith; below = low; rest = ground arith }))
      ]
    ]

alloc_from_region-Tried :
    (region : Region) (size align : ℕ)
    → Tried region size align (alloc_from_region region size align)
unfolding alloc_from_region align_up end_addr
alloc_from_region-Tried region size align = elim (checked_cases (region.start_addr + align)) [
  | inl (e, o) ↦ rw e (failed (λ h k. omega arith))
  | inr (e, o) ↦
      let ptr : ℕ = round_up region.start_addr align in
      elim (Bool-cases (leb usize_end (ptr + size))) [
        | inl f ↦ rw (e, f) (full (λ p r. ground (arith, r.at, r.below)))
        | inr f ↦ elim (checked_cases (end_of region)) [
          | inl (g, o) ↦ rw (e, f, g) (failed (λ h k. omega arith))
          | inr (g, o) ↦ rw (e, f, g) (block_in-Tried region size align (ground arith))
        ]
      ]
]

-- What `find_region` returns: no region fits, or one with room is taken out.
pub data Found (size align : ℕ) (free : List Region)
    : Run (Option (Region × ℕ × List Region)) → Type 0 where
  failed : ¬ AllWithin align free → Found size align free panic
  none_fits : NoneFits size align free → Found size align free (ok none)
  found :
      {region : Region} {ptr : ℕ} {others : List Region}
      → Room region size align ptr
      → ((x : ℕ) → cover x free ≡ within x region.start_addr region.size + cover x others)
      → (AllBelow free → (end_of region < usize_end) × AllBelow others)
      → Found size align free (ok (some (region, ptr, others)))

further-Found :
    (size align : ℕ) (region : Region) (rest : List Region)
    (run : Run (Option (Region × ℕ × List Region)))
    → ((ptr : ℕ) → ¬ Room region size align ptr)
    → Found size align rest run
    → Found size align (region ∷ rest) (run >>= λ found. ok (put_back region found))
unfolding put_back NoneFits cover AllBelow AllWithin
further-Found size align region rest run n (failed w) = failed (λ h. w h.2)
further-Found size align region rest run n (none_fits f) = none_fits (n, f)
further-Found size align region rest run n (found {region = g} {ptr} {others} room c b) =
    found room (λ x. omega (arith, c x)) (λ h. let (low, lows) = b h.1 in (low, (h.0, lows)))

choose-Found :
    (size align : ℕ) (region : Region) (rest : List Region) (o : Run (Option ℕ))
    (further : Run (Option (Region × ℕ × List Region)))
    → Tried region size align o
    → Found size align rest further
    → Found size align (region ∷ rest) (o >>= λ o. choose region rest o further)
unfolding choose cover AllBelow AllWithin
choose-Found size align region rest o further (failed w) f = failed (λ h. w h.0 h.1)
choose-Found size align region rest o further (full n) f =
    further-Found size align region rest further n f
choose-Found size align region rest o further (fit room) f = found room (λ x. refl) (λ h. h)

pub find_region-Found :
    (size align : ℕ) (free : List Region) → Found size align free (find_region size align free)
unfolding NoneFits find_region
find_region-Found size align [] = none_fits tt
find_region-Found size align (region ∷ rest) =
    choose-Found size align region rest (alloc_from_region region size align)
      (find_region size align rest) (alloc_from_region-Tried region size align)
      (find_region-Found size align rest)
