-- ===== src/Allocator/Cover.antt =====
-- Which bytes the free list of src/syskrnl/allocator/linked_list.rs holds, and that no sum of addresses
-- and sizes overflows.
use tju_cinea_os.Prelude.{
  ℕ, ◌+◌, ◌-◌, ◌*◌, ◌/◌, ◌%◌, ◌≤◌, ◌<◌, ◌≡◌, refl, ◌⊎◌, Bool, true, false, ◌&&◌, Bool-cases, inl,
  inr, List, [], ◌∷◌, Run, ok, panic, ◌>>=◌, checked_cases, arith, ◌==◌, ==_iff, ltb, leb,
  if◌then◌else◌,
}
use tju_cinea_os.Allocator.{
  Region, end_addr, end_of, ends_at, starts_at, absorb, insert_region, add_free_region, align_up,
  round_up, node_align, node_size, usize_end, stop_or_keep,
}

-- Whether the byte `x` lies in the `n` bytes from `a` on, as 1 or 0.
unfoldable pub within : ℕ → ℕ → ℕ → ℕ
within x a n = if leb a x && ltb x (a + n) then 1 else 0

-- How many regions hold the byte `x`.
unfoldable pub cover : ℕ → List Region → ℕ
cover x [] = 0
cover x (r ∷ rs) = within x r.start_addr r.size + cover x rs

pub within-join : (x a m n : ℕ) → within x a (m + n) ≡ within x a m + within x (a + m) n
unfolding within
within-join x a m n = ground arith

-- Each region ends in the address space.
unfoldable pub AllBelow : List Region → Type 0
AllBelow [] = Unit {0}
AllBelow (r ∷ rs) = (end_of r < usize_end) × AllBelow rs

-- What the first test of the loop gives, and the second.
ends_at_cases :
    (l : Bool) (g : Region) (a : ℕ)
    → ((ends_at l g a ≡ panic) × (usize_end ≤ end_of g))
      ⊎ (((ends_at l g a ≡ ok true) × (end_of g ≡ a)) ⊎ (ends_at l g a ≡ ok false))
unfolding ends_at end_addr
ends_at_cases true g a = inr (inr refl)
ends_at_cases false g a = elim (checked_cases (end_of g)) [
  | inl (e, o) ↦ inl (rw e refl, o)
  | inr (e, o) ↦ elim (Bool-cases (end_of g == a)) [
    | inl s ↦ inr (inl (rw (e, s) refl, (==_iff (end_of g) a).0 s))
    | inr s ↦ inr (inr (rw (e, s) refl))
  ]
]

starts_at_cases :
    (r : Bool) (g : Region) (a n : ℕ)
    → ((starts_at r g a n ≡ panic) × (usize_end ≤ a + n))
      ⊎ (((starts_at r g a n ≡ ok true) × (g.start_addr ≡ a + n)) ⊎ (starts_at r g a n ≡ ok false))
unfolding starts_at
starts_at_cases true g a n = inr (inr refl)
starts_at_cases false g a n = elim (checked_cases (a + n)) [
  | inl (e, o) ↦ inl (rw e refl, o)
  | inr (e, o) ↦ elim (Bool-cases (g.start_addr == a + n)) [
    | inl s ↦ inr (inl (rw (e, s) refl, (==_iff g.start_addr (a + n)).0 s))
    | inr s ↦ inr (inr (rw (e, s) refl))
  ]
]

-- What the loop does: it overflows, which it cannot do if all addresses are in the address space; or
-- it keeps the bytes, and the addresses in the address space.
data Merged (free : List Region) (a n : ℕ) : Run (List Region × ℕ × ℕ) → Type 0 where
  overflow : ((AllBelow free × (a + n < usize_end)) → 1 ≤ 0) → Merged free a n panic
  merged :
      {kept : List Region} {a' n' : ℕ}
      → ((x : ℕ) → cover x kept + within x a' n' ≡ cover x free + within x a n)
      → ((AllBelow free × (a + n < usize_end)) → AllBelow kept × (a' + n' < usize_end))
      → Merged free a n (ok (kept, a', n'))

-- The rest of the loop after a neighbour was taken out.
after_neighbour :
    (g : Region) (gs : List Region) (a n a' n' : ℕ) (run : Run (List Region × ℕ × ℕ))
    → ((x : ℕ) → cover x gs + within x a' n' ≡ cover x (g ∷ gs) + within x a n)
    → ((AllBelow (g ∷ gs) × (a + n < usize_end)) → AllBelow gs × (a' + n' < usize_end))
    → Merged gs a' n' run
    → Merged (g ∷ gs) a n run
after_neighbour g gs a n a' n' run c b (overflow o) = overflow (λ h. o (b h))
after_neighbour g gs a n a' n' run c b (merged k d) =
    merged (λ x. omega (arith, c x, k x)) (λ h. d (b h))

after_keep :
    (both : Bool) (g : Region) (gs : List Region) (a n : ℕ) (run : Run (List Region × ℕ × ℕ))
    → Merged gs a n run
    → Merged (g ∷ gs) a n (stop_or_keep both g gs a n run)
unfolding cover AllBelow stop_or_keep
after_keep true g gs a n run m = merged (λ x. refl) (λ h. h)
after_keep false g gs a n run (overflow o) = overflow (λ h. o (h.0.1, h.1))
after_keep false g gs a n run (merged k d) =
    merged (λ x. omega (arith, k x)) (λ h. let e = d (h.0.1, h.1) in ((h.0.0, e.0), e.1))

absorb-Merged : (free : List Region) (l r : Bool) (a n : ℕ) → Merged free a n (absorb free l r a n)
unfolding cover AllBelow absorb
absorb-Merged [] l r a n = merged (λ x. refl) (λ h. h)
absorb-Merged (g ∷ gs) l r a n = elim (ends_at_cases l g a) [
  | inl (e, o) ↦ rw e (overflow (λ h. omega (arith, h.0.0)))
  | inr (inl (e, at)) ↦ elim (checked_cases (n + g.size)) [
    | inl (c, o) ↦ rw (e, c) (overflow (λ h. omega (arith, h.1)))
    | inr (c, s) ↦
        rw (e, c)
          (after_neighbour g gs a n g.start_addr (n + g.size) _
            (λ x. ground (arith, within-join x g.start_addr g.size n))
            (λ h. (h.0.1, omega (arith, h.1))) (absorb-Merged gs true r g.start_addr (n + g.size)))
  ]
  | inr (inr e) ↦ elim (starts_at_cases r g a n) [
    | inl (f, o) ↦ rw (e, f) (overflow (λ h. omega (arith, h.1)))
    | inr (inl (f, at)) ↦ elim (checked_cases (n + g.size)) [
      | inl (c, o) ↦ rw (e, f, c) (overflow (λ h. omega (arith, h.0.0)))
      | inr (c, s) ↦
          rw (e, f, c)
            (after_neighbour g gs a n a (n + g.size) _
              (λ x. ground (arith, within-join x a n g.size)) (λ h. (h.0.1, omega (arith, h.0.0)))
              (absorb-Merged gs l true a (n + g.size)))
    ]
    | inr (inr f) ↦ rw (e, f) (after_keep (l && r) g gs a n _ (absorb-Merged gs l r a n))
  ]
]

insert_region-cover :
    (x : ℕ) (node : Region) (free : List Region)
    → cover x (insert_region node free) ≡ within x node.start_addr node.size + cover x free
unfolding insert_region cover
insert_region-cover x node [] = refl
insert_region-cover x node (g ∷ gs) = ground (arith, insert_region-cover x node gs)

insert_region-AllBelow :
    (node : Region) (free : List Region)
    → end_of node < usize_end
    → AllBelow free
    → AllBelow (insert_region node free)
unfolding insert_region AllBelow
insert_region-AllBelow node [] l b = (l, tt)
insert_region-AllBelow node (g ∷ gs) l b = elim (Bool-cases (leb g.size node.size)) [
  | inl e ↦ rw e (l, b)
  | inr e ↦ rw e (b.0, insert_region-AllBelow node gs l b.1)
]

-- What adding a region does, in the same way.
pub data Added (free : List Region) (addr size : ℕ) : Run (List Region) → Type 0 where
  rejected :
      ((AllBelow free × (addr + size < usize_end) × (addr % 8 ≡ 0) × (node_size ≤ size)) → 1 ≤ 0)
      → Added free addr size panic
  added :
      {free' : List Region}
      → ((x : ℕ) → cover x free' ≡ cover x free + within x addr size)
      → ((AllBelow free × (addr + size < usize_end)) → AllBelow free')
      → Added free addr size (ok free')

after_absorb :
    (free : List Region) (addr size : ℕ) (run : Run (List Region × ℕ × ℕ))
    → Merged free addr size run
    → Added free addr size
        (run >>= λ m. ok (insert_region (record { start_addr = m.1; size = m.2 }) m.0))
after_absorb free addr size run (overflow o) = rejected (λ h. o (h.0, h.1))
after_absorb free addr size run (merged {kept} {a'} {n'} k b) =
    let node : Region = record { start_addr = a'; size = n' } in
    added (λ x. omega (arith, k x, insert_region-cover x node kept))
      (λ h. let (low, ends) = b h in insert_region-AllBelow node kept ends low)

pub add_free_region-Added :
    (addr size : ℕ) (free : List Region) → Added free addr size (add_free_region addr size free)
unfolding add_free_region align_up round_up
add_free_region-Added addr size free = elim (checked_cases (addr + node_align)) [
  | inl (e, o) ↦ rw e (rejected (λ h. omega (arith, h.1, h.3)))
  | inr (e, o) ↦ elim (Bool-cases ((addr + 8 - 1) / 8 * 8 == addr)) [
    | inl a ↦ elim (Bool-cases (leb node_size size)) [
      | inl s ↦
          rw (e, a, s) (after_absorb free addr size _ (absorb-Merged free false false addr size))
      | inr s ↦ rw (e, a, s) (rejected (λ h. ground (arith, h.3)))
    ]
    | inr a ↦ rw (e, a) (rejected (λ h. ground (arith, h.2)))
  ]
]

Added-ok :
    (addr size : ℕ) (free : List Region) (run : Run (List Region))
    → AllBelow free
    → addr + size < usize_end
    → addr % 8 ≡ 0
    → node_size ≤ size
    → Added free addr size run
    → (free' : List Region) × (run ≡ ok free')
      × ((x : ℕ) → cover x free' ≡ cover x free + within x addr size)
      × AllBelow free'
Added-ok addr size free run b e a s (rejected f) = absurd (omega (arith, f (b, e, a, s)))
Added-ok addr size free run b e a s (added {free'} c l) = (free', refl, c, l (b, e))

-- Adding a free region that ends in the address space, starts at a multiple of 8 and has room for a
-- list node never fails, if the regions of the list end in the address space. It adds exactly its
-- bytes to the free bytes, whether it is merged with its neighbours or not, and the regions still end
-- in the address space.
pub add_free_region-cover :
    (addr size : ℕ) (free : List Region)
    → AllBelow free
    → addr + size < usize_end
    → addr % 8 ≡ 0
    → node_size ≤ size
    → (free' : List Region) × (add_free_region addr size free ≡ ok free')
      × ((x : ℕ) → cover x free' ≡ cover x free + within x addr size)
      × AllBelow free'
add_free_region-cover addr size free b e a s =
    Added-ok addr size free (add_free_region addr size free) b e a s
      (add_free_region-Added addr size free)
