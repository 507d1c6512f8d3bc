-- ===== src/Allocator/Return.antt =====
-- Giving a block of src/syskrnl/allocator/linked_list.rs back.
use tju_cinea_os.Prelude.{
  ℕ, ◌+◌, ◌-◌, ◌^◌, ◌≤◌, ◌<◌, max, ◌≡◌, refl, subst, ◌⊎◌, true, Option, some, Run, ok, arith, leb,
}
use tju_cinea_os.Allocator.{Heap, Layout, round_up, alloc, dealloc, size_align}
use tju_cinea_os.Allocator.Cover.{cover, within, AllBelow, add_free_region-cover}
use tju_cinea_os.Allocator.Alignment.{Fits}
use tju_cinea_os.Allocator.Block.{Taken, Outcome, lost, refusal, handed, alloc-Outcome}

-- A block that `alloc` returned.
record Live (layout : Layout) (h h' : Heap) (ptr : ℕ) : Type 0 where
  size : ℕ
  align : ℕ
  adjusted : size_align layout ≡ ok (size, align)
  enough : layout.size ≤ size
  exact : align ≡ max layout.align 8
  fits : Fits size align
  taken : Taken h.free h'.free size align ptr
  low : AllBelow h.free → AllBelow h'.free
  counted : h'.allocated ≡ h.allocated + layout.size

Outcome-Live :
    (layout : Layout) (h h' : Heap) (ptr : ℕ) (r : Run (Heap × Option ℕ))
    → Outcome layout h r
    → r ≡ ok (h', some ptr)
    → Live layout h h' ptr
Outcome-Live layout h h' ptr r (lost f) q = ground arith
Outcome-Live layout h h' ptr r (refusal e n) q = ground arith
Outcome-Live layout h h' ptr r (handed {size} {align} {h' = g} {ptr = p} e l a v t b c s) q =
    let i : g ≡ h' = ground arith in
    let j : p ≡ ptr = ground arith in
    subst (λ g. Live layout h g ptr) i
      (subst (λ p. Live layout h g p) j
        (record {
          size = size;
          align = align;
          adjusted = e;
          enough = l;
          exact = a;
          fits = v;
          taken = t;
          low = b;
          counted = c;
        }))

within-le :
    (x a m n : ℕ)
    → m ≤ n
    → (within x a m ≤ within x a n) × ((within x a m ≡ 0) ⊎ (within x a n ≡ 1))
unfolding within
within-le x a m n h = (ground arith, ground arith)

-- While no byte is free twice, no byte of a block that `alloc` returned is free afterwards, and no
-- byte is free twice.
pub alloc_exclusive :
    (layout : Layout) (k : ℕ) (h h' : Heap) (ptr : ℕ)
    → layout.align ≡ 2 ^ k
    → round_up layout.size (max layout.align 8) ≤ 9223372036854775807
    → alloc layout h ≡ ok (h', some ptr)
    → ((x : ℕ) → cover x h.free ≤ 1)
    → (x : ℕ) → (cover x h'.free ≤ 1) × ((within x ptr layout.size ≡ 0) ⊎ (cover x h'.free ≡ 0))
alloc_exclusive layout k h h' ptr p q e once x =
    let b = Outcome-Live layout h h' ptr (alloc layout h) (alloc-Outcome layout k h p q) e in
    let s = b.taken.split x in
    let m = within-le x ptr layout.size b.size b.enough in
    (omega (arith, once x), ground (arith, once x, m.1))

-- While the free regions end in the address space, giving a block back with the layout it was asked
-- with never panics, restores the count of allocated bytes, and makes exactly the block's bytes free
-- again: of the bytes that were free before, only those stay lost that lie before the block and were
-- skipped to align it, which are fewer than its alignment (at least 8).
pub dealloc-alloc :
    (layout : Layout) (k : ℕ) (h h' : Heap) (ptr : ℕ)
    → layout.align ≡ 2 ^ k
    → round_up layout.size (max layout.align 8) ≤ 9223372036854775807
    → AllBelow h.free
    → alloc layout h ≡ ok (h', some ptr)
    → (h'' : Heap) × (gap : ℕ) × (dealloc ptr layout h' ≡ ok h'')
      × (h''.allocated ≡ h.allocated)
      × (gap < max layout.align 8)
      × (gap ≤ ptr)
      × ((x : ℕ) → cover x h.free ≡ cover x h''.free + within x (ptr - gap) gap)
unfolding dealloc
dealloc-alloc layout k h h' ptr p q low e =
    let b = Outcome-Live layout h h' ptr (alloc layout h) (alloc-Outcome layout k h p q) e in
    let (free, d, c, _) =
      add_free_region-cover ptr b.size h'.free (b.low low) b.taken.below b.taken.node_aligned
        b.fits.node in
    let enough : leb layout.size h'.allocated ≡ true = ground (arith, b.counted) in
    rw (b.adjusted, d, enough)
      (
        record h' { free = free; allocated = h'.allocated - layout.size },
        b.taken.gap,
        refl,
        omega (arith, b.counted),
        omega (arith, b.taken.small, b.exact),
        b.taken.fits,
        λ x. omega (arith, b.taken.split x, c x),
      )
