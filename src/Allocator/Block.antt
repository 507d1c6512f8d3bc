-- ===== src/Allocator/Block.antt =====
-- The blocks that src/syskrnl/allocator/linked_list.rs hands out.
use tju_cinea_os.Prelude.{
  ℕ, ◌+◌, ◌-◌, ◌%◌, ◌^◌, ◌≤◌, ◌<◌, max, ◌≡◌, refl, sym, subst, inl, inr, Option, none, some, List,
  Run, ok, panic, arith, ◌>>=◌, ltb, Bool-cases, checked_cases, checked_lem,
}
use tju_cinea_os.Allocator.{
  Region, end_of, end_addr, Heap, Layout, round_up, find_region, carve, booked, alloc, size_align,
  node_size, usize_end,
}
use tju_cinea_os.Allocator.Cover.{
  cover, within, AllBelow, Added, added, rejected, add_free_region-Added,
}
use tju_cinea_os.Allocator.Alignment.{Fits, round_up_lem, up_eights, size_align-Fits}
use tju_cinea_os.Allocator.Fitting.{
  Room, NoneFits, AllWithin, AllWithin-AllBelow, Found, failed, none_fits, found, find_region-Found,
}

-- A block was taken from the free bytes: `gap` bytes before it, which the alignment skipped, are in
-- no free region either.
pub record Taken (free free' : List Region) (size align ptr : ℕ) : Type 0 where
  pub gap : ℕ
  pub small : gap < align
  pub fits : gap ≤ ptr
  pub aligned : ptr % align ≡ 0
  pub node_aligned : ptr % 8 ≡ 0
  pub below : ptr + size < usize_end
  pub split : (x : ℕ) → cover x free ≡ within x (ptr - gap) gap + within x ptr size + cover x free'

-- What carving a block out does.
data Carved (size align : ℕ) (free : List Region) : Run (List Region × Option ℕ) → Type 0 where
  overflowed : ¬ AllWithin align free → Carved size align free panic
  refused : NoneFits size align free → Carved size align free (ok (free, none))
  given :
      {free' : List Region} {ptr : ℕ}
      → Taken free free' size align ptr
      → (AllBelow free → AllBelow free')
      → Carved size align free (ok (free', some ptr))

within-split :
    (x a n ptr size : ℕ)
    → a ≤ ptr
    → ptr + size ≤ a + n
    → within x a n
      ≡ within x (ptr - (ptr - a)) (ptr - a)
        + within x ptr size
        + within x (ptr + size) (a + n - (ptr + size))
unfolding within
within-split x a n ptr size p q = ground arith

within_nothing : (x a n : ℕ) → n ≡ 0 → within x a n ≡ 0
unfolding within
within_nothing x a n h = ground arith

module _ (size align : ℕ) (free others : List Region) (region : Region) (ptr : ℕ)
    (v : Fits size align) (room : Room region size align ptr)
    (c : (x : ℕ) → cover x free ≡ within x region.start_addr region.size + cover x others)
    (b : AllBelow free → (end_of region < usize_end) × AllBelow others) where
  abbrev left : ℕ
  left = end_of region - (ptr + size)

  abbrev skipped : ℕ
  skipped = ptr - region.start_addr

  whole :
      (x : ℕ)
      → within x region.start_addr region.size
        ≡ within x (ptr - skipped) skipped + within x ptr size + within x (ptr + size) left
  whole x =
      let (above, near, exact) = round_up_lem region.start_addr align v.align_pos in
      within-split x region.start_addr region.size ptr size (omega (arith, room.at))
        (omega (arith, room.inside))

  taken :
      (free' : List Region)
      → ((x : ℕ) → cover x free' ≡ cover x others + within x (ptr + size) left)
      → Taken free free' size align ptr
  taken free' k =
      let (above, near, exact) = round_up_lem region.start_addr align v.align_pos in
      record {
        gap = skipped;
        small = omega (arith, room.at);
        fits = omega arith;
        aligned = rw room.at exact;
        node_aligned = rw room.at (up_eights region.start_addr align v.align_eights);
        below = room.below;
        split = λ x. omega (arith, c x, whole x, k x);
      }

  with_rest :
      (run : Run (List Region))
      → node_size ≤ left
      → ptr + size + left ≡ end_of region
      → Added others (ptr + size) left run
      → Carved size align free (run >>= λ free'. ok (free', some ptr))
  with_rest run l e (rejected f) =
      let up = up_eights region.start_addr align v.align_eights in
      overflowed (λ w.
        let (low, lows) = b (AllWithin-AllBelow align free w) in
        let p : ptr % 8 ≡ 0 = rw room.at up in
        absurd (omega (arith, f (lows, omega arith, omega (arith, p, v.size_eights), l))))
  with_rest run l e (added {free'} k d) =
      given (taken free' k) (λ w. let (low, lows) = b w in d (lows, omega arith))

carve-Carved :
    (size align : ℕ) (h : Heap) (o : Run (Option (Region × ℕ × List Region)))
    → Fits size align
    → Found size align h.free o
    → Carved size align h.free (o >>= λ o. carve size o h)
unfolding carve end_addr
carve-Carved size align h o v (failed w) = overflowed w
carve-Carved size align h o v (none_fits f) = refused f
carve-Carved size align h o v (found {region} {ptr} {others} room c b) =
    elim (checked_cases (end_of region)) [
      | inl (e, big) ↦
          rw (checked_lem (ptr + size) room.below, e)
            (overflowed (λ w. omega (arith, (b (AllWithin-AllBelow align h.free w)).0)))
      | inr (e, low) ↦
          let rest = end_of region - (ptr + size) in
          elim (Bool-cases (ltb 0 rest)) [
            | inl f ↦
                rw (checked_lem (ptr + size) room.below, e, f)
                  (with_rest size align h.free others region ptr v room c b _
                    (ground (arith, room.rest)) (ground (arith, room.inside))
                    (add_free_region-Added (ptr + size) rest others))
            | inr f ↦
                rw (checked_lem (ptr + size) room.below, e, f)
                  (given
                    (taken size align h.free others region ptr v room c b others
                      (λ x. omega (arith, within_nothing x (ptr + size) rest (ground arith))))
                    (λ w. (b w).1))
          ]
    ]

-- What `alloc` may do: overflow; refuse, because no region has room for the adjusted block; or give a
-- block.
pub data Outcome (layout : Layout) (h : Heap) : Run (Heap × Option ℕ) → Type 0 where
  lost :
      (AllWithin (max layout.align 8) h.free → ¬ (h.allocated + layout.size < usize_end))
      → Outcome layout h panic
  refusal :
      {size align : ℕ}
      → size_align layout ≡ ok (size, align)
      → NoneFits size align h.free
      → Outcome layout h (ok (h, none))
  handed :
      {size align : ℕ} {h' : Heap} {ptr : ℕ}
      → size_align layout ≡ ok (size, align)
      → layout.size ≤ size
      → align ≡ max layout.align 8
      → Fits size align
      → Taken h.free h'.free size align ptr
      → (AllBelow h.free → AllBelow h'.free)
      → h'.allocated ≡ h.allocated + layout.size
      → h'.size ≡ h.size
      → Outcome layout h (ok (h', some ptr))

booked-Outcome :
    (layout : Layout) (size align : ℕ) (h : Heap) (r : Run (List Region × Option ℕ))
    → size_align layout ≡ ok (size, align)
    → layout.size ≤ size
    → align ≡ max layout.align 8
    → Fits size align
    → Carved size align h.free r
    → Outcome layout h (r >>= λ c. booked layout.size c h)
unfolding booked
booked-Outcome layout size align h r e l a v (overflowed w) =
    lost (λ k low. w (subst (λ n. AllWithin n h.free) (sym a) k))
booked-Outcome layout size align h r e l a v (refused n) = refusal e n
booked-Outcome layout size align h r e l a v (given t b) =
    elim (checked_cases (h.allocated + layout.size)) [
      | inl (c, o) ↦ rw c (lost (λ k low. omega arith))
      | inr (c, o) ↦ rw c (handed e l a v t b refl refl)
    ]

pub alloc-Outcome :
    (layout : Layout) (k : ℕ) (h : Heap)
    → layout.align ≡ 2 ^ k
    → round_up layout.size (max layout.align 8) ≤ 9223372036854775807
    → Outcome layout h (alloc layout h)
unfolding alloc
alloc-Outcome layout k h p q =
    let (size, align, e, l, a, v) = size_align-Fits layout k p q in
    rw e (
      booked-Outcome layout size align h _ e l a v (
        carve-Carved size align h (find_region size align h.free) v
          (find_region-Found size align h.free)))

-- What `alloc` may do: refuse, because no region has room for the adjusted block, or give a block.
pub data Allocated (layout : Layout) (h : Heap) : Run (Heap × Option ℕ) → Type 0 where
  null :
      {size align : ℕ}
      → size_align layout ≡ ok (size, align)
      → NoneFits size align h.free
      → Allocated layout h (ok (h, none))
  block :
      {size align : ℕ} {h' : Heap} {ptr : ℕ}
      → size_align layout ≡ ok (size, align)
      → layout.size ≤ size
      → align ≡ max layout.align 8
      → Taken h.free h'.free size align ptr
      → AllBelow h'.free
      → h'.allocated ≡ h.allocated + layout.size
      → h'.size ≡ h.size
      → Allocated layout h (ok (h', some ptr))

Outcome-Allocated :
    (layout : Layout) (h : Heap) (r : Run (Heap × Option ℕ))
    → AllWithin (max layout.align 8) h.free
    → h.allocated + layout.size < usize_end
    → Outcome layout h r
    → Allocated layout h r
Outcome-Allocated layout h r w low (lost f) = absurd (f w low)
Outcome-Allocated layout h r w low (refusal e n) = null e n
Outcome-Allocated layout h r w low (handed e l a v t b c s) =
    block e l a t (b (AllWithin-AllBelow (max layout.align 8) h.free w)) c s

-- For every layout of a power-of-two alignment whose padded size is at most `isize::MAX`, if no sum of
-- a region's start with its size or with the alignment (at least 8) and no count of allocated bytes
-- reaches 2 ^ 64, `alloc` does not panic. It returns null only when no free region has room: for each
-- of them, the adjusted block at the first address of its alignment would end behind the region or
-- leave bytes too few for a list node; and then nothing changes. Otherwise the block it returns is
-- aligned, at least as large as asked, ends in the address space, and was taken from the free bytes:
-- these are now split into the block, fewer bytes than the alignment that were skipped before it, and
-- the regions left.
pub alloc-Allocated :
    (layout : Layout) (k : ℕ) (h : Heap)
    → layout.align ≡ 2 ^ k
    → round_up layout.size (max layout.align 8) ≤ 9223372036854775807
    → AllWithin (max layout.align 8) h.free
    → h.allocated + layout.size < usize_end
    → Allocated layout h (alloc layout h)
alloc-Allocated layout k h p q w low =
    Outcome-Allocated layout h (alloc layout h) w low (alloc-Outcome layout k h p q)
