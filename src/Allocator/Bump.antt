-- ===== src/Allocator/Bump.antt =====
-- The allocator of src/syskrnl/allocator/bump.rs.
use tju_cinea_os.Prelude.{
  ℕ, ◌+◌, ◌-◌, ◌%◌, ◌≤◌, ◌≡◌, Option, none, some, Run, ok, panic, ◌>>=◌, >>=-eq_ok, arith, ltb, leb,
  ◌==◌, if◌then◌else◌,
}
use tju_cinea_os.Allocator.{Layout, align_up, round_up, usize_end}
use tju_cinea_os.Allocator.Alignment.{round_up_lem, align_up-round_up}

pub record BumpAllocator : Type 0 where
  pub heap_start : ℕ
  pub heap_end : ℕ
  pub next : ℕ
  pub allocations : ℕ

unfoldable pub bump_init : ℕ → ℕ → BumpAllocator → BumpAllocator
bump_init heap_start heap_size b = record b {
  heap_start = heap_start;
  heap_end = heap_start + heap_size;
  next = heap_start;
}

-- The address, or nothing for a null pointer.
unfoldable pub bump_alloc : Layout → BumpAllocator → Run (BumpAllocator × Option ℕ)
bump_alloc layout b = do
  alloc_start ← align_up b.next layout.align
  let alloc_end = alloc_start + layout.size
  if leb usize_end alloc_end
      then ok (b, none)
      else if ltb b.heap_end alloc_end
      then ok (b, none)
      else ok (record b { next = alloc_end; allocations = b.allocations + 1 }, some alloc_start)

unfoldable pub bump_dealloc : BumpAllocator → Run BumpAllocator
bump_dealloc b =
    if b.allocations == 0
    then panic
    else (let n = b.allocations - 1 in
        ok (record b { allocations = n; next = if n == 0 then b.heap_start else b.next }))

-- A block that this allocator returns is aligned, lies between the bytes handed out before it and
-- the end of the heap, and everything up to its end counts as handed out from then on.
pub bump_alloc_lem :
    (layout : Layout) (b b' : BumpAllocator) (ptr : ℕ)
    → 1 ≤ layout.align
    → bump_alloc layout b ≡ ok (b', some ptr)
    → (b.next ≤ ptr)
      × (ptr + layout.size ≤ b.heap_end)
      × (ptr % layout.align ≡ 0)
      × (b'.next ≡ ptr + layout.size)
      × (b'.allocations ≡ b.allocations + 1)
unfolding bump_alloc
bump_alloc_lem layout b b' ptr h e =
    let (above, near, exact) = round_up_lem b.next layout.align h in
    let (start, done, e') = >>=-eq_ok (align_up b.next layout.align) _ e in
    let same = align_up-round_up b.next layout.align done in
    let at : round_up b.next layout.align ≡ ptr = ground arith in
    (omega arith, ground arith, rw (← at) exact, ground arith, ground arith)
