-- ===== src/Allocator.antt =====
-- The kernel's heap: src/syskrnl/allocator/linked_list.rs, and `align_up` of
-- src/syskrnl/allocator/mod.rs. A free region is the list node written at its start; addresses and
-- sizes are `usize`s of 64 bits.
pub mod Cover
pub mod Alignment
pub mod Fitting
pub mod Block
pub mod Return
pub mod Bump
use tju_cinea_os.Prelude.{
  ℕ, zero, suc, ◌+◌, ◌-◌, ◌*◌, ◌/◌, ◌≤◌, max, Bool, true, false, ◌&&◌, not, Option, none, some,
  List, [], ◌∷◌, Run, ok, panic, ◌>>=◌, ◌>>◌, assert, checked, ◌==◌, ltb, leb, if◌then◌else◌,
}

-- `ListNode`.
pub record Region : Type 0 where
  pub start_addr : ℕ
  pub size : ℕ

-- The address after a region, and `end_addr`, which computes it as a `usize`.
abbrev pub end_of : Region → ℕ
end_of r = r.start_addr + r.size

unfoldable pub end_addr : Region → Run ℕ
end_addr r = checked (end_of r)

-- `size_of::<ListNode>()` and `align_of::<ListNode>()`.
abbrev pub node_size : ℕ
node_size = 16

abbrev pub node_align : ℕ
node_align = 8

abbrev pub usize_end : ℕ
usize_end = 18446744073709551616

-- `Layout`: a size and an alignment that is a power of two.
pub record Layout : Type 0 where
  pub size : ℕ
  pub align : ℕ

-- `LinkedListAllocator`, with the list behind its head.
pub record Heap : Type 0 where
  pub free : List Region
  pub size : ℕ
  pub allocated : ℕ

-- The mask `& !(align - 1)` of a power of two clears what is over its last multiple.
unfoldable pub round_up : ℕ → ℕ → ℕ
round_up addr align = (addr + align - 1) / align * align

unfoldable pub align_up : ℕ → ℕ → Run ℕ
align_up addr align = checked (addr + align) >>= λ _. ok (round_up addr align)

-- `!left_found && region.end_addr() == addr`.
unfoldable pub ends_at : Bool → Region → ℕ → Run Bool
ends_at true region addr = ok false
ends_at false region addr = end_addr region >>= λ e. ok (e == addr)

-- `!right_found && region.start_addr() == addr + size`.
unfoldable pub starts_at : Bool → Region → ℕ → ℕ → Run Bool
starts_at true region addr size = ok false
starts_at false region addr size = checked (addr + size) >>= λ e. ok (region.start_addr == e)

-- A region that stays in the list.
abbrev pub keep : Region → List Region × ℕ × ℕ → List Region × ℕ × ℕ
keep region (kept, addr, size) = (region ∷ kept, addr, size)

-- The loop stops when both neighbours were found; otherwise the region stays and it goes on.
unfoldable pub stop_or_keep :
    Bool → Region → List Region → ℕ → ℕ → Run (List Region × ℕ × ℕ) → Run (List Region × ℕ × ℕ)
stop_or_keep true region rest addr size further = ok (region ∷ rest, addr, size)
stop_or_keep false region rest addr size further = further >>= λ merged. ok (keep region merged)

-- The loop of `add_free_region` that takes the neighbours out: the regions left, and the region that
-- was put together.
unfoldable pub absorb : List Region → Bool → Bool → ℕ → ℕ → Run (List Region × ℕ × ℕ)
absorb [] left_found right_found addr size = ok ([], addr, size)
absorb (region ∷ rest) left_found right_found addr size =
    ends_at left_found region addr >>= λ at_left. elim at_left [
      | true ↦ checked (size + region.size) >>= λ size'.
          absorb rest true right_found region.start_addr size'
      | false ↦ starts_at right_found region addr size >>= λ at_right. elim at_right [
        | true ↦ checked (size + region.size) >>= λ size'. absorb rest left_found true addr size'
        | false ↦
            stop_or_keep (left_found && right_found) region rest addr size
              (absorb rest left_found right_found addr size)
      ]
    ]

-- The loop that puts the node before the first region that is not larger.
unfoldable pub insert_region : Region → List Region → List Region
insert_region node [] = node ∷ []
insert_region node (region ∷ rest) =
    let inserted = insert_region node rest in
    if leb region.size node.size then node ∷ region ∷ rest else region ∷ inserted

unfoldable pub add_free_region : ℕ → ℕ → List Region → Run (List Region)
add_free_region addr size free = do
  aligned ← align_up addr node_align
  assert (aligned == addr)
  assert (leb node_size size)
  (kept, addr', size') ← absorb free false false addr size
  ok (insert_region (record { start_addr = addr'; size = size' }) kept)

-- The test of the block from `alloc_start` in a region that ends at `region_end`.
unfoldable pub block_in : ℕ → ℕ → ℕ → Option ℕ
block_in region_end alloc_start size =
    let alloc_end = alloc_start + size in
    let excess_size = region_end - alloc_end in
    if ltb region_end alloc_end
    then none
    else if ltb 0 excess_size && ltb excess_size node_size
    then none
    else some alloc_start

-- `checked_add` gives an error where the sum is too large.
unfoldable pub alloc_from_region : Region → ℕ → ℕ → Run (Option ℕ)
alloc_from_region region size align = align_up region.start_addr align >>= λ alloc_start.
    if leb usize_end (alloc_start + size)
    then ok none
    else (end_addr region >>= λ region_end. ok (block_in region_end alloc_start size))

-- The first region that fits, the start of the block in it, and the regions without it.
unfoldable pub put_back :
    Region → Option (Region × ℕ × List Region) → Option (Region × ℕ × List Region)
put_back region none = none
put_back region (some (found, alloc_start, others)) = some (found, alloc_start, region ∷ others)

unfoldable pub choose :
    Region
    → List Region
    → Option ℕ
    → Run (Option (Region × ℕ × List Region))
    → Run (Option (Region × ℕ × List Region))
choose region rest (some alloc_start) further = ok (some (region, alloc_start, rest))
choose region rest none further = further >>= λ found. ok (put_back region found)

unfoldable pub find_region : ℕ → ℕ → List Region → Run (Option (Region × ℕ × List Region))
find_region size align [] = ok none
find_region size align (region ∷ rest) =
    alloc_from_region region size align >>= λ o. choose region rest o (find_region size align rest)

-- The library's `align_to` takes the larger alignment and fails when the padded size is over
-- `isize::MAX`; its `pad_to_align` rounds the size up to the alignment.
unfoldable pub size_align : Layout → Run (ℕ × ℕ)
size_align layout =
    let align = max layout.align node_align in
    let size = round_up layout.size align in
    if ltb 9223372036854775807 size then panic else ok (max size node_size, align)

-- What `alloc` does with the region it found.
unfoldable pub carve : ℕ → Option (Region × ℕ × List Region) → Heap → Run (List Region × Option ℕ)
carve size none h = ok (h.free, none)
carve size (some (region, alloc_start, others)) h = do
  alloc_end ← checked (alloc_start + size)
  region_end ← end_addr region
  let excess_size = region_end - alloc_end
  if ltb 0 excess_size
      then (add_free_region alloc_end excess_size others >>= λ free. ok (free, some alloc_start))
      else ok (others, some alloc_start)

-- The address, or nothing for a null pointer.
unfoldable pub booked : ℕ → List Region × Option ℕ → Heap → Run (Heap × Option ℕ)
booked size (free, none) h = ok (h, none)
booked size (free, some ptr) h = checked (h.allocated + size) >>= λ allocated.
    ok (record h { free = free; allocated = allocated }, some ptr)

unfoldable pub alloc : Layout → Heap → Run (Heap × Option ℕ)
alloc layout h = do
  (size, align) ← size_align layout
  r ← find_region size align h.free >>= λ o. carve size o h
  booked layout.size r h

unfoldable pub dealloc : ℕ → Layout → Heap → Run Heap
dealloc ptr layout h = do
  (size, align) ← size_align layout
  free ← add_free_region ptr size h.free
  assert (leb layout.size h.allocated)
  ok (record h { free = free; allocated = h.allocated - layout.size })

unfoldable pub grow : ℕ → ℕ → Heap → Run Heap
grow heap_start heap_size h = do
  free ← add_free_region heap_start heap_size h.free
  size ← checked (h.size + heap_size)
  ok (record h { free = free; size = size })

abbrev pub new : Heap
new = record { free = []; size = 0; allocated = 0 }

unfoldable pub init : ℕ → ℕ → Heap → Run Heap
init heap_start heap_size h = add_free_region heap_start heap_size h.free >>= λ free.
    ok (record h { free = free; size = heap_size })
