-- ===== src/Examples/Memory.antt =====
-- A heap of one page, and a block of 24 bytes in it.
use tju_cinea_os.Prelude.{
  ℕ, ◌+◌, ◌-◌, ◌≤◌, ◌<◌, ◌≡◌, refl, ◌⊎◌, some, List, [], ◌∷◌, ok, arith, checked,
}
use tju_cinea_os.Allocator.{
  Region, Heap, Layout, alloc, dealloc, align_up, round_up, size_align, carve, find_region, choose,
  put_back, alloc_from_region, block_in, booked, add_free_region, absorb, stop_or_keep, ends_at,
  starts_at, end_addr, insert_region,
}
use tju_cinea_os.Allocator.Cover.{cover, within, AllBelow, add_free_region-cover}
use tju_cinea_os.Allocator.Fitting.{AllWithin}
use tju_cinea_os.Allocator.Block.{Allocated, alloc-Allocated}
use tju_cinea_os.Allocator.Return.{dealloc-alloc, alloc_exclusive}

abbrev page : List Region
page = record { start_addr = 4096; size = 4096 } ∷ []

abbrev heap : Heap
heap = record { free = page; size = 4096; allocated = 0 }

abbrev after : Heap
after = record {
  free = record { start_addr = 4120; size = 4072 } ∷ [];
  size = 4096;
  allocated = 24;
}

abbrev layout : Layout
layout = record { size = 24; align = 8 }

given : alloc layout heap ≡ ok (after, some 4096)
unfolding alloc size_align align_up round_up carve find_region choose put_back alloc_from_region
    block_in booked add_free_region absorb stop_or_keep ends_at starts_at end_addr insert_region
    checked
given = refl

once : (x : ℕ) → cover x page ≤ 1
unfolding cover within
once x = ground arith

small : round_up 24 8 ≤ 9223372036854775807
unfolding round_up
small = omega arith

within_space : AllWithin 8 page
unfolding AllWithin
within_space = (omega arith, omega arith, tt)

below : AllBelow page
unfolding AllBelow
below = (omega arith, tt)

alloc-Allocated_example : Allocated layout heap (alloc layout heap)
alloc-Allocated_example = alloc-Allocated layout 3 heap refl small within_space (omega arith)

alloc_exclusive_example :
    (cover 4100 after.free ≤ 1) × ((within 4100 4096 24 ≡ 0) ⊎ (cover 4100 after.free ≡ 0))
alloc_exclusive_example = alloc_exclusive layout 3 heap after 4096 refl small given once 4100

dealloc-alloc_example :
    (h'' : Heap) × (gap : ℕ) × (dealloc 4096 layout after ≡ ok h'')
    × (h''.allocated ≡ heap.allocated)
    × (gap < 8)
    × (gap ≤ 4096)
    × ((x : ℕ) → cover x heap.free ≡ cover x h''.free + within x (4096 - gap) gap)
dealloc-alloc_example = dealloc-alloc layout 3 heap after 4096 refl small below given

add_free_region-cover_example :
    (free' : List Region) × (add_free_region 8192 64 page ≡ ok free')
    × ((x : ℕ) → cover x free' ≡ cover x page + within x 8192 64)
    × AllBelow free'
add_free_region-cover_example =
    add_free_region-cover 8192 64 page below (omega arith) refl (omega arith)
