-- ===== src/Memory.antt =====
-- src/syskrnl/memory/mod.rs and src/syskrnl/allocator/mod.rs: the frames of the physical memory, and
-- the loops that map pages to them. A frame or a page goes by its number, its address over 4096. The
-- page tables are the library's: a `Mapper` is a parameter.
pub mod Frames
pub mod Mapped
use tju_cinea_os.Prelude.{
  ℕ, zero, suc, ◌+◌, ◌-◌, ◌*◌, ◌/◌, ◌≤◌, ◌≡◌, ◌≢◌, Bool, true, false, Option, none, some, List, [],
  ◌∷◌, ◌++◌, get_elem?, Run, ok, panic, ◌>>=◌,
}
use tju_cinea_os.Allocator
use tju_cinea_os.Allocator.{Heap}

-- What the code reads of a region of the boot loader's memory map.
pub record MemoryRegion : Type 0 where
  pub start_addr : ℕ
  pub end_addr : ℕ
  pub usable : Bool

-- `start..end` by steps of 4096, in `count` steps.
unfoldable pub steps : ℕ → ℕ → List ℕ
steps zero addr = []
steps (suc count) addr = addr ∷ steps count (addr + 4096)

-- How many steps there are: the range's length over 4096, rounded up.
unfoldable pub step_count : MemoryRegion → ℕ
step_count r = (r.end_addr + 4095 - r.start_addr) / 4096

-- `PhysFrame::containing_address` of each address.
unfoldable pub to_frames : List ℕ → List ℕ
to_frames [] = []
to_frames (addr ∷ addrs) = addr / 4096 ∷ to_frames addrs

unfoldable pub region_frames : Bool → MemoryRegion → List ℕ
region_frames false r = []
region_frames true r = to_frames (steps (step_count r) r.start_addr)

-- `usable_frames`, of either allocator of frames.
unfoldable pub usable_frames : List MemoryRegion → List ℕ
usable_frames [] = []
usable_frames (r ∷ rs) = region_frames r.usable r ++ usable_frames rs

-- `BootInfoFrameAllocator::allocate_frame`: the frame, and the new `ALLOCATED_FRAMES`.
unfoldable pub boot_allocate_frame : List MemoryRegion → ℕ → Option ℕ × ℕ
boot_allocate_frame memory_map next = (get_elem? (usable_frames memory_map) next, next + 1)

-- `HeapedBootInfoFrameAllocator`: the frames are listed once, when it is made.
pub record HeapedFrames : Type 0 where
  pub memory_map : List MemoryRegion
  pub cached_frames : List ℕ

unfoldable pub heaped_frame_allocator : List MemoryRegion → HeapedFrames
heaped_frame_allocator memory_map = record {
  memory_map = memory_map;
  cached_frames = usable_frames memory_map;
}

-- `HeapedBootInfoFrameAllocator::allocate_frame`.
unfoldable pub heaped_allocate_frame : HeapedFrames → ℕ → Option ℕ × ℕ
heaped_allocate_frame h next = (get_elem? h.cached_frames next, next + 1)

-- The sum of the regions' sizes that `memory::init` keeps.
unfoldable pub memory_size : ℕ → List MemoryRegion → ℕ
memory_size size [] = size
memory_size size (r ∷ rs) = memory_size (size + (r.end_addr - r.start_addr)) rs

pub record Flags : Type 0 where
  pub present : Bool
  pub writable : Bool
  pub user_accessible : Bool

abbrev pub kernel_flags : Flags
kernel_flags = record { present = true; writable = true; user_accessible = false }

-- Of the kernel's pages that programs may read.
abbrev pub shared_flags : Flags
shared_flags = record { present = true; writable = false; user_accessible = true }

abbrev pub user_flags : Flags
user_flags = record { present = true; writable = true; user_accessible = true }

pub data MapError : Type 0 where
  frame_allocation_failed : MapError
  refused : MapError

-- How mapping ends: with the page tables and the count of allocated frames, after an error too.
pub data Mapping (S : Type 0) : Type 0 where
  mapped : S → ℕ → Mapping S
  failed : MapError → S → ℕ → Mapping S

abbrev pub and_then : {S : Type 0} → Mapping S → (S → ℕ → Mapping S) → Mapping S
and_then (mapped s c) f = f s c
and_then (failed e s c) f = failed e s c

-- `expect` of a mapping.
abbrev pub expect_mapping : {S : Type 0} → Mapping S → Run (S × ℕ)
expect_mapping (mapped s c) = ok (s, c)
expect_mapping (failed e s c) = panic

-- The library's page tables. `map_to` may itself take frames from the allocator.
pub record Mapper (S : Type 0) : Type 0 where
  pub map_to : S → ℕ → ℕ → Flags → ℕ → Mapping S
  pub unmap : S → ℕ → Option (ℕ × S)
  pub entry : S → ℕ → Option (ℕ × Flags)

module _ {S : Type 0} (m : Mapper S) (allocate : ℕ → Option ℕ × ℕ) where
  unfoldable pub map_page : Flags → ℕ → S → Option ℕ × ℕ → Mapping S
  map_page flags page s (none, c) = failed frame_allocation_failed s c
  map_page flags page s (some frame, c) = m.map_to s page frame flags c

  -- The loops of `init_heap` and `alloc_pages`: `count` pages, the first one `page`.
  unfoldable pub map_pages : Flags → ℕ → ℕ → S → ℕ → Mapping S
  map_pages flags zero page s c = mapped s c
  map_pages flags (suc count) page s c =
      and_then (map_page flags page s (allocate c)) λ s' c'. map_pages flags count (page + 1) s' c'

-- `Page::range_inclusive` of the pages of `addr` and of the last byte.
unfoldable pub page_count : ℕ → ℕ → ℕ
page_count addr size = (addr + size - 1) / 4096 + 1 - addr / 4096

-- `alloc_pages`.
unfoldable pub alloc_pages : {S : Type 0} → Mapper S → List MemoryRegion → ℕ → ℕ → S → ℕ → Mapping S
alloc_pages m memory_map addr size s c =
    map_pages m (heaped_allocate_frame (heaped_frame_allocator memory_map)) user_flags
      (page_count addr size) (addr / 4096) s c

-- `alloc_pages_to_known_phys`: pages on frames that follow each other.
unfoldable pub map_known : {S : Type 0} → Mapper S → Flags → ℕ → ℕ → ℕ → S → ℕ → Mapping S
map_known m flags zero page phys_start s c = mapped s c
map_known m flags (suc count) page phys_start s c =
    and_then (m.map_to s page (phys_start / 4096) flags c)
      λ s' c'. map_known m flags count (page + 1) (phys_start + 4096) s' c'

unfoldable pub alloc_pages_to_known_phys :
    {S : Type 0} → Mapper S → ℕ → ℕ → ℕ → Bool → S → ℕ → Mapping S
alloc_pages_to_known_phys m addr size phys_start user s c =
    map_known m (record kernel_flags { user_accessible = user }) (page_count addr size)
      (addr / 4096) phys_start s c

-- `dealloc_pages`: a page that cannot be unmapped is passed over.
unfoldable pub left_tables : {S : Type 0} → S → Option (ℕ × S) → S
left_tables s none = s
left_tables s (some (frame, s')) = s'

unfoldable pub unmap_pages : {S : Type 0} → Mapper S → ℕ → ℕ → S → S
unmap_pages m zero page s = s
unmap_pages m (suc count) page s = unmap_pages m count (page + 1) (left_tables s (m.unmap s page))

unfoldable pub dealloc_pages : {S : Type 0} → Mapper S → ℕ → ℕ → S → S
dealloc_pages m addr size s = unmap_pages m (page_count addr size) (addr / 4096) s

-- `fix_page_fault_in_userspace`: each page of the kernel's code is mapped anew to its own frame, with
-- programs let in and writing forbidden.
unfoldable pub remap_page : {S : Type 0} → Mapper S → ℕ → Option (ℕ × S) → ℕ → Run (S × ℕ)
remap_page m page none c = panic
remap_page m page (some (frame, s)) c = expect_mapping (m.map_to s page frame shared_flags c)

unfoldable pub remap_pages : {S : Type 0} → Mapper S → ℕ → ℕ → S → ℕ → Run (S × ℕ)
remap_pages m zero page s c = ok (s, c)
remap_pages m (suc count) page s c = do
  (s, c) ← remap_page m page (m.unmap s page) c
  remap_pages m count (page + 1) s c

unfoldable pub fix_page_fault_in_userspace : {S : Type 0} → Mapper S → S → ℕ → Run (S × ℕ)
fix_page_fault_in_userspace m s c =
    remap_pages m (0x320000 / 4096 + 1 - 0x200000 / 4096) (0x200000 / 4096) s c

abbrev pub heap_start : ℕ
heap_start = 0x100000000

abbrev pub heap_size : ℕ
heap_size = 40 * 1024 * 1024

-- What `init_heap` leaves: the page tables, and on success the kernel's heap. The address where the
-- first program goes is set in any case.
pub record KernelHeap (S : Type 0) : Type 0 where
  pub tables : Mapping S
  pub heap : Run Heap
  pub code_addr : ℕ

unfoldable pub heap_on : {S : Type 0} → Mapping S → Heap → Run Heap
heap_on (mapped s c) heap = Allocator.init heap_start heap_size heap
heap_on (failed e s c) heap = ok heap

unfoldable pub init_heap : {S : Type 0} → Mapper S → List MemoryRegion → Heap → S → ℕ → KernelHeap S
init_heap m memory_map heap s c =
    let tables =
      map_pages m (boot_allocate_frame memory_map) kernel_flags (page_count heap_start heap_size)
        (heap_start / 4096) s c in
    record { tables = tables; heap = heap_on tables heap; code_addr = heap_start + heap_size }
