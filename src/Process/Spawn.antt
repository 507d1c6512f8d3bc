-- ===== src/Process/Spawn.antt =====
-- `Process::spawn`, `exit` and the calls `alloc` and `free` of src/syskrnl/proc.rs and
-- src/syskrnl/syscall/service.rs.
use tju_cinea_os.Prelude.{
  ℕ, ◌+◌, ◌-◌, ◌*◌, ◌/◌, ◌%◌, Option, none, some, Run, ok, panic, ◌>>=◌, index, ltb, leb, ◌&&◌,
  ◌==◌, if◌then◌else◌,
}
use tju_cinea_os.Allocator
use tju_cinea_os.Allocator.{Heap, Layout, usize_end}
use tju_cinea_os.Fs.Path.{Bytes}
use tju_cinea_os.Memory.{dealloc_pages}
use tju_cinea_os.Scheduler
use tju_cinea_os.Process.{Processes, current, with_heap, pool_insert, max_proc_size}
use tju_cinea_os.Process.Create.{Machine, create, expect_pages}
use tju_cinea_os.Process.Exec.{Launch, exec}

-- `Layout::from_size_align(size, align).expect(...)`: the alignment has to be a power of two, that is a
-- divisor of 2 ^ 63, and the size rounded up to it at most `isize::MAX`.
unfoldable pub from_size_align : ℕ → ℕ → Run Layout
from_size_align size align =
    if ltb 0 align && 9223372036854775808 % align == 0 && leb (size + align) 9223372036854775808
    then ok (record { size = size; align = align })
    else panic

module _ {S : Type 0} (m : Machine S) where
  unfoldable pub launch : ℕ → ℕ → Option ℕ × Processes S → Run (Option Launch × Processes S)
  launch args_ptr args_len (none, p) = ok (none, p)
  launch args_ptr args_len (some id, p) = do
    proc ← index p.table id
    (l, p) ← exec m proc args_ptr args_len p
    ok (some l, p)

  -- `Process::spawn`: nothing stands for `ExitCode::ExecError`; otherwise the program runs.
  unfoldable pub spawn : Bytes → ℕ → ℕ → Processes S → Run (Option Launch × Processes S)
  spawn bin args_ptr args_len p = create m bin p >>= launch args_ptr args_len

  -- `exit`: the process to run next.
  unfoldable pub exit : Processes S → Run (ℕ × Processes S)
  exit p = do
    proc ← current p
    let tables = dealloc_pages (m.mapper m.boot_table) proc.code_addr max_proc_size p.tables
    (next, scheduler) ← Scheduler.terminate p.scheduler proc.id
    ok (next, record p { tables = tables; pool = pool_insert p.pid p.pool; scheduler = scheduler })

  -- `allocator_grow`: more pages for the heap of the running process.
  unfoldable pub allocator_grow : ℕ → Processes S → Run (Processes S)
  allocator_grow size p = do
    proc ← current p
    let addr = p.heap_addr
    p ←
        expect_pages m proc.page_table_frame addr size
          (record p { heap_addr = (addr + size) % usize_end })
    heap ← index p.heaps proc.allocator
    heap ← Allocator.grow addr size heap
    with_heap p proc.allocator heap

  -- The call `alloc`: the heap grows by what it lacks, in whole pages.
  unfoldable pub alloc : ℕ → ℕ → Processes S → Run (Option ℕ × Processes S)
  alloc size align p = do
    proc ← current p
    heap ← index p.heaps proc.allocator
    let free_space = heap.size - heap.allocated
    let grow_size = (size - free_space + 4095) / 4096 * 4096
    p ← (if ltb free_space size then allocator_grow grow_size p else ok p)
    heap ← index p.heaps proc.allocator
    layout ← from_size_align size align
    (heap, ptr) ← Allocator.alloc layout heap
    p ← with_heap p proc.allocator heap
    ok (ptr, p)

  -- The call `free`.
  unfoldable pub free : ℕ → ℕ → ℕ → Processes S → Run (Processes S)
  free ptr size align p = do
    proc ← current p
    heap ← index p.heaps proc.allocator
    layout ← from_size_align size align
    heap ← Allocator.dealloc ptr layout heap
    with_heap p proc.allocator heap
