-- ===== src/Process.antt =====
-- src/syskrnl/proc.rs: processes, their ids, and the state that goes with them. What several
-- processes share through an `Arc` (open files, a heap) lies in a store and goes by its place there.
pub mod Create
pub mod Exec
pub mod Spawn
pub mod Made
pub mod Pids
pub mod Pool
pub mod Exited
pub mod Words
pub mod Arguments
pub mod Code
pub mod Loaded
pub mod Fields
use tju_cinea_os.Prelude.{
  ℕ, zero, suc, ◌+◌, ◌*◌, ◌%◌, Bool, true, false, Option, none, some, List, [], ◌∷◌, ◌++◌, Run, ok,
  ◌>>=◌, index, set_index, length, ltb, ◌==◌, if◌then◌else◌,
}
use tju_cinea_os.Prelude.Map
use tju_cinea_os.Prelude.Map.{Map, nat_key, bytes_key}
use tju_cinea_os.Allocator
use tju_cinea_os.Allocator.{Heap, usize_end}
use tju_cinea_os.Fs.Path.{Bytes}
use tju_cinea_os.Fs.Handles.{OpenFileHandle, dev_stdout}
use tju_cinea_os.Memory.{MemoryRegion, Mapper, expect_mapping, alloc_pages, dealloc_pages}
use tju_cinea_os.Scheduler
use tju_cinea_os.Scheduler.{Scheduler}

abbrev pub max_procs : ℕ
max_procs = 16

abbrev pub max_proc_size : ℕ
max_proc_size = 10 * 1024 * 1024

abbrev pub default_heap_size : ℕ
default_heap_size = 0x1000000

abbrev pub proc_heap_start : ℕ
proc_heap_start = 0x200000000

pub record Registers : Type 0 where
  pub r15 : ℕ
  pub r14 : ℕ
  pub r13 : ℕ
  pub r12 : ℕ
  pub r11 : ℕ
  pub r10 : ℕ
  pub r9 : ℕ
  pub r8 : ℕ
  pub rdi : ℕ
  pub rsi : ℕ
  pub rbp : ℕ
  pub rbx : ℕ
  pub rdx : ℕ
  pub rcx : ℕ
  pub rax : ℕ

abbrev pub no_registers : Registers
no_registers = record {
  r15 = 0;
  r14 = 0;
  r13 = 0;
  r12 = 0;
  r11 = 0;
  r10 = 0;
  r9 = 0;
  r8 = 0;
  rdi = 0;
  rsi = 0;
  rbp = 0;
  rbx = 0;
  rdx = 0;
  rcx = 0;
  rax = 0;
}

-- The library's `InterruptStackFrameValue`.
pub record StackFrame : Type 0 where
  pub instruction_pointer : ℕ
  pub code_segment : ℕ
  pub cpu_flags : ℕ
  pub stack_pointer : ℕ
  pub stack_segment : ℕ

-- `file_handles` is the place of the table of open files.
pub record ProcessData : Type 0 where
  pub env : Map Bytes Bytes
  pub dir : Bytes
  pub user : Option Bytes
  pub file_handles : ℕ

-- `allocator` is the place of the heap.
pub record Process : Type 0 where
  pub id : ℕ
  pub code_addr : ℕ
  pub stack_addr : ℕ
  pub entry_point : ℕ
  pub page_table_frame : ℕ
  pub stack_frame : StackFrame
  pub registers : Registers
  pub process_data : ProcessData
  pub parent : ℕ
  pub allocator : ℕ

-- `PID`, `PID_POOL`, `PROCESS_TABLE`, `PROC_HEAP_ADDR`, `CODE_ADDR`, `SCHEDULER`, `SCHEDULE`, the
-- stores of heaps and of open files, the bytes of memory by their addresses, the page tables, the
-- count of frames, and the page table in use (`Cr3`).
pub record Processes (S : Type 0) : Type 0 where
  pub pid : ℕ
  pub pool : List ℕ
  pub table : List Process
  pub heap_addr : ℕ
  pub next_code_addr : ℕ
  pub scheduler : Scheduler
  pub schedule : Bool
  pub heaps : List Heap
  pub handles : List (Map ℕ OpenFileHandle)
  pub memory : ℕ → ℕ
  pub tables : S
  pub allocated_frames : ℕ
  pub cr3 : ℕ

-- The table of open files of `ProcessData::new`.
abbrev pub stdout_only : Map ℕ OpenFileHandle
stdout_only = (0, record { id = 0; path = dev_stdout; write = true; device = true }) ∷ []

-- `Process::new`, with its shared parts at the place `at`.
unfoldable pub new_process : ℕ → ℕ → ℕ → Process
new_process id cr3 at = record {
  id = id;
  code_addr = 0;
  stack_addr = 0;
  entry_point = 0;
  page_table_frame = cr3;
  stack_frame = record {
    instruction_pointer = 0;
    code_segment = 0;
    cpu_flags = 0;
    stack_pointer = 0;
    stack_segment = 0;
  };
  registers = no_registers;
  process_data = record { env = []; dir = b'/' ∷ []; user = none; file_handles = at };
  parent = 0;
  allocator = at;
}

-- `BTreeSet::insert`.
unfoldable pub pool_insert : ℕ → List ℕ → List ℕ
pool_insert i [] = i ∷ []
pool_insert i (j ∷ js) =
    let rest = pool_insert i js in
    if i == j then j ∷ js else if ltb i j then i ∷ j ∷ js else j ∷ rest

-- The parts of the state that belong to the running process.
module _ {S : Type 0} where
  unfoldable pub current : Processes S → Run Process
  current p = index p.table p.pid

  abbrev pub with_current : Processes S → Process → Run (Processes S)
  with_current p proc = do t ← set_index p.table p.pid proc; ok (record p { table = t })

  unfoldable pub set_registers : Registers → Processes S → Run (Processes S)
  set_registers regs p = do proc ← current p; with_current p (record proc { registers = regs })

  unfoldable pub set_stack_frame : StackFrame → Processes S → Run (Processes S)
  set_stack_frame frame p = do
    proc ← current p
    with_current p (record proc { stack_frame = frame })

  unfoldable pub env : Bytes → Processes S → Run (Option Bytes)
  env name p = do proc ← current p; ok (Map.lookup name proc.process_data.env)

  unfoldable pub set_env : Bytes → Bytes → Processes S → Run (Processes S)
  set_env name val p = do
    proc ← current p
    with_current p (record proc {
      process_data = record proc.process_data { env = Map.insert name val proc.process_data.env };
    })

  unfoldable pub set_dir : Bytes → Processes S → Run (Processes S)
  set_dir dir p = do
    proc ← current p
    with_current p (record proc { process_data = record proc.process_data { dir = dir } })

  unfoldable pub set_user : Bytes → Processes S → Run (Processes S)
  set_user user p = do
    proc ← current p
    with_current p (record proc { process_data = record proc.process_data { user = some user } })

  unfoldable pub ptr_from_addr : ℕ → Processes S → Run ℕ
  ptr_from_addr addr p = do
    proc ← current p
    let base = proc.code_addr
    ok (if ltb addr base then base + addr else addr)

  -- A place in the store of heaps, read and written.
  abbrev pub with_heap : Processes S → ℕ → Heap → Run (Processes S)
  with_heap p at h = do hs ← set_index p.heaps at h; ok (record p { heaps = hs })
