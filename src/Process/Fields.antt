-- ===== src/Process/Fields.antt =====
-- The functions of src/syskrnl/proc.rs that read or set one part of the running process.
use tju_cinea_os.Prelude.{ℕ, Option, Run, ok, ◌>>=◌, index}
use tju_cinea_os.Prelude.Map.{Map}
use tju_cinea_os.Allocator.{Heap}
use tju_cinea_os.Fs.Path.{Bytes}
use tju_cinea_os.Fs.Handles.{OpenFileHandle}
use tju_cinea_os.Process.{Processes, Registers, StackFrame, current, with_current}

module _ {S : Type 0} where
  unfoldable id : Processes S → ℕ
  id p = p.pid

  unfoldable set_id : ℕ → Processes S → Processes S
  set_id id p = record p { pid = id }

  unfoldable envs : Processes S → Run (Map Bytes Bytes)
  envs p = do proc ← current p; ok proc.process_data.env

  unfoldable dir : Processes S → Run Bytes
  dir p = do proc ← current p; ok proc.process_data.dir

  unfoldable user : Processes S → Run (Option Bytes)
  user p = do proc ← current p; ok proc.process_data.user

  unfoldable code_addr : Processes S → Run ℕ
  code_addr p = do proc ← current p; ok proc.code_addr

  unfoldable set_code_addr : ℕ → Processes S → Run (Processes S)
  set_code_addr addr p = do proc ← current p; with_current p (record proc { code_addr = addr })

  unfoldable registers : Processes S → Run Registers
  registers p = do proc ← current p; ok proc.registers

  unfoldable stack_frame : Processes S → Run StackFrame
  stack_frame p = do proc ← current p; ok proc.stack_frame

  unfoldable page_table_frame : Processes S → Run ℕ
  page_table_frame p = do proc ← current p; ok proc.page_table_frame

  unfoldable set_page_table_frame : ℕ → Processes S → Run (Processes S)
  set_page_table_frame frame p = do
    proc ← current p
    with_current p (record proc { page_table_frame = frame })

  unfoldable heap_allocator : Processes S → Run Heap
  heap_allocator p = do proc ← current p; index p.heaps proc.allocator

  unfoldable file_handles : Processes S → Run (Map ℕ OpenFileHandle)
  file_handles p = do proc ← current p; index p.handles proc.process_data.file_handles

  -- At the start of the kernel.
  unfoldable init_process_addr : ℕ → Processes S → Processes S
  init_process_addr addr p = record p { next_code_addr = addr }
