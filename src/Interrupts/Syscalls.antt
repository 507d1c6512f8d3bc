-- ===== src/Interrupts/Syscalls.antt =====
-- The system calls: `syscall_handler` of src/syskrnl/interrupts/mod.rs, `dispatcher` of
-- src/syskrnl/syscall/mod.rs and the services of src/syskrnl/syscall/service.rs that change the
-- kernel's state. The calls that pass values by serialising them are a parameter.
use tju_cinea_os.Prelude.{
  ℕ, true, false, Option, none, some, List, Run, ok, panic, ◌>>=◌, ◌==◌, ◌||◌, [], ◌∷◌,
  if◌then◌else◌,
}
use tju_cinea_os.Events
use tju_cinea_os.Events.{gui_event}
use tju_cinea_os.Fs.Path.{Bytes}
use tju_cinea_os.Scheduler.Ring.{mem}
use tju_cinea_os.Process.{Processes, pool_insert}
use tju_cinea_os.Process.Create.{Machine}
use tju_cinea_os.Process.Exec.{Launch}
use tju_cinea_os.Process.Spawn.{spawn, exit, alloc, free}
use tju_cinea_os.Interrupts.{System, Cpu, save_context, switch_context_to, sleeping}

abbrev pub call_exit : ℕ
call_exit = 0x1

abbrev pub call_spawn : ℕ
call_spawn = 0x2

abbrev pub call_alloc : ℕ
call_alloc = 0xD

abbrev pub call_free : ℕ
call_free = 0xE

abbrev pub call_no_sche : ℕ
call_no_sche = 0x10

abbrev pub call_con_sche : ℕ
call_con_sche = 0x11

abbrev pub call_register_timer : ℕ
call_register_timer = 0x13

abbrev pub call_gui_subscribe_time_update : ℕ
call_gui_subscribe_time_update = 0x35

abbrev pub call_gui_subscribe_keyboard : ℕ
call_gui_subscribe_keyboard = 0x36

-- How a call ends: with a value, or with a new program that the processor enters.
pub data Answer : Type 0 where
  value : ℕ → Answer
  enter : Launch → Answer

-- What the processor does after the interrupt.
pub data Outcome : Type 0 where
  resumed : Cpu → Outcome
  entered : Launch → Outcome

-- `INFO`, `SLEEP`, `LOG`, `TEST_SERDE`, `READ_TIME`, `LIST`, `OPEN`, `WRITE_ALL`, `READ`, `WRITE_PATH`,
-- `READ_PATH`, `SPAWN_FROM_PATH`, `CREATE_WINDOW`, `DISPLAY_FONT_STRING`, `LOAD_FONT` and
-- `DESTROY_WINDOW`.
abbrev pub other_calls : List ℕ
other_calls =
    0x7 ∷ 0xB ∷ 0xC ∷ 0x12 ∷ 0x14 ∷ 0x20 ∷ 0x21 ∷ 0x23 ∷ 0x24 ∷ 0x25 ∷ 0x26 ∷ 0x27 ∷ 0x30 ∷ 0x31
    ∷ 0x32 ∷ 0x34 ∷ []

-- The bytes of the programs that the build puts into the kernel, and the other services.
pub record Services (S : Type 0) : Type 0 where
  pub hello : Bytes
  pub infprint : Bytes
  pub taffy : Bytes
  pub other : ℕ → ℕ → ℕ → ℕ → System S → Run (ℕ × System S)

-- `ExitCode::OpenError` and `ExitCode::ExecError`.
abbrev pub open_error : ℕ
open_error = 128

abbrev pub exec_error : ℕ
exec_error = 130

-- A null pointer is 0.
abbrev pub pointer : Option ℕ → ℕ
pointer none = 0
pointer (some ptr) = ptr

module _ {S : Type 0} where
  -- `register_timer`: an event of sleeping, without waiting for it.
  unfoldable pub register_timer : ℕ → System S → Run (ℕ × System S)
  register_timer time s = do
    (eid, s) ← sleeping time s
    ok (
      0,
      record s {
        events = record s.events { events = Events.wait s.processes.pid eid s.events.events };
      },
    )

  -- `gui_time_update_register`.
  unfoldable pub gui_time_update_register : System S → ℕ × System S
  gui_time_update_register s =
      let pid = s.processes.pid in
      (
        0,
        record s {
          time_update_needers = pool_insert (gui_event pid) s.time_update_needers;
          events = record s.events { events = Events.wait pid (gui_event pid) s.events.events };
        },
      )

  unfoldable pub spawned : Option Launch × Processes S → System S → Answer × System S
  spawned (none, p) s = (value exec_error, record s { processes = p })
  spawned (some l, p) s = (enter l, record s { processes = p })

  abbrev pub leave : Run (ℕ × Processes S) → System S → Run (ℕ × System S)
  leave r s = do (next, p) ← r; ok (next, record s { processes = p })

  abbrev pub allotted : Run (Option ℕ × Processes S) → System S → Run (ℕ × System S)
  allotted r s = do (ptr, p) ← r; ok (pointer ptr, record s { processes = p })

  abbrev pub freed : Run (Processes S) → System S → Run (ℕ × System S)
  freed r s = do p ← r; ok (0, record s { processes = p })

  abbrev pub answered : Run (ℕ × System S) → Run (Answer × System S)
  answered r = do (v, s) ← r; ok (value v, s)

  -- After `EXIT` another process goes on; otherwise the program finds the value in its register.
  unfoldable pub answer : ℕ → Cpu → Answer × System S → Run (Outcome × System S)
  answer n cpu (enter l, s) = ok (entered l, s)
  answer n cpu (value res, s) =
      if n == call_exit
      then (switch_context_to res s.processes >>= λ r.
          ok (resumed r.0, record s { processes = r.1 }))
      else ok (resumed (record cpu { regs = record cpu.regs { rax = res } }), s)

  -- `SPAWN` saves the registers first.
  unfoldable pub saved_before : ℕ → Cpu → System S → Run (System S)
  saved_before n cpu s =
      if n == call_spawn
      then (save_context cpu s.processes >>= λ p. ok (record s { processes = p }))
      else ok s

  unfoldable pub stop_schedule : System S → System S
  stop_schedule s = record s { no_schedule = true }

  unfoldable pub restart_schedule : System S → System S
  restart_schedule s = record s { no_schedule = false }

  -- The program that goes by a number.
  unfoldable pub subprocess : Services S → ℕ → Option Bytes
  subprocess services number =
      if number == 0
      then some services.hello
      else if number == 1
      then some services.infprint
      else if number == 2
      then some services.taffy
      else none

module _ {S : Type 0} (m : Machine S) (services : Services S) where
  -- `spawn`.
  unfoldable pub spawn_number : Option Bytes → ℕ → ℕ → System S → Run (Answer × System S)
  spawn_number none args_ptr args_len s = ok (value open_error, s)
  spawn_number (some bin) args_ptr args_len s = do
    r ← spawn m bin args_ptr args_len s.processes
    ok (spawned r s)

  -- `dispatcher`, for the calls whose services change the processes and the events. `DUP`, `DELETE`
  -- and `STOP` are unimplemented, `PANIC` panics, and so does any number that is not known.
  unfoldable pub dispatcher : ℕ → ℕ → ℕ → ℕ → ℕ → System S → Run (Answer × System S)
  dispatcher n arg1 arg2 arg3 arg4 s =
      if n == call_exit
      then answered (leave (exit m s.processes) s)
      else if n == call_spawn
      then spawn_number (subprocess services arg1) arg2 arg3 s
      else if n == call_alloc
      then answered (allotted (alloc m arg1 arg2 s.processes) s)
      else if n == call_free
      then answered (freed (free m arg1 arg2 arg3 s.processes) s)
      else if n == call_no_sche
      then ok (value 0, stop_schedule s)
      else if n == call_con_sche
      then ok (value 0, restart_schedule s)
      else if n == call_register_timer
      then answered (register_timer arg1 s)
      else if n == call_gui_subscribe_time_update || n == call_gui_subscribe_keyboard
      then answered (ok (gui_time_update_register s))
      else if mem n other_calls
      then answered (services.other n arg1 arg2 arg3 s)
      else panic

  -- `syscall_handler`.
  unfoldable pub syscall_handler : Cpu → System S → Run (Outcome × System S)
  syscall_handler cpu s = do
    s ← saved_before cpu.regs.rax cpu s
    r ← dispatcher cpu.regs.rax cpu.regs.rdi cpu.regs.rsi cpu.regs.rdx cpu.regs.r8 s
    answer cpu.regs.rax cpu r
