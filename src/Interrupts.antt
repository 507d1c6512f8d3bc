-- ===== src/Interrupts.antt =====
-- src/syskrnl/interrupts/mod.rs: the clock interrupt with its change of processes, and the interrupts
-- by which a program waits or saves its registers. What the clock's own handler draws is left out.
pub mod Syscalls
pub mod Leaving
pub mod Switch
use tju_cinea_os.Prelude.{
  ℕ, ◌+◌, ◌-◌, Bool, true, false, ◌&&◌, not, Option, none, some, List, Run, ok, ◌>>=◌, ltb, ◌==◌,
  if◌then◌else◌,
}
use tju_cinea_os.Prelude.Map
use tju_cinea_os.Prelude.Map.{nat_key}
use tju_cinea_os.Events.{Events, next_sleep_id, gui_event}
use tju_cinea_os.Events.Sleep.{Sleep, add_sleep}
use tju_cinea_os.Kernel.{Kernel, wake_sleeper, wait_for}
use tju_cinea_os.Process.{Processes, Registers, StackFrame, current, set_registers, set_stack_frame}
use tju_cinea_os.Scheduler

-- The processes with the rest of the kernel's state: `SLEEP_ID`, `NO_SCHEDULE`, `LAST_SCHEDULE` and
-- the clock's ticks.
pub record System (S : Type 0) : Type 0 where
  pub processes : Processes S
  pub events : Events
  pub sleep : Sleep
  pub sleep_id : ℕ
  pub even_odd_flag : Bool
  pub time_update_needers : List ℕ
  pub no_schedule : Bool
  pub last_schedule : ℕ
  pub ticks : ℕ

-- What the processor goes on with after an interrupt.
pub record Cpu : Type 0 where
  pub frame : StackFrame
  pub regs : Registers

-- The value of `EVENT_DATA` goes into the register of results.
unfoldable pub deliver : Option ℕ → Cpu → Cpu
deliver none cpu = cpu
deliver (some v) cpu = record cpu { regs = record cpu.regs { rax = v } }

module _ {S : Type 0} where
  -- The part of the state that the handlers of events work on.
  abbrev pub kernel : System S → Kernel
  kernel s = record {
    scheduler = s.processes.scheduler;
    events = s.events;
    sleep = s.sleep;
    even_odd_flag = s.even_odd_flag;
    time_update_needers = s.time_update_needers;
  }

  abbrev pub with_kernel : System S → Kernel → System S
  with_kernel s k = record s {
    processes = record s.processes { scheduler = k.scheduler };
    events = k.events;
    sleep = k.sleep;
    even_odd_flag = k.even_odd_flag;
    time_update_needers = k.time_update_needers;
  }

  -- `save_context`.
  unfoldable pub save_context : Cpu → Processes S → Run (Processes S)
  save_context cpu p = do p ← set_stack_frame cpu.frame p; set_registers cpu.regs p

  unfoldable pub switch_context_to : ℕ → Processes S → Run (Cpu × Processes S)
  switch_context_to pid p =
      let p = record p { pid = pid } in
      do
        proc ← current p
        ok (
          record { frame = proc.stack_frame; regs = proc.registers },
          record p { cr3 = proc.page_table_frame },
        )

  -- Another process goes on, unless it is the one that runs.
  unfoldable pub change : ℕ → Cpu → Processes S → Run (Cpu × Processes S)
  change next cpu p =
      if next == p.pid then ok (cpu, p) else (save_context cpu p >>= switch_context_to next)

  -- The closure `schedule` after its test of `NO_SCHEDULE`.
  unfoldable pub reschedule : Cpu → System S → Run (Cpu × System S)
  reschedule cpu s = do
    (next, scheduler) ← Scheduler.timeup s.processes.scheduler
    (cpu, p) ← change next cpu (record s.processes { scheduler = scheduler })
    ok (
      deliver (Map.lookup next s.events.data_of) cpu,
      record s { processes = p; last_schedule = s.ticks },
    )

  -- The closure `schedule`: `NO_SCHEDULE` holds for a thousand ticks at most.
  unfoldable pub schedule : Cpu → System S → Run (Cpu × System S)
  schedule cpu s =
      if s.no_schedule
      then (if ltb 1000 (s.ticks - s.last_schedule)
          then reschedule cpu (record s { no_schedule = false })
          else ok (cpu, s))
      else reschedule cpu s

  -- `clock_handler`: the clock's handler counts the tick.
  unfoldable pub clock_handler : Cpu → System S → Run (Cpu × System S)
  clock_handler cpu s =
      let s = record s { ticks = s.ticks + 1 } in
      do
        k ← wake_sleeper s.ticks (kernel s)
        let s = with_kernel s k
        if s.processes.schedule && ltb 10 (s.ticks - s.last_schedule)
            then schedule cpu s
            else ok (cpu, s)

  -- Waiting for an event: the process to run next.
  abbrev pub wait_on : ℕ → System S → Run (ℕ × System S)
  wait_on event s = do
    (next, k) ← wait_for s.processes.pid event (kernel s)
    ok (next, with_kernel s k)

  unfoldable pub keyboard_input : System S → Run (ℕ × System S)
  keyboard_input s = wait_on 0 s

  -- `sleep_wakeup`.
  unfoldable pub sleeping : ℕ → System S → Run (ℕ × System S)
  sleeping time s =
      let (eid, sleep_id) = next_sleep_id s.sleep_id in
      do
        sleep ← add_sleep s.ticks time eid s.sleep
        ok (eid, record s { sleep_id = sleep_id; sleep = sleep })

  -- `dispatcher` of src/syskrnl/event/call.rs.
  unfoldable pub event_dispatcher : ℕ → ℕ → System S → Run (ℕ × System S)
  event_dispatcher event_id arg1 s =
      if event_id == 0
      then keyboard_input s
      else if event_id == 1
      then (sleeping arg1 s >>= λ r. wait_on r.0 r.1)
      else if event_id == 2
      then wait_on (gui_event s.processes.pid) s
      else ok (s.processes.pid, s)

  -- `proc_wait`: the registers are saved, and the next process goes on.
  unfoldable pub proc_wait : Cpu → System S → Run (Cpu × System S)
  proc_wait cpu s = do
    p ← save_context cpu s.processes
    (next, s) ← event_dispatcher cpu.regs.rax cpu.regs.rdi (record s { processes = p })
    (cpu, p) ← switch_context_to next s.processes
    ok (cpu, record s { processes = p })
