-- ===== src/Kernel.antt =====
-- What the kernel does when something happens: the handlers that wake the processes waiting for an
-- event (src/syskrnl/clock.rs, src/syskrnl/task/keyboard.rs, src/syskrnl/interrupts/mod.rs,
-- src/syskrnl/event/mod.rs), over the scheduler, the event queue and the sleepers together.
pub mod Handlers
use tju_cinea_os.Prelude.{
  ℕ, Bool, true, false, not, Option, none, some, List, [], ◌∷◌, Run, ok, ◌>>=◌, if◌then◌else◌,
}
use tju_cinea_os.Scheduler
use tju_cinea_os.Scheduler.{Scheduler}
use tju_cinea_os.Events
use tju_cinea_os.Events.{Events, EventQueue, wakeup_with_ret}
use tju_cinea_os.Events.Message.{gui_event_make_ret}
use tju_cinea_os.Events.Sleep.{Sleep, check_wakeup}

pub record Kernel : Type 0 where
  pub scheduler : Scheduler
  pub events : Events
  pub sleep : Sleep
  pub even_odd_flag : Bool
  pub time_update_needers : List ℕ

-- `SCHEDULER.lock().wakeup(pid)` for the process that was woken, if any.
unfoldable pub resume : Option ℕ → Kernel → Run Kernel
resume none k = ok k
resume (some pid) k = do
  (pid, s) ← Scheduler.wakeup k.scheduler pid
  ok (record k { scheduler = s })

unfoldable pub notify : ℕ → ℕ → Kernel → Run Kernel
notify eid ret k =
    let (ev, pid) = wakeup_with_ret eid ret k.events in resume pid (record k { events = ev })

unfoldable pub notify_all : List ℕ → ℕ → Kernel → Run Kernel
notify_all [] ret k = ok k
notify_all (eid ∷ eids) ret k = notify eid ret k >>= notify_all eids ret

abbrev pub gui_event_time_update : ℕ
gui_event_time_update = 3

abbrev pub gui_event_undk_key : ℕ
gui_event_undk_key = 4

abbrev pub keyboard_event : ℕ
keyboard_event = 0

-- Every second half second is a whole one, at which the needers are told.
unfoldable pub on_flag : Bool → Kernel → Run Kernel
on_flag true k = ok k
on_flag false k =
    notify_all k.time_update_needers (gui_event_make_ret gui_event_time_update 0 0 0) k

-- Without the clock's picture on the status bar.
unfoldable pub half_sec_handler : Kernel → Run Kernel
half_sec_handler k = on_flag k.even_odd_flag (record k { even_odd_flag = not k.even_odd_flag })

-- The handler of the other keys tells the processes that subscribed to the time.
unfoldable pub undk_handler : ℕ → Kernel → Run Kernel
undk_handler c k = notify_all k.time_update_needers (gui_event_make_ret gui_event_undk_key c 0 0) k

unfoldable pub key_event_handler : ℕ → Kernel → Run Kernel
key_event_handler ch k = notify keyboard_event ch k

-- The clock interrupt's part that wakes a sleeper.
unfoldable pub wake_sleeper : ℕ → Kernel → Run Kernel
wake_sleeper now k = do
  (sleep, events, pid) ← check_wakeup now k.sleep k.events
  resume pid (record k { sleep = sleep; events = events })

-- `wait_for`, with the running process given: the process to run next.
unfoldable pub wait_for : ℕ → ℕ → Kernel → Run (ℕ × Kernel)
wait_for id event k = do
  (next, s) ← Scheduler.wait k.scheduler
  ok (
    next,
    record k {
      scheduler = s;
      events = record k.events { events = Events.wait id event k.events.events };
    },
  )
