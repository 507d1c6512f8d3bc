-- ===== src/Kernel/Handlers.antt =====
-- The handlers keep the scheduler whole (src/syskrnl/clock.rs, src/syskrnl/task/keyboard.rs,
-- src/syskrnl/interrupts/mod.rs).
use tju_cinea_os.Prelude.{
  ℕ, Bool, true, false, not, ◌≡◌, ◌∙◌, refl, sym, subst, Option, none, some, List, [], ◌∷◌, Run, ok,
}
use tju_cinea_os.Scheduler.State.{IsRing}
use tju_cinea_os.Scheduler.Woken.{wakeup-Awake}
use tju_cinea_os.Events.{wakeup_with_ret}
use tju_cinea_os.Events.Message.{gui_event_make_ret}
use tju_cinea_os.Events.Sleep.Fifo.{Sleepers, Represents, fifo_check, check_wakeup-fifo_check}
use tju_cinea_os.Kernel.{
  Kernel, resume, notify, notify_all, on_flag, half_sec_handler, undk_handler, key_event_handler,
  wake_sleeper, gui_event_time_update, gui_event_undk_key, keyboard_event,
}

-- A run that ends with the same processes in the scheduler's ring, and the same sleepers.
pub record Keeps (k : Kernel) (xs fs : List ℕ) (r : Run Kernel) : Type 0 where
  pub out : Kernel
  pub done : r ≡ ok out
  pub ring : IsRing out.scheduler xs fs
  pub same_sleep : out.sleep ≡ k.sleep

resume-Keeps :
    (pid : Option ℕ) (k : Kernel) (xs fs : List ℕ)
    → IsRing k.scheduler xs fs
    → Keeps k xs fs (resume pid k)
unfolding resume
resume-Keeps none k xs fs r = record { out = k; done = refl; ring = r; same_sleep = refl }
resume-Keeps (some pid) k xs fs r =
    let w = wakeup-Awake k.scheduler pid xs fs r in
    rw (w.done) (record {
      out = record k { scheduler = w.out };
      done = refl;
      ring = w.ring;
      same_sleep = refl;
    })

notify-Keeps :
    (eid ret : ℕ) (k : Kernel) (xs fs : List ℕ)
    → IsRing k.scheduler xs fs
    → Keeps k xs fs (notify eid ret k)
unfolding notify
notify-Keeps eid ret k xs fs r =
    let w = wakeup_with_ret eid ret k.events in
    let m = resume-Keeps w.1 (record k { events = w.0 }) xs fs r in
    record { out = m.out; done = m.done; ring = m.ring; same_sleep = m.same_sleep }

notify_all-Keeps :
    (eids : List ℕ) (ret : ℕ) (k : Kernel) (xs fs : List ℕ)
    → IsRing k.scheduler xs fs
    → Keeps k xs fs (notify_all eids ret k)
unfolding notify_all
notify_all-Keeps [] ret k xs fs r = record { out = k; done = refl; ring = r; same_sleep = refl }
notify_all-Keeps (eid ∷ eids) ret k xs fs r =
    let m = notify-Keeps eid ret k xs fs r in
    let n = notify_all-Keeps eids ret m.out xs fs m.ring in
    rw m.done (record {
      out = n.out;
      done = n.done;
      ring = n.ring;
      same_sleep = n.same_sleep ∙ m.same_sleep;
    })

on_flag-Keeps :
    (flag : Bool) (k : Kernel) (xs fs : List ℕ)
    → IsRing k.scheduler xs fs
    → Keeps k xs fs (on_flag flag k)
unfolding on_flag
on_flag-Keeps true k xs fs r = record { out = k; done = refl; ring = r; same_sleep = refl }
on_flag-Keeps false k xs fs r =
    notify_all-Keeps k.time_update_needers (gui_event_make_ret gui_event_time_update 0 0 0) k xs fs
      r

-- The handlers of the half second, of a key with a character and of any other key never panic and
-- keep the processes in the scheduler's ring, whoever waits.
pub handlers-Keeps :
    (c : ℕ) (k : Kernel) (xs fs : List ℕ)
    → IsRing k.scheduler xs fs
    → Keeps k xs fs (half_sec_handler k)
      × Keeps k xs fs (key_event_handler c k)
      × Keeps k xs fs (undk_handler c k)
unfolding half_sec_handler key_event_handler undk_handler
handlers-Keeps c k xs fs r =
    let h =
      on_flag-Keeps k.even_odd_flag (record k { even_odd_flag = not k.even_odd_flag }) xs fs r in
    (
      record { out = h.out; done = h.done; ring = h.ring; same_sleep = h.same_sleep },
      notify-Keeps keyboard_event c k xs fs r,
      notify_all-Keeps k.time_update_needers (gui_event_make_ret gui_event_undk_key c 0 0) k xs fs
          r,
    )

-- The clock interrupt's look for a sleeper never panics, keeps the processes in the scheduler's ring,
-- and takes at most the first sleeper out of the queue of sleepers.
pub wake_sleeper_lem :
    (now : ℕ) (k : Kernel) (l : Sleepers) (xs fs : List ℕ)
    → IsRing k.scheduler xs fs
    → Represents k.sleep l
    → (k' : Kernel) × (wake_sleeper now k ≡ ok k')
      × IsRing k'.scheduler xs fs
      × Represents k'.sleep (fifo_check now l k.events).0
unfolding wake_sleeper
wake_sleeper_lem now k l xs fs r q =
    let (s, e, q') = check_wakeup-fifo_check now k.sleep l k.events q in
    let f = fifo_check now l k.events in
    let m = resume-Keeps f.2 (record k { sleep = s; events = f.1 }) xs fs r in
    rw e (m.out, m.done, m.ring, subst (λ z. Represents z f.0) (sym m.same_sleep) q')
