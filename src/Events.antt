-- ===== src/Events.antt =====
-- Events that processes wait for (src/syskrnl/event/mod.rs, src/syskrnl/event/service.rs).
use tju_cinea_os.Prelude.{
  ℕ, zero, suc, ◌+◌, Bool, true, false, Option, none, some, List, [], ◌∷◌, ◌++◌, ◌==◌,
  if◌then◌else◌, leb,
}
use tju_cinea_os.Prelude.Map.{Map, nat_key, lookup, insert}
pub mod Message
pub mod Drain
pub mod Sleep

pub record EventQueue : Type 0 where
  pub queue : Map ℕ (List ℕ)
  pub front_proc : ℕ

abbrev pub new : EventQueue
new = record { queue = []; front_proc = 1 }

unfoldable pub switch_front : ℕ → EventQueue → EventQueue
switch_front new_front q = record q { front_proc = new_front }

-- The value of an entry, or the default it gets when it is missing.
abbrev pub waiters : ℕ → EventQueue → List ℕ
waiters event q = elim (lookup event q.queue) [ none ↦ [] | some pids ↦ pids ]

-- `wait`, which `wait_for_register_only` is too, with the process given.
unfoldable pub wait : ℕ → ℕ → EventQueue → EventQueue
wait pid eid q = record q { queue = insert eid (waiters eid q ++ (pid ∷ [])) q.queue }

unfoldable pub position : ℕ → List ℕ → Option ℕ
position x [] = none
position x (y ∷ ys) =
    let rest = position x ys in
    if y == x then some 0 else elim rest [ none ↦ none | some i ↦ some (suc i) ]

unfoldable pub remove_at : ℕ → List ℕ → List ℕ
remove_at i [] = []
remove_at zero (x ∷ xs) = xs
remove_at (suc i) (x ∷ xs) = x ∷ remove_at i xs

-- The front process if it waits (the position of its entry is given), else the first that does.
unfoldable pub chosen : ℕ → ℕ → List ℕ → EventQueue → Option ℕ → EventQueue × Option ℕ
chosen event pid pids q (some fp) =
    (record q { queue = insert event (remove_at fp (pid ∷ pids)) q.queue }, some q.front_proc)
chosen event pid pids q none = (record q { queue = insert event pids q.queue }, some pid)

unfoldable pub wakeup_from : ℕ → EventQueue → Option (List ℕ) → EventQueue × Option ℕ
wakeup_from event q none = (q, none)
wakeup_from event q (some []) = (q, none)
wakeup_from event q (some (pid ∷ pids)) =
    chosen event pid pids q (position q.front_proc (pid ∷ pids))

unfoldable pub wakeup : ℕ → EventQueue → EventQueue × Option ℕ
wakeup event q = wakeup_from event q (lookup event q.queue)

-- The queue with the values that woken processes find (`EVENT_DATA`) and the flag that says there
-- are some (`NEED_CHECK_EVENT_DATA`).
pub record Events : Type 0 where
  pub events : EventQueue
  pub data_of : Map ℕ ℕ
  pub need_check : Bool

unfoldable pub stored : ℕ → EventQueue × Option ℕ → Events → Events × Option ℕ
stored ret (q, none) s = (record s { events = q }, none)
stored ret (q, some pid) s =
    (record s { events = q; data_of = insert pid ret s.data_of; need_check = true }, some pid)

unfoldable pub wakeup_with_ret : ℕ → ℕ → Events → Events × Option ℕ
wakeup_with_ret event ret s = stored ret (wakeup event s.events) s

-- The event numbers of sleeping: the one given out, and the counter after it.
abbrev pub sleep_eid_start : ℕ
sleep_eid_start = 1000000

unfoldable pub next_sleep_id : ℕ → ℕ × ℕ
next_sleep_id sleep_id = (
  sleep_id,
  if leb (sleep_eid_start + 1000000) (sleep_id + 1) then sleep_eid_start else sleep_id + 1,
)

abbrev pub gui_eid_start : ℕ
gui_eid_start = 2000000

unfoldable pub gui_event : ℕ → ℕ
gui_event pid = gui_eid_start + pid
