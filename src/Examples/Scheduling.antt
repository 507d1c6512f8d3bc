-- ===== src/Examples/Scheduling.antt =====
-- Two processes in the ring, and a kernel in which the second waits for a key.
use tju_cinea_os.Prelude.{ℕ, zero, suc, ◌≡◌, refl, false, some, [], ◌∷◌, ◌++◌, ok, arith}
use tju_cinea_os.Prelude.Map
use tju_cinea_os.Prelude.Map.{nat_key}
use tju_cinea_os.Scheduler.{Scheduler, Node, timeup}
use tju_cinea_os.Scheduler.Table.{pid_of, node_at}
use tju_cinea_os.Scheduler.Ring.{◌∈◌}
use tju_cinea_os.Scheduler.State.{IsRing}
use tju_cinea_os.Scheduler.Added.{Added, add_process-Added}
use tju_cinea_os.Scheduler.Stepped.{first_ready, timeup-first_ready}
use tju_cinea_os.Scheduler.Removed.{Ended, terminate-Ended}
use tju_cinea_os.Scheduler.Woken.{Awake, wakeup-Awake}
use tju_cinea_os.Events.{Events, EventQueue, waiters}
use tju_cinea_os.Events.Drain.{drain, drain_order, of_proc, of_others}
use tju_cinea_os.Events.Sleep.{Sleep, add_sleep, check_wakeup}
use tju_cinea_os.Events.Sleep.Fifo.{
  Represents, add_sleep-Represents, check_wakeup-fifo_check, fifo_check, times, due_at, Sleepers,
}

abbrev pub node_0 : Node
node_0 = record { pid = 0; is_empty = false; skip = false; next = 1; prev = 1 }

abbrev pub node_1 : Node
node_1 = record { pid = 1; is_empty = false; skip = false; next = 0; prev = 0 }

abbrev pub two : Scheduler
two = record {
  table = node_0 ∷ node_1 ∷ [];
  pids = (0, 0) ∷ (1, 1) ∷ [];
  head = 0;
  empty = 0;
  cursor = 1;
}

two_known : (i : ℕ) → i ∈ 0 ∷ 1 ∷ [] → Map.lookup (pid_of two.table i) two.pids ≡ some i
unfolding node_at Map.lookup
two_known zero h = refl
two_known (suc zero) h = refl
two_known (suc (suc i)) h = ground arith

two_found : (p i : ℕ) → Map.lookup p two.pids ≡ some i → (i ∈ 0 ∷ 1 ∷ []) × (pid_of two.table i ≡ p)
unfolding node_at Map.lookup
two_found zero zero h = (refl, refl)
two_found zero (suc i) h = ground arith
two_found (suc zero) (suc zero) h = (refl, refl)
two_found (suc zero) zero h = ground arith
two_found (suc zero) (suc (suc i)) h = ground arith
two_found (suc (suc p)) i h = ground arith

pub two-IsRing : IsRing two (1 ∷ []) []
unfolding node_at
two-IsRing = record {
  links = (refl, refl, (refl, refl));
  distinct = (refl, tt);
  head_out = refl;
  inside = λ i h. ground arith;
  cursor_in = refl;
  head_used = refl;
  free = refl;
  free_inside = λ i h. ground arith;
  free_distinct = tt;
  free_ready = λ i h. ground arith;
  apart = λ i h. ground arith;
  fits = omega arith;
  known = two_known;
  found = two_found;
}

add_process-Added_example : Added two 2 (1 ∷ [])
unfolding Map.lookup
add_process-Added_example = add_process-Added two 2 (1 ∷ []) [] two-IsRing refl

timeup-first_ready_example :
    (timeup two ≡ ok (pid_of two.table 0, record two { cursor = 0 }))
    × IsRing (record two { cursor = 0 }) (1 ∷ []) []
unfolding first_ready node_at
timeup-first_ready_example = timeup-first_ready two (1 ∷ []) [] (0 ∷ []) [] 0 two-IsRing refl refl

terminate-Ended_example : Ended two 1 1 0 (1 ∷ []) []
unfolding first_ready node_at Map.lookup
terminate-Ended_example =
    terminate-Ended two 1 1 0 (1 ∷ []) [] (0 ∷ []) [] two-IsRing refl refl refl refl refl refl

wakeup-Awake_example : Awake two 1 (1 ∷ []) []
wakeup-Awake_example = wakeup-Awake two 1 (1 ∷ []) [] two-IsRing

-- Process 1, in front, and process 0 wait for event 0.
abbrev pub waiting : EventQueue
waiting = record { queue = (0, 0 ∷ 1 ∷ []) ∷ []; front_proc = 1 }

abbrev pub events : Events
events = record { events = waiting; data_of = []; need_check = false }

drain_order_example :
    drain 2 0 waiting ≡ of_proc 1 (waiters 0 waiting) ++ of_others 1 (waiters 0 waiting)
unfolding Map.lookup
drain_order_example = drain_order 2 0 waiting refl

-- One sleeper, due at 50, who waits for event 0.
abbrev pub sleeping : Sleep
sleeping = record { wakeup_queue = 50 ∷ []; wakeup_map = (50, 0 ∷ []) ∷ [] }

abbrev pub sleepers : Sleepers
sleepers = (50, 0) ∷ []

pub sleeping-Represents : Represents sleeping sleepers
unfolding times due_at Map.lookup
sleeping-Represents = (refl, λ t. ground arith)

check_wakeup-fifo_check_example :
    (s' : Sleep) × (check_wakeup 60 sleeping events
      ≡ ok (s', (fifo_check 60 sleepers events).1, (fifo_check 60 sleepers events).2))
    × Represents s' (fifo_check 60 sleepers events).0
check_wakeup-fifo_check_example =
    check_wakeup-fifo_check 60 sleeping sleepers events sleeping-Represents

add_sleep-Represents_example :
    (s' : Sleep) × (add_sleep 10 500 3 sleeping ≡ ok s')
    × Represents s' (sleepers ++ ((510, 3) ∷ []))
add_sleep-Represents_example =
    add_sleep-Represents 10 500 3 sleeping sleepers sleeping-Represents (omega arith) (omega arith)
