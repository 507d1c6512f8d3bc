-- ===== src/Scheduler.antt =====
-- src/syskrnl/schedule: the round-robin scheduler. Nodes live in a vector and are linked into a ring
-- by index; nodes of ended processes form a free list through `next`.
pub mod Table
pub mod Removed
pub mod Stepped
pub mod Added
pub mod State
pub mod Erased
pub mod Effects
pub mod Ring
pub mod Woken
use tju_cinea_os.Prelude.{
  ℕ, zero, suc, ◌-◌, Bool, true, false, Option, none, some, List, [], ◌∷◌, ◌++◌, Run, ok, panic,
  out_of_fuel, ◌>>=◌, index, set_index, unwrap, length, ◌==◌, if◌then◌else◌,
}
use tju_cinea_os.Prelude.Map
use tju_cinea_os.Prelude.Map.{Map, nat_key}

-- `RoundRollNode`.
pub record Node : Type 0 where
  pub pid : ℕ
  pub is_empty : Bool
  pub skip : Bool
  pub next : ℕ
  pub prev : ℕ

-- `RoundRollScheduler`.
pub record Scheduler : Type 0 where
  pub table : List Node
  pub pids : Map ℕ ℕ
  pub head : ℕ
  pub empty : ℕ
  pub cursor : ℕ

-- `RoundRollNode::new`.
abbrev pub new_node : Node
new_node = record { pid = 0; is_empty = false; skip = false; next = 0; prev = 0 }

-- `RoundRollScheduler::new`: one node, for process 0.
unfoldable pub new : Scheduler
new = record { table = new_node ∷ []; pids = Map.insert 0 0 []; head = 0; empty = 0; cursor = 0 }

-- Writes of one field of `table[i]`.
abbrev pub set_next : List Node → ℕ → ℕ → Run (List Node)
set_next t i v = do n ← index t i; set_index t i (record n { next = v })

abbrev pub set_prev : List Node → ℕ → ℕ → Run (List Node)
set_prev t i v = do n ← index t i; set_index t i (record n { prev = v })

abbrev pub set_pid : List Node → ℕ → ℕ → Run (List Node)
set_pid t i v = do n ← index t i; set_index t i (record n { pid = v })

abbrev pub set_empty : List Node → ℕ → Bool → Run (List Node)
set_empty t i v = do n ← index t i; set_index t i (record n { is_empty = v })

abbrev pub set_skip : List Node → ℕ → Bool → Run (List Node)
set_skip t i v = do n ← index t i; set_index t i (record n { skip = v })

-- `RoundRollScheduler::alloc`: the node's index and the new state.
unfoldable pub alloc : Scheduler → Run (ℕ × Scheduler)
alloc s = do
  free ← index s.table s.empty
  if free.is_empty
      then ok (s.empty, record s { empty = free.next })
      else ok (length s.table, record s { table = s.table ++ new_node ∷ [] })

-- `RoundRollScheduler::dealloc`.
unfoldable pub dealloc : Scheduler → ℕ → Run Scheduler
dealloc s node = do
  n ← index s.table node
  let head = if s.head == node then n.next else s.head
  t ← set_next s.table n.prev n.next
  t ← set_prev t n.next n.prev
  t ← set_empty t node true
  t ← set_next t node s.empty
  ok (record s { table = t; head = head; empty = node })

-- The writes of `RoundRollScheduler::add` to the table: `node` goes between the last node of the
-- ring and its head.
unfoldable pub link : List Node → ℕ → ℕ → ℕ → Run (List Node)
link t head node process_id = do
  t ← set_pid t node process_id
  h ← index t head
  let prev = h.prev
  t ← set_next t prev node
  t ← set_prev t head node
  t ← set_prev t node prev
  set_next t node head

-- `RoundRollScheduler::add`.
unfoldable pub add : Scheduler → ℕ → Run Scheduler
add s process_id = do
  (node, s) ← alloc s
  t ← link s.table s.head node process_id
  ok (record s { table = t; pids = Map.insert process_id node s.pids })

-- `RoundRollScheduler::now`.
unfoldable pub now : Scheduler → Run ℕ
now s = do n ← index s.table s.cursor; ok n.pid

-- The loop of `RoundRollScheduler::step`: from `cursor` past the nodes that are to be skipped.
unfoldable pub skip_loop : ℕ → List Node → ℕ → Run ℕ
skip_loop zero t cursor = out_of_fuel
skip_loop (suc fuel) t cursor = do
  n ← index t cursor
  let rest = skip_loop fuel t n.next
  if n.skip then rest else ok cursor

-- `RoundRollScheduler::step`: the new state; the code returns `now` of it.
unfoldable pub step : Scheduler → Run Scheduler
step s = do
  n ← index s.table s.cursor
  cursor ← skip_loop (suc (length s.table)) s.table n.next
  ok (record s { cursor = cursor })

-- `RoundRollScheduler::remove`.
unfoldable pub remove : Scheduler → ℕ → Run Scheduler
remove s process_id = elim (Map.lookup process_id s.pids) [
  | none ↦ ok s
  | some node ↦ do
    s ← (if s.cursor == node then step s else ok s)
    s ← dealloc s node
    ok (record s { pids = Map.remove process_id s.pids })
]

-- The methods of `ProcessScheduler`: each returns the process to run and the new state.
abbrev pub with_now : Scheduler → Run (ℕ × Scheduler)
with_now s = do pid ← now s; ok (pid, s)

unfoldable pub add_process : Scheduler → ℕ → Run (ℕ × Scheduler)
add_process s process_id = do
  s ← add s process_id
  node ← unwrap (Map.lookup process_id s.pids)
  with_now (record s { cursor = node })

unfoldable pub terminate : Scheduler → ℕ → Run (ℕ × Scheduler)
terminate s process_id = do s ← remove s process_id; with_now s

unfoldable pub timeup : Scheduler → Run (ℕ × Scheduler)
timeup s = do s ← step s; with_now s

unfoldable pub giveup : Scheduler → Run (ℕ × Scheduler)
giveup s = do s ← step s; with_now s

unfoldable pub wait : Scheduler → Run (ℕ × Scheduler)
wait s = do t ← set_skip s.table s.cursor true; s ← step (record s { table = t }); with_now s

unfoldable pub wakeup : Scheduler → ℕ → Run (ℕ × Scheduler)
wakeup s process = elim (Map.lookup process s.pids) [
  | none ↦ with_now s
  | some node ↦ do t ← set_skip s.table node false; with_now (record s { table = t })
]
