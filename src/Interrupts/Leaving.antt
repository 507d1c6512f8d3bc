-- ===== src/Interrupts/Leaving.antt =====
-- What `syscall_handler` of src/syskrnl/interrupts/mod.rs does when a program ends itself.
use tju_cinea_os.Prelude.{ℕ, ◌≤◌, ◌≡◌, refl, false, some, List, ◌∷◌, ◌++◌, ◌==◌, ok, get_elem?}
use tju_cinea_os.Prelude.Map
use tju_cinea_os.Prelude.Map.{nat_key}
use tju_cinea_os.Scheduler.Ring.{erase}
use tju_cinea_os.Scheduler.State.{rotation}
use tju_cinea_os.Scheduler.Stepped.{first_ready}
use tju_cinea_os.Scheduler.Table.{pid_of, skip_of}
use tju_cinea_os.Process.{Processes, Process, pool_insert}
use tju_cinea_os.Process.Create.{Machine}
use tju_cinea_os.Process.Pool.{IsPooled}
use tju_cinea_os.Process.Exited.{exit-IsPooled, exit-table}
use tju_cinea_os.Interrupts.{System, Cpu, switch_context_to}
use tju_cinea_os.Interrupts.Switch.{current_of}
use tju_cinea_os.Interrupts.Syscalls.{
  Services, resumed, answer, saved_before, dispatcher, syscall_handler, call_exit,
}

-- Who runs, and with which page table, is nothing to the pool.
switched-IsPooled :
    {S : Type 0} (q : Processes S) (pid cr3 : ℕ) (xs fs : List ℕ)
    → IsPooled q xs fs
    → IsPooled (record q { pid = pid; cr3 = cr3 }) xs fs
switched-IsPooled q pid cr3 xs fs w = record {
  ring = w.ring;
  order = w.order;
  free_below = w.free_below;
  live_below = w.live_below;
  split = w.split;
  own = w.own;
}

-- A program that ends itself by the system call `EXIT` does not go on: the processor gets the state in
-- which the next ready process was stopped, the page table of that process is in force, the id of the
-- ended one is free again, and the others keep their order in the scheduler's ring.
pub syscall_handler-exit :
    {S : Type 0} (m : Machine S) (services : Services S) (cpu : Cpu) (s : System S)
    (xs fs ys zs : List ℕ) (proc c : Process) (n b : ℕ)
    → cpu.regs.rax ≡ call_exit
    → IsPooled s.processes xs fs
    → 1 ≤ s.processes.pid
    → get_elem? s.processes.table s.processes.pid ≡ some proc
    → Map.lookup s.processes.pid s.processes.scheduler.pids ≡ some n
    → (n == s.processes.scheduler.head) ≡ false
    → skip_of s.processes.scheduler.table n ≡ false
    → s.processes.scheduler.cursor ≡ n
    → s.processes.scheduler.head ∷ xs ≡ ys ++ s.processes.scheduler.cursor ∷ zs
    → first_ready s.processes.scheduler.table (zs ++ ys) ≡ some b
    → get_elem? s.processes.table (pid_of s.processes.scheduler.table b) ≡ some c
    → (s' : System S) × (syscall_handler m services cpu s
        ≡ ok (resumed (record { frame = c.stack_frame; regs = c.registers }), s'))
      × (s'.processes.pid ≡ pid_of s.processes.scheduler.table b)
      × (s'.processes.cr3 ≡ c.page_table_frame)
      × IsPooled s'.processes (erase n xs) (n ∷ fs)
      × (s'.processes.pool ≡ pool_insert s.processes.pid s.processes.pool)
      × (rotation s'.processes.scheduler (erase n xs)
          ≡ erase s.processes.pid (rotation s.processes.scheduler xs))
unfolding syscall_handler saved_before dispatcher answer switch_context_to
syscall_handler-exit m services cpu s xs fs ys zs proc c n b call w pos at node other running cursor
      place ready there =
    let (q, done, pooled, pool, order) =
      exit-IsPooled m s.processes xs fs ys zs proc n b w pos at node other running cursor place
        ready in
    let next = pid_of s.processes.scheduler.table b in
    let table : q.table ≡ s.processes.table = exit-table m s.processes q next done in
    let found : get_elem? q.table next ≡ some c = rw table there in
    (
      record s { processes = record q { pid = next; cr3 = c.page_table_frame } },
      rw call (rw (done, current_of (record q { pid = next }) c found)),
      refl,
      refl,
      switched-IsPooled q next c.page_table_frame (erase n xs) (n ∷ fs) pooled,
      pool,
      order,
    )
