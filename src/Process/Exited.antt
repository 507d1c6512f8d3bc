-- ===== src/Process/Exited.antt =====
-- What `exit` of src/syskrnl/proc.rs does to the free ids and the scheduler's ring.
use tju_cinea_os.Prelude.{
  ℕ, ◌≤◌, ◌<◌, ◌≡◌, refl, sym, subst, false, not, ◌&&◌, some, List, ◌∷◌, ◌++◌, arith, ◌==◌, ok,
  get_elem?, >>=-eq_ok,
}
use tju_cinea_os.Prelude.Map
use tju_cinea_os.Prelude.Map.{nat_key}
use tju_cinea_os.Scheduler.{Scheduler, terminate}
use tju_cinea_os.Scheduler.Ring.{mem, erase}
use tju_cinea_os.Scheduler.State.{rotation}
use tju_cinea_os.Scheduler.Removed.{Ended, terminate-Ended}
use tju_cinea_os.Scheduler.Stepped.{first_ready}
use tju_cinea_os.Scheduler.Table.{pid_of, skip_of}
use tju_cinea_os.Process.{Processes, Process, current, pool_insert, max_procs, max_proc_size}
use tju_cinea_os.Memory.{dealloc_pages}
use tju_cinea_os.Process.Create.{Machine}
use tju_cinea_os.Process.Spawn.{exit}
use tju_cinea_os.Process.Pids.{
  pool_insert-Ascending, mem-pool_insert, rotation-AllDistinct, in_ring, mem_of_erased,
}
use tju_cinea_os.Process.Pool.{IsPooled}

module _ {S : Type 0} (m : Machine S) (p : Processes S) where
  abbrev exited : Process → Scheduler → Processes S
  exited proc s = record p {
    tables = dealloc_pages (m.mapper m.boot_table) proc.code_addr max_proc_size p.tables;
    pool = pool_insert p.pid p.pool;
    scheduler = s;
  }

  exit_run :
      (proc : Process) (next : ℕ) (s : Scheduler)
      → get_elem? p.table p.pid ≡ some proc
      → terminate p.scheduler proc.id ≡ ok (next, s)
      → exit m p ≡ ok (next, exited proc s)
  unfolding exit current
  exit_run proc next s at done = rw (at, done)

  -- Ending a process leaves the process table as it is.
  pub exit-table : (q : Processes S) (next : ℕ) → exit m p ≡ ok (next, q) → q.table ≡ p.table
  unfolding exit
  exit-table q next h =
      let (proc, _, e) = >>=-eq_ok (current p) _ h in
      let (r, _, f) = >>=-eq_ok (terminate p.scheduler proc.id) _ e in ground arith

  module _ (xs fs : List ℕ) (proc : Process) (n b : ℕ) (w : IsPooled p xs fs) (pos : 1 ≤ p.pid)
      (below : p.pid < max_procs) (e : Ended p.scheduler p.pid n b xs fs) where
    in_erased :
        (q : ℕ)
        → mem q (rotation e.out (erase n xs))
          ≡ (not (q == p.pid) && mem q (rotation p.scheduler xs))
    in_erased q = ground (
      arith,
      e.order,
      mem_of_erased q p.pid (rotation p.scheduler xs)
          (rotation-AllDistinct p.scheduler xs fs w.ring),
    )

    exited-IsPooled : IsPooled (exited proc e.out) (erase n xs) (n ∷ fs)
    exited-IsPooled = record {
      ring = e.ring;
      order = pool_insert-Ascending 1 p.pid p.pool pos w.order;
      free_below = λ q h. ground (arith, mem-pool_insert q p.pid p.pool, w.free_below q);
      live_below = λ q h. ground (arith, in_erased q, w.live_below q);
      split =
          λ q lo hi. ground (arith, mem-pool_insert q p.pid p.pool, in_erased q, w.split q lo hi);
      own = λ q proc h at. ground (arith, in_erased q, w.own q proc);
    }

-- `exit` of a running process other than the first one gives its id back to the pool, takes it out of
-- the scheduler's ring, and gives the next process that is ready; and each id stays either free or in
-- the ring.
pub exit-IsPooled :
    {S : Type 0} (m : Machine S) (p : Processes S) (xs fs ys zs : List ℕ) (proc : Process) (n b : ℕ)
    → IsPooled p xs fs
    → 1 ≤ p.pid
    → get_elem? p.table p.pid ≡ some proc
    → Map.lookup p.pid p.scheduler.pids ≡ some n
    → (n == p.scheduler.head) ≡ false
    → skip_of p.scheduler.table n ≡ false
    → p.scheduler.cursor ≡ n
    → p.scheduler.head ∷ xs ≡ ys ++ p.scheduler.cursor ∷ zs
    → first_ready p.scheduler.table (zs ++ ys) ≡ some b
    → (q : Processes S) × (exit m p ≡ ok (pid_of p.scheduler.table b, q))
      × IsPooled q (erase n xs) (n ∷ fs)
      × (q.pool ≡ pool_insert p.pid p.pool)
      × (rotation q.scheduler (erase n xs) ≡ erase p.pid (rotation p.scheduler xs))
exit-IsPooled m p xs fs ys zs proc n b w pos at node other running cursor place ready =
    let own = w.own p.pid proc (in_ring p.scheduler xs fs w.ring p.pid n node) at in
    let e =
      terminate-Ended p.scheduler p.pid n b xs fs ys zs w.ring node other running cursor place
        ready in
    (
      exited m p proc e.out,
      exit_run m p proc (pid_of p.scheduler.table b) e.out at (
          subst (λ i. terminate p.scheduler i ≡ ok (pid_of p.scheduler.table b, e.out)) (sym own)
            e.done),
      exited-IsPooled m p xs fs proc n b w pos
          (w.live_below p.pid (in_ring p.scheduler xs fs w.ring p.pid n node)) e,
      refl,
      e.order,
    )
