-- ===== src/Process/Pool.antt =====
-- The free process ids and the scheduler's processes of src/syskrnl/proc.rs: each id from 1 on is
-- either free or in the ring, through `spawn` and `exit`.
use tju_cinea_os.Prelude.{
  ℕ, ◌+◌, ◌≤◌, ◌<◌, ◌≡◌, refl, sym, subst, not, ◌||◌, Option, none, some, List, [], ◌∷◌, ◌++◌,
  arith, ◌==◌, ok, >>=-eq_ok, index, set_index, get_elem?, get_elem?-set_index, if◌then◌else◌,
}
use tju_cinea_os.Prelude.Map.{nat_key}
use tju_cinea_os.Allocator
use tju_cinea_os.Allocator.{Heap}
use tju_cinea_os.Fs.Path.{Bytes}
use tju_cinea_os.Scheduler.{add_process}
use tju_cinea_os.Scheduler.Ring.{mem, mem-append, ◌∈◌, ◌∉◌}
use tju_cinea_os.Scheduler.State.{IsRing, rotation}
use tju_cinea_os.Scheduler.Added.{Added, add_process-Added}
use tju_cinea_os.Process.{Processes, Process, current, with_heap, max_procs}
use tju_cinea_os.Process.Create.{Machine, create}
use tju_cinea_os.Process.Exec.{Launch, exec, read_pairs, check_args}
use tju_cinea_os.Process.Spawn.{launch, spawn}
use tju_cinea_os.Process.Made.{core, Made, create-Made}
use tju_cinea_os.Process.Pids.{Ascending, not_mem_below, Ascending-weaken, not_in_ring}

-- The scheduler's ring is whole; the free ids are in ascending order; an id from 1 to 15 is free
-- exactly if it is not in the ring; and the process of an id in the ring has that id.
pub record IsPooled {S : Type 0} (p : Processes S) (xs fs : List ℕ) : Type 0 where
  pub ring : IsRing p.scheduler xs fs
  pub order : Ascending 1 p.pool
  pub free_below : (q : ℕ) → q ∈ p.pool → q < max_procs
  pub live_below : (q : ℕ) → q ∈ rotation p.scheduler xs → q < max_procs
  pub split : (q : ℕ) → 1 ≤ q → q < max_procs → mem q p.pool ≡ not (mem q (rotation p.scheduler xs))
  pub own :
      (q : ℕ) (proc : Process)
      → q ∈ rotation p.scheduler xs
      → get_elem? p.table q ≡ some proc
      → proc.id ≡ q

module _ {S : Type 0} where
  with_heap-core :
      (p q : Processes S) (at : ℕ) (heap : Heap) → with_heap p at heap ≡ ok q → core q ≡ core p
  with_heap-core p q at heap h =
      let (hs, _, e) = >>=-eq_ok (set_index p.heaps at heap) _ h in ground arith

  -- What `exec` leaves of the parts that the pool is about.
  record Executed (r : Processes S) (proc : Process) (q : Processes S) : Type 0 where
    next : ℕ
    pool : q.pool ≡ r.pool
    table : q.table ≡ r.table
    pid : q.pid ≡ proc.id
    added : add_process r.scheduler proc.id ≡ ok (next, q.scheduler)

  exec-Executed :
      (m : Machine S) (proc : Process) (a n : ℕ) (r q : Processes S) {l : Launch}
      → exec m proc a n r ≡ ok (l, q)
      → Executed r proc q
  unfolding exec
  exec-Executed m proc a n r q h =
      let args = read_pairs n r.memory a in
      let (_, _, e1) = >>=-eq_ok (current r) _ h in
      let (_, _, e2) = >>=-eq_ok (check_args m.is_utf8 r.memory args) _ e1 in
      let (heap, _, e3) = >>=-eq_ok (index r.heaps proc.allocator) _ e2 in
      let ((heap', ptr), _, e4) =
        >>=-eq_ok (Allocator.alloc (record { size = 1024; align = 1 }) heap) _ e3 in
      let (r', w, e5) = >>=-eq_ok (with_heap r proc.allocator heap') _ e4 in
      let c = with_heap-core r r' proc.allocator heap' w in
      let (s, added, e6) = >>=-eq_ok (add_process r'.scheduler proc.id) _ e5 in
      record {
        next = s.0;
        pool = ground arith;
        table = ground arith;
        pid = ground arith;
        added = ground arith;
      }

  launched :
      (m : Machine S) (a n : ℕ) (o : Option ℕ) (r q : Processes S) (l : Launch)
      → launch m a n (o, r) ≡ ok (some l, q)
      → (id : ℕ) × (proc : Process) × (o ≡ some id)
        × (index r.table id ≡ ok proc)
        × Executed r proc q
  unfolding launch
  launched m a n none r q l h = ground arith
  launched m a n (some id) r q l h =
      let (proc, at, e) = >>=-eq_ok (index r.table id) _ h in
      let ((l', q'), done, e') = >>=-eq_ok (exec m proc a n r) _ e in
      let x = exec-Executed m proc a n r q' done in
      let same : q' ≡ q = ground arith in (id, proc, refl, at, subst (Executed r proc) same x)

  -- The states of the pool and the scheduler around a launch.
  module _ (p r q : Processes S) (xs fs : List ℕ) (w : IsPooled p xs fs) (id : ℕ) (proc : Process)
      (made : Made p id p.next_code_addr r) (at : index r.table id ≡ ok proc)
      (x : Executed r proc q) where
    table_after :
        (j : ℕ) → get_elem? q.table j ≡ (if j == id then some made.proc else get_elem? p.table j)
    table_after j =
        ground (arith, x.table, get_elem?-set_index p.table id made.proc r.table j made.stored)

    same_proc : proc ≡ made.proc
    same_proc = ground (arith, get_elem?-set_index p.table id made.proc r.table id made.stored)

    fresh : id ∉ rotation p.scheduler xs
    fresh = ground (arith, w.order, w.split id, w.free_below id, made.first)

    added : Added p.scheduler id xs
    added =
        add_process-Added p.scheduler id xs fs w.ring
          (not_in_ring p.scheduler xs fs w.ring id fresh)

    same_scheduler : q.scheduler ≡ added.out
    same_scheduler = ground (arith, added.done, same_proc, x.added, made.scheduler, made.own_id)

    same_pid : q.pid ≡ id
    same_pid = ground (arith, same_proc, x.pid, made.own_id)

    same_pool : p.pool ≡ id ∷ q.pool
    same_pool = ground (arith, x.pool, made.first)

    rotation_after :
        rotation q.scheduler (xs ++ added.node ∷ []) ≡ rotation p.scheduler xs ++ id ∷ []
    rotation_after =
        subst (λ s. rotation s (xs ++ added.node ∷ []) ≡ rotation p.scheduler xs ++ id ∷ [])
          (sym same_scheduler) added.order

    in_rotation :
        (j : ℕ)
        → mem j (rotation q.scheduler (xs ++ added.node ∷ []))
          ≡ (mem j (rotation p.scheduler xs) || (j == id))
    in_rotation j = ground (arith, rotation_after, mem-append j (rotation p.scheduler xs) (id ∷ []))

    spawn-split :
        (j : ℕ)
        → 1 ≤ j
        → j < max_procs
        → mem j q.pool ≡ not (mem j (rotation q.scheduler (xs ++ added.node ∷ [])))
    spawn-split j a b =
        ground (
          arith,
          in_rotation j,
          w.split j a b,
          w.order,
          same_pool,
          not_mem_below (id + 1) id q.pool,
        )

    own_after :
        (j : ℕ) (proc : Process)
        → j ∈ rotation q.scheduler (xs ++ added.node ∷ [])
        → get_elem? q.table j ≡ some proc
        → proc.id ≡ j
    own_after j proc' h e = ground (arith, in_rotation j, table_after j, made.own_id, w.own j proc')

    IsPooled-after : IsPooled q (xs ++ added.node ∷ []) added.rest
    IsPooled-after = record {
      ring =
          subst (λ s. IsRing s (xs ++ added.node ∷ []) added.rest) (sym same_scheduler) added.ring;
      order = ground (arith, w.order, same_pool, Ascending-weaken (id + 1) 1 q.pool);
      free_below = λ j h. ground (arith, w.free_below j, same_pool);
      live_below = λ j h. ground (arith, in_rotation j, w.live_below j, w.free_below id, same_pool);
      split = spawn-split;
      own = own_after;
    }

-- A program that `spawn` starts runs under the lowest free id, which leaves the pool and joins the
-- end of the scheduler's ring; and each id stays either free or in the ring.
pub spawn-IsPooled :
    {S : Type 0} (m : Machine S) (bin : Bytes) (args_ptr args_len : ℕ) (p q : Processes S)
    (xs fs : List ℕ) (l : Launch)
    → IsPooled p xs fs
    → spawn m bin args_ptr args_len p ≡ ok (some l, q)
    → (xs' : List ℕ) × (fs' : List ℕ) × IsPooled q xs' fs'
      × (p.pool ≡ q.pid ∷ q.pool)
      × (rotation q.scheduler xs' ≡ rotation p.scheduler xs ++ q.pid ∷ [])
unfolding spawn
spawn-IsPooled m bin a n p q xs fs l w h =
    let ((o, r), done, e) = >>=-eq_ok (create m bin p) (launch m a n) h in
    let (id, proc, same, at, x) = launched m a n o r q l e in
    let made = create-Made m bin p r id (subst (λ o. create m bin p ≡ ok (o, r)) same done) in
    let s = added p r q xs fs w id proc made at x in
    let i = same_pid p r q xs fs w id proc made at x in
    (
      xs ++ s.node ∷ [],
      s.rest,
      IsPooled-after p r q xs fs w id proc made at x,
      subst (λ j. p.pool ≡ j ∷ q.pool) (sym i) (same_pool p r q xs fs w id proc made at x),
      subst (λ j. rotation q.scheduler (xs ++ s.node ∷ []) ≡ rotation p.scheduler xs ++ j ∷ [])
          (sym i) (rotation_after p r q xs fs w id proc made at x),
    )
