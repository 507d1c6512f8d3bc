-- ===== src/Interrupts/Switch.antt =====
-- How the clock interrupt of src/syskrnl/interrupts/mod.rs changes processes, and when it does not.
use tju_cinea_os.Prelude.{
  ℕ, zero, suc, ◌+◌, ◌-◌, ◌≤◌, ◌≡◌, ◌≢◌, refl, ◌⊎◌, inl, inr, true, false, ◌&&◌, some, List, [],
  ◌∷◌, ◌++◌, arith, ok, get_elem?, set_index, ◌==◌, ltb, if◌then◌else◌, get_elem?-set_index,
  Bool-cases,
}
use tju_cinea_os.Prelude.Map
use tju_cinea_os.Prelude.Map.{nat_key}
use tju_cinea_os.Scheduler.State.{IsRing}
use tju_cinea_os.Scheduler.Table.{pid_of}
use tju_cinea_os.Scheduler.Stepped.{first_ready, timeup-first_ready}
use tju_cinea_os.Events.Sleep.Fifo.{Sleepers, Represents}
use tju_cinea_os.Kernel.Handlers.{wake_sleeper_lem}
use tju_cinea_os.Process.{Processes, Process, current, set_registers, set_stack_frame}
use tju_cinea_os.Interrupts.{
  System, Cpu, kernel, with_kernel, save_context, switch_context_to, change, deliver, reschedule,
  schedule, clock_handler,
}

set_index_in :
    (t : List Process) (i : ℕ) (a v : Process)
    → get_elem? t i ≡ some a
    → (t' : List Process) × (set_index t i v ≡ ok t')
set_index_in [] i a v h = ground arith
set_index_in (x ∷ t) zero a v h = (v ∷ t, refl)
set_index_in (x ∷ t) (suc i) a v h = let (t', e) = set_index_in t i a v h in (x ∷ t', rw e)

abbrev pub with_context : Process → Cpu → Process
with_context a cpu = record a { stack_frame = cpu.frame; registers = cpu.regs }

module _ {S : Type 0} where
  -- The table in which the running process has the processor's state.
  record Saved (cpu : Cpu) (p : Processes S) (a : Process) : Type 0 where
    table : List Process
    done : save_context cpu p ≡ ok (record p { table = table })
    at :
        (j : ℕ)
        → get_elem? table j
          ≡ (if j == p.pid then some (with_context a cpu) else get_elem? p.table j)

  save_context-Saved :
      (cpu : Cpu) (p : Processes S) (a : Process) → get_elem? p.table p.pid ≡ some a → Saved cpu p a
  unfolding save_context set_stack_frame set_registers current
  save_context-Saved cpu p a h =
      let b = record a { stack_frame = cpu.frame } in
      let (t, e) = set_index_in p.table p.pid a b h in
      let at = λ (j : ℕ). get_elem?-set_index p.table p.pid b t j e in
      let here : get_elem? t p.pid ≡ some b = ground (arith, at p.pid) in
      let (u, f) = set_index_in t p.pid b (with_context a cpu) here in
      record {
        table = u;
        done = rw (h, e) (rw (here, f));
        at = λ j. ground (arith, at j, get_elem?-set_index t p.pid (with_context a cpu) u j f);
      }

  pub current_of :
      (p : Processes S) (a : Process) → get_elem? p.table p.pid ≡ some a → current p ≡ ok a
  current_of p a h = unfold current in rw h

-- When the clock gives the processor to another process, that one goes on where it was stopped, with
-- the value of its event, if there is one, as the result of its call; the interval starts anew; the
-- processes in the scheduler's ring are the same; and a switch back to the process that was stopped
-- gives the processor exactly the state it had.
pub reschedule-switch_context_to :
    {S : Type 0} (cpu : Cpu) (s : System S) (a c : Process) (b : ℕ) (xs fs ys zs : List ℕ)
    → IsRing s.processes.scheduler xs fs
    → s.processes.scheduler.head ∷ xs ≡ ys ++ s.processes.scheduler.cursor ∷ zs
    → first_ready s.processes.scheduler.table (zs ++ (ys ++ s.processes.scheduler.cursor ∷ []))
      ≡ some b
    → get_elem? s.processes.table s.processes.pid ≡ some a
    → pid_of s.processes.scheduler.table b ≢ s.processes.pid
    → get_elem? s.processes.table (pid_of s.processes.scheduler.table b) ≡ some c
    → (s' : System S) × (reschedule cpu s
        ≡ ok (
          deliver
              (Map.lookup (pid_of s.processes.scheduler.table b) s.events.data_of)
              (record { frame = c.stack_frame; regs = c.registers }),
          s',
        ))
      × (s'.processes.pid ≡ pid_of s.processes.scheduler.table b)
      × (s'.processes.cr3 ≡ c.page_table_frame)
      × (s'.last_schedule ≡ s.ticks)
      × IsRing s'.processes.scheduler xs fs
      × ((p : Processes S) × (switch_context_to s.processes.pid s'.processes ≡ ok (cpu, p)))
unfolding reschedule change switch_context_to
reschedule-switch_context_to cpu s a c b xs fs ys zs ring place ready here other there =
    let (t, ring') = timeup-first_ready s.processes.scheduler xs fs ys zs b ring place ready in
    let next = pid_of s.processes.scheduler.table b in
    let p = record s.processes { scheduler = record s.processes.scheduler { cursor = b } } in
    let v = save_context-Saved cpu p a here in
    let elsewhere : (next == s.processes.pid) ≡ false = ground arith in
    let c_at : get_elem? v.table next ≡ some c = ground (arith, v.at next) in
    let a_at : get_elem? v.table s.processes.pid ≡ some (with_context a cpu) =
      ground (arith, v.at s.processes.pid) in
    (
      record s {
        processes = record p { table = v.table; pid = next; cr3 = c.page_table_frame };
        last_schedule = s.ticks;
      },
      rw (t, elsewhere, v.done, current_of (record p { table = v.table; pid = next }) c c_at),
      refl,
      refl,
      refl,
      ring',
      (
        record p { table = v.table; cr3 = a.page_table_frame },
        rw (
            current_of (record p { table = v.table; cr3 = c.page_table_frame }) (with_context a cpu)
              a_at),
      ),
    )

-- Too early for a change.
abbrev pub Quiet : {S : Type 0} → System S → ℕ → Type 0
Quiet s now =
    (s.processes.schedule ≡ false)
    ⊎ ((now ≤ s.last_schedule + 10) ⊎ ((s.no_schedule ≡ true) × (now ≤ s.last_schedule + 1000)))

Quiet-run :
    {S : Type 0} (cpu : Cpu) (s : System S)
    → Quiet s s.ticks
    → (if s.processes.schedule && ltb 10 (s.ticks - s.last_schedule)
        then schedule cpu s
        else ok (cpu, s))
      ≡ ok (cpu, s)
unfolding schedule
Quiet-run cpu s (inl off) = rw off
Quiet-run cpu s (inr (inl early)) =
    let e : ltb 10 (s.ticks - s.last_schedule) ≡ false = ground arith in
    elim (Bool-cases s.processes.schedule) [ inl on ↦ rw (on, e) | inr off ↦ rw off ]
Quiet-run cpu s (inr (inr (stopped, early))) =
    let e : ltb 1000 (s.ticks - s.last_schedule) ≡ false = ground arith in
    ground (arith, stopped, e)

-- Within ten ticks after a change of processes, or a thousand while a program has stopped the
-- scheduling, or when there is none, the clock interrupt leaves the processor's state, the running
-- process and the start of the interval as they are, and the ring of the scheduler whole.
pub clock_handler_quiet :
    {S : Type 0} (cpu : Cpu) (s : System S) (l : Sleepers) (xs fs : List ℕ)
    → IsRing s.processes.scheduler xs fs
    → Represents s.sleep l
    → (s.processes.schedule ≡ false)
      ⊎ ((s.ticks + 1 ≤ s.last_schedule + 10)
          ⊎ ((s.no_schedule ≡ true) × (s.ticks + 1 ≤ s.last_schedule + 1000)))
    → (s' : System S) × (clock_handler cpu s ≡ ok (cpu, s'))
      × (s'.processes.pid ≡ s.processes.pid)
      × (s'.last_schedule ≡ s.last_schedule)
      × (s'.ticks ≡ s.ticks + 1)
      × IsRing s'.processes.scheduler xs fs
unfolding clock_handler
clock_handler_quiet cpu s l xs fs ring sleepers quiet =
    let s1 = record s { ticks = s.ticks + 1 } in
    let (k, done, ring', _) = wake_sleeper_lem s1.ticks (kernel s1) l xs fs ring sleepers in
    let s2 = with_kernel s1 k in (s2, rw done (Quiet-run cpu s2 quiet), refl, refl, refl, ring')
