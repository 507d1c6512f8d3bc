-- ===== src/Scheduler/Woken.antt =====
-- `wakeup` of src/syskrnl/schedule/roundroll.rs.
use tju_cinea_os.Prelude.{
  ℕ, ◌<◌, ◌≡◌, refl, false, List, ◌∷◌, arith, Run, ok, length, Option-cases, inl, inr, ◌==◌,
  if◌then◌else◌,
}
use tju_cinea_os.Prelude.Map
use tju_cinea_os.Prelude.Map.{nat_key}
use tju_cinea_os.Scheduler.{Scheduler, wakeup, now}
use tju_cinea_os.Scheduler.Table.{
  Table, Wrote, at_node, set_skip-Wrote, index-node_at, next_of, prev_of, pid_of, skip_of, empty_of,
}
use tju_cinea_os.Scheduler.Ring.{◌∈◌, Links-frame}
use tju_cinea_os.Scheduler.State.{IsRing, Free-frame}

-- What `wakeup` does to a ring: the same processes stay in it in the same order, the process to run
-- stays the same, and of the marks that keep a node from being run only the process's own goes.
pub record Awake (s : Scheduler) (process : ℕ) (xs fs : List ℕ) : Type 0 where
  pub out : Scheduler
  pub done : wakeup s process ≡ ok (pid_of s.table s.cursor, out)
  pub ring : IsRing out xs fs
  pub same_cursor : out.cursor ≡ s.cursor
  pub same_pids : (i : ℕ) → pid_of out.table i ≡ pid_of s.table i
  pub marks :
      (i : ℕ)
      → i ∈ s.head ∷ xs
      → skip_of out.table i ≡ (if pid_of s.table i == process then false else skip_of s.table i)

-- A ring does not depend on the marks of its nodes.
unmarked-IsRing :
    (s : Scheduler) (node : ℕ) (xs fs : List ℕ) {r : Run Table}
    → IsRing s xs fs
    → (w : Wrote s.table r
        (next_of s.table)
        (prev_of s.table)
        (pid_of s.table)
        (at_node node false (skip_of s.table))
        (empty_of s.table))
    → IsRing (record s { table = w.out }) xs fs
unmarked-IsRing s node xs fs r w = record {
  links =
      Links-frame (next_of s.table) (prev_of s.table) (next_of w.out) (prev_of w.out) s.head xs
        s.head (λ i h. w.next_at i) (λ i h. w.prev_at i) (w.prev_at s.head) r.links;
  distinct = r.distinct;
  head_out = r.head_out;
  inside = λ i h. ground (arith, w.same_length, r.inside i h);
  cursor_in = r.cursor_in;
  head_used = ground (arith, w.empty_at s.head, r.head_used);
  free =
      Free-frame s.table w.out s.head s.empty fs (λ i h. w.next_at i) (λ i h. w.empty_at i) r.free;
  free_inside = λ i h. ground (arith, w.same_length, r.free_inside i h);
  free_distinct = r.free_distinct;
  free_ready = λ i h. ground (arith, w.skip_at i, r.free_ready i h);
  apart = r.apart;
  fits = ground (arith, w.same_length, r.fits);
  known = λ i h. rw (w.pid_at i) (r.known i h);
  found = λ p i h. let (a, b) = r.found p i h in (a, rw (w.pid_at i) b);
}

-- Waking a process, known to the scheduler or not, never panics.
pub wakeup-Awake :
    (s : Scheduler) (process : ℕ) (xs fs : List ℕ) → IsRing s xs fs → Awake s process xs fs
unfolding wakeup now
wakeup-Awake s process xs fs r = elim (Option-cases (Map.lookup process s.pids)) [
  | inl e ↦ record {
    out = s;
    done = rw (wakeup, e, index-node_at s.table s.cursor (r.inside s.cursor r.cursor_in)) refl;
    ring = r;
    same_cursor = refl;
    same_pids = λ i. refl;
    marks = λ i h. ground (arith, r.known i h);
  }
  | inr (node, e) ↦
      let (here, own) = r.found process node e in
      let w = set_skip-Wrote s.table node (r.inside node here) false in
      let inside : s.cursor < length w.out =
        ground (arith, w.same_length, r.inside s.cursor r.cursor_in) in
      record {
        out = record s { table = w.out };
        done = rw (wakeup, e, w.done, index-node_at w.out s.cursor inside, w.pid_at s.cursor) refl;
        ring = unmarked-IsRing s node xs fs r w;
        same_cursor = refl;
        same_pids = w.pid_at;
        marks = λ i h. ground (arith, w.skip_at i, r.known i h, own);
      }
]
