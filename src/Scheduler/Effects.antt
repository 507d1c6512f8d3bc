-- ===== src/Scheduler/Effects.antt =====
-- What `alloc`, `dealloc` and `add` of src/syskrnl/schedule/roundroll.rs write, field by field.
use tju_cinea_os.Prelude.{
  ℕ, ◌+◌, ◌<◌, ◌≡◌, refl, ◌∙◌, true, false, [], ◌∷◌, ◌++◌, arith, ok, Bool-cases, ◌≤◌, ◌⊎◌, inl,
  inr, length, length-append, ◌==◌, if◌then◌else◌,
}
use tju_cinea_os.Prelude.Map.{nat_key}
use tju_cinea_os.Scheduler.{Scheduler, new_node, alloc, dealloc, link}
use tju_cinea_os.Scheduler.Table.{
  Table, Wrote, at_node, node_at, next_of, prev_of, pid_of, skip_of, empty_of, index-node_at,
  set_next-Wrote, set_prev-Wrote, set_pid-Wrote, set_empty-Wrote, node_at-append_new,
}

-- `dealloc` unlinks the node and puts it on the free list.
pub record Deallocated (s : Scheduler) (node : ℕ) : Type 0 where
  pub out : Scheduler
  pub done : dealloc s node ≡ ok out
  pub length_same : length out.table ≡ length s.table
  pub next_at :
      (j : ℕ)
      → next_of out.table j ≡ (
          if j == node
          then s.empty
          else if j == prev_of s.table node
          then next_of s.table node
          else next_of s.table j)
  pub prev_at :
      (j : ℕ)
      → prev_of out.table j
        ≡ (if j == next_of s.table node then prev_of s.table node else prev_of s.table j)
  pub pid_at : (j : ℕ) → pid_of out.table j ≡ pid_of s.table j
  pub skip_at : (j : ℕ) → skip_of out.table j ≡ skip_of s.table j
  pub empty_at : (j : ℕ) → empty_of out.table j ≡ (if j == node then true else empty_of s.table j)
  pub head_is : out.head ≡ (if s.head == node then next_of s.table node else s.head)
  pub empty_is : out.empty ≡ node
  pub cursor_is : out.cursor ≡ s.cursor
  pub pids_is : out.pids ≡ s.pids

pub dealloc-Deallocated :
    (s : Scheduler) (node : ℕ)
    → node < length s.table
    → prev_of s.table node < length s.table
    → next_of s.table node < length s.table
    → Deallocated s node
unfolding dealloc
dealloc-Deallocated s node h hp hn =
    let t = s.table in
    let last = prev_of t node in
    let next = next_of t node in
    let p1 = set_next-Wrote t last hp next in
    let p2 = set_prev-Wrote p1.out next (omega (arith, p1.same_length)) last in
    let p3 = set_empty-Wrote p2.out node (omega (arith, p1.same_length, p2.same_length)) true in
    let p4 =
      set_next-Wrote p3.out node (omega (arith, p1.same_length, p2.same_length, p3.same_length))
        s.empty in
    record {
      out = record s {
        table = p4.out;
        head = if s.head == node then next else s.head;
        empty = node;
      };
      done = rw (index-node_at t node h, p1.done, p2.done, p3.done, p4.done);
      length_same = omega (arith, p1.same_length, p2.same_length, p3.same_length, p4.same_length);
      next_at = λ j. ground (arith, p4.next_at j, p3.next_at j, p2.next_at j, p1.next_at j);
      prev_at = λ j. ground (arith, p4.prev_at j, p3.prev_at j, p2.prev_at j, p1.prev_at j);
      pid_at = λ j. ground (arith, p4.pid_at j, p3.pid_at j, p2.pid_at j, p1.pid_at j);
      skip_at = λ j. ground (arith, p4.skip_at j, p3.skip_at j, p2.skip_at j, p1.skip_at j);
      empty_at = λ j. ground (arith, p4.empty_at j, p3.empty_at j, p2.empty_at j, p1.empty_at j);
      head_is = refl;
      empty_is = refl;
      cursor_is = refl;
      pids_is = refl;
    }

-- `alloc` takes the first node of the free list, or else adds one at the end of the table.
pub record Allotted (s : Scheduler) : Type 0 where
  pub node : ℕ
  pub out : Scheduler
  pub done : alloc s ≡ ok (node, out)
  pub node_in : node < length out.table
  pub length_le : length s.table ≤ length out.table
  pub at : (j : ℕ) → node_at out.table j ≡ node_at s.table j
  pub head_is : out.head ≡ s.head
  pub cursor_is : out.cursor ≡ s.cursor
  pub pids_is : out.pids ≡ s.pids
  pub from :
      ((empty_of s.table s.empty ≡ true)
        × (node ≡ s.empty)
        × (out.empty ≡ next_of s.table s.empty)
        × (length out.table ≡ length s.table))
      ⊎ ((empty_of s.table s.empty ≡ false)
          × (node ≡ length s.table)
          × (out.empty ≡ s.empty)
          × (length out.table ≡ length s.table + 1))

pub alloc-Allotted : (s : Scheduler) → s.empty < length s.table → Allotted s
unfolding alloc
alloc-Allotted s h = elim (Bool-cases (empty_of s.table s.empty)) [
  | inl free ↦ record {
    node = s.empty;
    out = record s { empty = next_of s.table s.empty };
    done = rw (index-node_at s.table s.empty h, free);
    node_in = h;
    length_le = omega arith;
    at = λ j. refl;
    head_is = refl;
    cursor_is = refl;
    pids_is = refl;
    from = inl (free, refl, refl, refl);
  }
  | inr used ↦ record {
    node = length s.table;
    out = record s { table = s.table ++ new_node ∷ [] };
    done = rw (index-node_at s.table s.empty h, used);
    node_in = omega (arith, length-append s.table (new_node ∷ []));
    length_le = omega (arith, length-append s.table (new_node ∷ []));
    at = node_at-append_new s.table;
    head_is = refl;
    cursor_is = refl;
    pids_is = refl;
    from = inr (used, refl, refl, length-append s.table (new_node ∷ []));
  }
]

-- The writes of `add` put `node` between the last node of the ring and the head.
pub link-Wrote :
    (t : Table) (head node pid : ℕ)
    → node < length t
    → head < length t
    → prev_of t head < length t
    → Wrote t
        (link t head node pid)
        (at_node node head (at_node (prev_of t head) node (next_of t)))
        (at_node node (prev_of t head) (at_node head node (prev_of t)))
        (at_node node pid (pid_of t))
        (skip_of t)
        (empty_of t)
unfolding link
link-Wrote t head node pid hn hh hp =
    let last = prev_of t head in
    let p1 = set_pid-Wrote t node hn pid in
    let p2 = set_next-Wrote p1.out last (omega (arith, p1.same_length)) node in
    let l2 : length p2.out ≡ length t = p2.same_length ∙ p1.same_length in
    let p3 = set_prev-Wrote p2.out head (omega (arith, l2)) node in
    let l3 : length p3.out ≡ length t = p3.same_length ∙ l2 in
    let p4 = set_prev-Wrote p3.out node (omega (arith, l3)) last in
    let l4 : length p4.out ≡ length t = p4.same_length ∙ l3 in
    let p5 = set_next-Wrote p4.out node (omega (arith, l4)) head in
    let e1 : prev_of p1.out head ≡ last = p1.prev_at head in
    record {
      out = p5.out;
      done = rw (
        p1.done,
        index-node_at p1.out head (omega (arith, p1.same_length)),
        e1,
        p2.done,
        p3.done,
        p4.done,
        p5.done,
      );
      same_length = p5.same_length ∙ l4;
      next_at =
          λ j. ground (arith, p5.next_at j, p4.next_at j, p3.next_at j, p2.next_at j, p1.next_at j);
      prev_at =
          λ j. ground (arith, p5.prev_at j, p4.prev_at j, p3.prev_at j, p2.prev_at j, p1.prev_at j);
      pid_at = λ j. ground (arith, p5.pid_at j, p4.pid_at j, p3.pid_at j, p2.pid_at j, p1.pid_at j);
      skip_at =
          λ j. ground (arith, p5.skip_at j, p4.skip_at j, p3.skip_at j, p2.skip_at j, p1.skip_at j);
      empty_at = λ j.
          ground (arith, p5.empty_at j, p4.empty_at j, p3.empty_at j, p2.empty_at j, p1.empty_at j);
    }
