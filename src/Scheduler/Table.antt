-- ===== src/Scheduler/Table.antt =====
-- Reads and writes of the scheduler's table inside its bounds: what each field of each node is
-- after the writes of src/syskrnl/schedule/roundroll.rs.
use tju_cinea_os.Prelude.{
  ℕ, zero, suc, ◌<◌, ◌≡◌, refl, Bool, List, [], ◌∷◌, ◌++◌, arith, Run, ok, index, set_index, get_or,
  set, length, length-set, ◌==◌, if◌then◌else◌,
}
use tju_cinea_os.Scheduler.{Node, new_node, set_next, set_prev, set_pid, set_empty, set_skip}

abbrev pub Table : Type 0
Table = List Node

unfoldable pub node_at : Table → ℕ → Node
node_at t i = get_or t i new_node

abbrev pub next_of : Table → ℕ → ℕ
next_of t i = (node_at t i).next

abbrev pub prev_of : Table → ℕ → ℕ
prev_of t i = (node_at t i).prev

abbrev pub pid_of : Table → ℕ → ℕ
pid_of t i = (node_at t i).pid

abbrev pub skip_of : Table → ℕ → Bool
skip_of t i = (node_at t i).skip

abbrev pub empty_of : Table → ℕ → Bool
empty_of t i = (node_at t i).is_empty

pub index-node_at : (t : Table) (i : ℕ) → i < length t → index t i ≡ ok (node_at t i)
unfolding node_at
index-node_at [] i h = elim h [ ]
index-node_at (x ∷ t) zero h = refl
index-node_at (x ∷ t) (suc i) h = index-node_at t i (omega arith)

set_index-set : (t : Table) (i : ℕ) (n : Node) → i < length t → set_index t i n ≡ ok (set t i n)
set_index-set [] i n h = elim h [ ]
set_index-set (x ∷ t) zero n h = refl
set_index-set (x ∷ t) (suc i) n h = rw (set_index-set t i n (omega arith))

node_at-set :
    (t : Table) (i j : ℕ) (n : Node)
    → i < length t
    → node_at (set t i n) j ≡ (if j == i then n else node_at t j)
unfolding node_at
node_at-set [] i j n h = elim h [ ]
node_at-set (x ∷ t) zero zero n h = refl
node_at-set (x ∷ t) zero (suc j) n h = ground arith
node_at-set (x ∷ t) (suc i) zero n h = ground arith
node_at-set (x ∷ t) (suc i) (suc j) n h = ground (arith, node_at-set t i j n)

-- A written table: as long as before, and the same but for one node.
pub record Put (t : Table) (i : ℕ) (n : Node) (r : Run Table) : Type 0 where
  pub out : Table
  pub done : r ≡ ok out
  pub same_length : length out ≡ length t
  pub at : (j : ℕ) → node_at out j ≡ (if j == i then n else node_at t j)

module _ (t : Table) (i : ℕ) (h : i < length t) where
  set_index-Put : (n : Node) → Put t i n (set_index t i n)
  set_index-Put n = record {
    out = set t i n;
    done = set_index-set t i n h;
    same_length = length-set t i n;
    at = λ j. node_at-set t i j n h;
  }

-- A written table, field by field.
pub record Wrote (t : Table) (r : Run Table) (next prev pid : ℕ → ℕ) (skip empty : ℕ → Bool)
    : Type 0 where
  pub out : Table
  pub done : r ≡ ok out
  pub same_length : length out ≡ length t
  pub next_at : (j : ℕ) → next_of out j ≡ next j
  pub prev_at : (j : ℕ) → prev_of out j ≡ prev j
  pub pid_at : (j : ℕ) → pid_of out j ≡ pid j
  pub skip_at : (j : ℕ) → skip_of out j ≡ skip j
  pub empty_at : (j : ℕ) → empty_of out j ≡ empty j

abbrev pub at_node {ℓ} : {A : Type ℓ} → ℕ → A → (ℕ → A) → ℕ → A
at_node i v f j = if j == i then v else f j

module _ (t : Table) (i : ℕ) (h : i < length t) where
  pub set_next-Wrote :
      (v : ℕ)
      → Wrote t
          (set_next t i v)
          (at_node i v (next_of t))
          (prev_of t)
          (pid_of t)
          (skip_of t)
          (empty_of t)
  set_next-Wrote v = rw (index-node_at t i h) (
      let p = set_index-Put t i h (record (node_at t i) { next = v }) in
      record {
        out = p.out;
        done = p.done;
        same_length = p.same_length;
        next_at = λ j. ground (arith, p.at j);
        prev_at = λ j. ground (arith, p.at j);
        pid_at = λ j. ground (arith, p.at j);
        skip_at = λ j. ground (arith, p.at j);
        empty_at = λ j. ground (arith, p.at j);
      })

  pub set_prev-Wrote :
      (v : ℕ)
      → Wrote t
          (set_prev t i v)
          (next_of t)
          (at_node i v (prev_of t))
          (pid_of t)
          (skip_of t)
          (empty_of t)
  set_prev-Wrote v = rw (index-node_at t i h) (
      let p = set_index-Put t i h (record (node_at t i) { prev = v }) in
      record {
        out = p.out;
        done = p.done;
        same_length = p.same_length;
        next_at = λ j. ground (arith, p.at j);
        prev_at = λ j. ground (arith, p.at j);
        pid_at = λ j. ground (arith, p.at j);
        skip_at = λ j. ground (arith, p.at j);
        empty_at = λ j. ground (arith, p.at j);
      })

  pub set_pid-Wrote :
      (v : ℕ)
      → Wrote t
          (set_pid t i v)
          (next_of t)
          (prev_of t)
          (at_node i v (pid_of t))
          (skip_of t)
          (empty_of t)
  set_pid-Wrote v = rw (index-node_at t i h) (
      let p = set_index-Put t i h (record (node_at t i) { pid = v }) in
      record {
        out = p.out;
        done = p.done;
        same_length = p.same_length;
        next_at = λ j. ground (arith, p.at j);
        prev_at = λ j. ground (arith, p.at j);
        pid_at = λ j. ground (arith, p.at j);
        skip_at = λ j. ground (arith, p.at j);
        empty_at = λ j. ground (arith, p.at j);
      })

  pub set_empty-Wrote :
      (v : Bool)
      → Wrote t
          (set_empty t i v)
          (next_of t)
          (prev_of t)
          (pid_of t)
          (skip_of t)
          (at_node i v (empty_of t))
  set_empty-Wrote v = rw (index-node_at t i h) (
      let p = set_index-Put t i h (record (node_at t i) { is_empty = v }) in
      record {
        out = p.out;
        done = p.done;
        same_length = p.same_length;
        next_at = λ j. ground (arith, p.at j);
        prev_at = λ j. ground (arith, p.at j);
        pid_at = λ j. ground (arith, p.at j);
        skip_at = λ j. ground (arith, p.at j);
        empty_at = λ j. ground (arith, p.at j);
      })

  pub set_skip-Wrote :
      (v : Bool)
      → Wrote t
          (set_skip t i v)
          (next_of t)
          (prev_of t)
          (pid_of t)
          (at_node i v (skip_of t))
          (empty_of t)
  set_skip-Wrote v = rw (index-node_at t i h) (
      let p = set_index-Put t i h (record (node_at t i) { skip = v }) in
      record {
        out = p.out;
        done = p.done;
        same_length = p.same_length;
        next_at = λ j. ground (arith, p.at j);
        prev_at = λ j. ground (arith, p.at j);
        pid_at = λ j. ground (arith, p.at j);
        skip_at = λ j. ground (arith, p.at j);
        empty_at = λ j. ground (arith, p.at j);
      })

pub node_at-append_new : (t : Table) (j : ℕ) → node_at (t ++ new_node ∷ []) j ≡ node_at t j
unfolding node_at
node_at-append_new [] zero = refl
node_at-append_new [] (suc j) = refl
node_at-append_new (x ∷ t) zero = refl
node_at-append_new (x ∷ t) (suc j) = node_at-append_new t j

pub node_at-out : (t : Table) (j : ℕ) → length t ≡ j → node_at t j ≡ new_node
unfolding node_at
node_at-out [] j h = refl
node_at-out (x ∷ t) zero h = absurd (omega arith)
node_at-out (x ∷ t) (suc j) h = node_at-out t j (omega arith)
