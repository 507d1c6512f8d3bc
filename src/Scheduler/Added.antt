-- ===== src/Scheduler/Added.antt =====
-- Adding a process to the scheduler of src/syskrnl/schedule/roundroll.rs.
use tju_cinea_os.Prelude.{
  ℕ, ◌+◌, ◌<◌, ◌≤◌, ◌≡◌, refl, sym, ap, subst, ◌∙◌, inl, inr, false, none, some, List, [], ◌∷◌,
  ◌++◌, arith, length, length-append, map, ok, ◌==◌, Bool-cases,
}
use tju_cinea_os.Prelude.Map
use tju_cinea_os.Prelude.Map.{nat_key, lookup-insert}
use tju_cinea_os.Scheduler.{Node, Scheduler, link, add, add_process, now}
use tju_cinea_os.Scheduler.Table.{
  at_node, Table, next_of, prev_of, pid_of, skip_of, empty_of, index-node_at, node_at-out, Wrote,
}
use tju_cinea_os.Scheduler.Ring.{
  ◌∈◌, ◌∉◌, mem, mem-append, ne_of_mem, AllDistinct, Links, Links-frame, Links-last, Links-append,
}
use tju_cinea_os.Scheduler.Effects.{Allotted, alloc-Allotted, link-Wrote}
use tju_cinea_os.Scheduler.State.{Free, Free-frame, IsRing, rotation}

-- The node that `alloc` hands out, and the free list that remains.
record Fresh (s : Scheduler) (a : Allotted s) (xs : List ℕ) : Type 0 where
  rest : List ℕ
  outside : a.node ∉ s.head ∷ xs
  ready : skip_of s.table a.node ≡ false
  free : Free s.table s.head a.out.empty rest
  rest_inside : (i : ℕ) → i ∈ rest → i < length s.table
  rest_distinct : AllDistinct rest
  rest_ready : (i : ℕ) → i ∈ rest → skip_of s.table i ≡ false
  rest_apart : (i : ℕ) → i ∈ rest → i ∉ s.head ∷ xs
  node_apart : a.node ∉ rest
  room : length xs + 2 + length rest ≤ length a.out.table

-- No node of the ring lies past the end of the table.
end_outside : (n : ℕ) (xs : List ℕ) → ((i : ℕ) → i ∈ xs → i < n) → n ∉ xs
end_outside n xs h = elim (Bool-cases (mem n xs)) [
  | inl e ↦ absurd (omega (arith, h n e))
  | inr e ↦ e
]

alloc-Fresh : (s : Scheduler) (xs fs : List ℕ) (a : Allotted s) → IsRing s xs fs → Fresh s a xs
alloc-Fresh s xs [] a r = elim a.from [
  | inl (h, _, _, _) ↦ ground (arith, r.free, r.head_used)
  | inr (_, e, f, l) ↦ record {
    rest = [];
    outside =
        subst (λ k. k ∉ s.head ∷ xs) (sym e) (end_outside (length s.table) (s.head ∷ xs) r.inside);
    ready = rw e (ap (λ (n : Node). n.skip) (node_at-out s.table (length s.table) refl));
    free = f ∙ r.free;
    rest_inside = λ i h. ground arith;
    rest_distinct = tt;
    rest_ready = λ i h. ground arith;
    rest_apart = λ i h. ground arith;
    node_apart = refl;
    room = omega (arith, r.fits, l);
  }
]
alloc-Fresh s xs (f ∷ fs) a r = elim a.from [
  | inl (_, e, g, l) ↦
      let here : a.node ≡ f = e ∙ r.free.0 in
      record {
        rest = fs;
        outside = subst (λ k. k ∉ s.head ∷ xs) (sym here) (r.apart f (ground arith));
        ready = subst (λ k. skip_of s.table k ≡ false) (sym here) (r.free_ready f (ground arith));
        free = ground (arith, r.free);
        rest_inside = λ i h. r.free_inside i (ground arith);
        rest_distinct = r.free_distinct.1;
        rest_ready = λ i h. r.free_ready i (ground arith);
        rest_apart = λ i h. r.apart i (ground arith);
        node_apart = subst (λ k. k ∉ fs) (sym here) (r.free_distinct.0);
        room = omega (arith, r.fits, l);
      }
  | inr (h, _, _, _) ↦ ground (arith, r.free)
]

-- What `add` on the trait leaves behind: the new process's node runs and stands last in the ring.
pub record Added (s : Scheduler) (p : ℕ) (xs : List ℕ) : Type 0 where
  pub out : Scheduler
  pub node : ℕ
  pub rest : List ℕ
  pub done : add_process s p ≡ ok (p, out)
  pub ring : IsRing out (xs ++ node ∷ []) rest
  pub runs : out.cursor ≡ node
  pub order : rotation out (xs ++ node ∷ []) ≡ rotation s xs ++ p ∷ []
  pub ready : skip_of out.table node ≡ false
  pub others : (i : ℕ) → i ∈ s.head ∷ xs → skip_of out.table i ≡ skip_of s.table i

distinct-append : (xs : List ℕ) (m : ℕ) → m ∉ xs → AllDistinct xs → AllDistinct (xs ++ m ∷ [])
distinct-append [] m h d = (refl, tt)
distinct-append (x ∷ xs) m h d =
    (ground (arith, mem-append x xs (m ∷ [])), distinct-append xs m (ground arith) d.1)

map_pids :
    (t t' : Table) (ys : List ℕ) (m p : ℕ)
    → pid_of t' m ≡ p
    → ((i : ℕ) → i ∈ ys → pid_of t' i ≡ pid_of t i)
    → map (pid_of t') (ys ++ m ∷ []) ≡ map (pid_of t) ys ++ p ∷ []
map_pids t t' [] m p e h = ground arith
map_pids t t' (y ∷ ys) m p e h =
    ground (arith, h y, map_pids t t' ys m p e (λ i k. h i (ground arith)))

empty_inside : (s : Scheduler) (xs fs : List ℕ) → IsRing s xs fs → s.empty < length s.table
empty_inside s xs [] r = ground (arith, r.free, r.inside s.head)
empty_inside s xs (f ∷ fs) r = ground (arith, r.free, r.free_inside f)

-- The state after `add` and the move of the cursor, in a section over its parts.
module _ (s : Scheduler) (p : ℕ) (xs fs : List ℕ) (r : IsRing s xs fs)
    (new : Map.lookup p s.pids ≡ none) (a : Allotted s) (f : Fresh s a xs)
    (w : Wrote a.out.table
      (link a.out.table s.head a.node p)
      (at_node a.node s.head (at_node (prev_of a.out.table s.head) a.node (next_of a.out.table)))
      (at_node a.node (prev_of a.out.table s.head) (at_node s.head a.node (prev_of a.out.table)))
      (at_node a.node p (pid_of a.out.table))
      (skip_of a.out.table)
      (empty_of a.out.table)) where
  abbrev after : Scheduler
  after = record s {
    table = w.out;
    pids = Map.insert p a.node s.pids;
    empty = a.out.empty;
    cursor = a.node;
  }

  node_ne : (i : ℕ) → i ∈ s.head ∷ xs → (i == a.node) ≡ false
  node_ne i h = ne_of_mem i a.node (s.head ∷ xs) h f.outside

  pid_after : (i : ℕ) → i ∈ s.head ∷ xs → pid_of w.out i ≡ pid_of s.table i
  pid_after i h = ground (arith, w.pid_at i, a.at i, node_ne i h)

  last_next :
      (next_of s.table (prev_of s.table s.head) ≡ s.head) × (prev_of s.table s.head ∈ s.head ∷ xs)
  last_next = Links-last (next_of s.table) (prev_of s.table) s.head xs s.head r.links

  Links-after : Links (next_of w.out) (prev_of w.out) s.head (xs ++ a.node ∷ []) s.head
  Links-after =
      Links-frame _ _ (next_of w.out) (prev_of w.out) s.head (xs ++ a.node ∷ []) s.head
        (λ i h. ground (arith, w.next_at i, a.at i, a.at s.head))
        (λ i h. ground (arith, w.prev_at i, a.at i, a.at s.head))
        (ground (arith, w.prev_at s.head, a.at s.head))
        (Links-append (next_of s.table) (prev_of s.table) a.node (prev_of s.table s.head) s.head xs
          s.head f.outside r.head_out (ground (arith, node_ne s.head (ground arith))) refl
          last_next.0 r.links)

  added_lookup : Map.lookup p (Map.insert p a.node s.pids) ≡ some a.node
  added_lookup = ground (arith, lookup-insert p p a.node s.pids)

  added_now : now after ≡ ok p
  unfolding now
  added_now =
      rw (index-node_at w.out a.node (omega (arith, a.node_in, w.same_length)))
        (ground (arith, w.pid_at a.node))

  added_done : add_process s p ≡ ok (p, after)
  unfolding add_process add
  added_done = rw (a.done, a.head_is, w.done, a.pids_is, added_lookup, added_now)

  -- A free node is neither the new node nor the last of the ring.
  rest_ne : (i : ℕ) → i ∈ f.rest → ((i == a.node) ≡ false) × ((i == prev_of s.table s.head) ≡ false)
  rest_ne i h = (
    ne_of_mem i a.node f.rest h f.node_apart,
    ground
        (arith, ne_of_mem (prev_of s.table s.head) i (s.head ∷ xs) last_next.1 (f.rest_apart i h)),
  )

  known_after :
      (i : ℕ)
      → i ∈ s.head ∷ (xs ++ a.node ∷ [])
      → Map.lookup (pid_of w.out i) (Map.insert p a.node s.pids) ≡ some i
  known_after i h = ground (
    arith,
    lookup-insert p (pid_of w.out i) a.node s.pids,
    r.known i,
    pid_after i,
    w.pid_at i,
    mem-append i xs (a.node ∷ []),
  )

  found_after :
      (q i : ℕ)
      → Map.lookup q (Map.insert p a.node s.pids) ≡ some i
      → (i ∈ s.head ∷ (xs ++ a.node ∷ [])) × (pid_of w.out i ≡ q)
  found_after q i h = ground (
    arith,
    lookup-insert p q a.node s.pids,
    r.found q i,
    pid_after i,
    w.pid_at i,
    mem-append i xs (a.node ∷ []),
  )

  added-IsRing : IsRing after (xs ++ a.node ∷ []) f.rest
  added-IsRing = record {
    links = Links-after;
    distinct = distinct-append xs a.node (ground (arith, f.outside)) r.distinct;
    head_out = ground (arith, mem-append s.head xs (a.node ∷ []), r.head_out, node_ne s.head);
    inside = λ i h.
        ground
          (arith, mem-append i xs (a.node ∷ []), r.inside i, a.node_in, a.length_le, w.same_length);
    cursor_in = ground (arith, mem-append a.node xs (a.node ∷ []));
    head_used = ground (arith, w.empty_at s.head, a.at s.head, r.head_used);
    free =
        Free-frame s.table w.out s.head a.out.empty f.rest
          (λ i h. ground (arith, w.next_at i, a.at i, a.at s.head, rest_ne i h))
          (λ i h. ground (arith, w.empty_at i, a.at i)) f.free;
    free_inside = λ i h. omega (arith, f.rest_inside i h, w.same_length, a.length_le);
    free_distinct = f.rest_distinct;
    free_ready = λ i h. ground (arith, w.skip_at i, a.at i, f.rest_ready i h);
    apart = λ i h. ground (arith, mem-append i xs (a.node ∷ []), f.rest_apart i h, rest_ne i h);
    fits = omega (arith, f.room, w.same_length, length-append xs (a.node ∷ []));
    known = known_after;
    found = found_after;
  }

-- Adding a process that the scheduler does not know never panics: it runs at once, stands last in
-- the order of the ring behind the processes there were, whose order and marks are unchanged, and
-- the state stays well formed.
pub add_process-Added :
    (s : Scheduler) (p : ℕ) (xs fs : List ℕ)
    → IsRing s xs fs
    → Map.lookup p s.pids ≡ none
    → Added s p xs
unfolding add_process add rotation now
add_process-Added s p xs fs r new =
    let a = alloc-Allotted s (empty_inside s xs fs r) in
    let f = alloc-Fresh s xs fs a r in
    let last = Links-last (next_of s.table) (prev_of s.table) s.head xs s.head r.links in
    let w =
      link-Wrote a.out.table s.head a.node p a.node_in
        (omega (arith, r.inside s.head (ground arith), a.length_le))
        (ground (arith, a.at s.head, r.inside (prev_of s.table s.head) last.1, a.length_le)) in
    record {
      out = after s p xs fs r new a f w;
      node = a.node;
      rest = f.rest;
      done = added_done s p xs fs r new a f w;
      ring = added-IsRing s p xs fs r new a f w;
      runs = refl;
      order =
          map_pids s.table w.out (s.head ∷ xs) a.node p (ground (arith, w.pid_at a.node))
            (pid_after s p xs fs r new a f w);
      ready = ground (arith, w.skip_at a.node, a.at a.node, f.ready);
      others = λ i h. ground (arith, w.skip_at i, a.at i);
    }
