-- ===== src/Scheduler/Removed.antt =====
-- Ending the running process in src/syskrnl/schedule/roundroll.rs.
use mathlib.Core.List.{append_assoc}
use mathlib.Core.Path.{fun_ext}
use tju_cinea_os.Prelude.{
  ℕ, ◌≡◌, refl, ap, subst, ◌∙◌, inl, inr, false, some, List, [], ◌∷◌, ◌++◌, arith, ok, ◌==◌, ==_iff,
  Bool-cases, map,
}
use tju_cinea_os.Prelude.Map
use tju_cinea_os.Prelude.Map.{nat_key, lookup-remove}
use tju_cinea_os.Scheduler.{Scheduler, remove, terminate, now}
use tju_cinea_os.Scheduler.Table.{Table, next_of, prev_of, pid_of, skip_of, index-node_at}
use tju_cinea_os.Scheduler.Ring.{
  ◌∈◌, ◌∉◌, mem, mem-append, erase, mem-erase, ne_of_mem, AllDistinct, Links, Links-frame,
  Links-inside, Links-erase,
}
use tju_cinea_os.Scheduler.Erased.{
  mem_of_erase, not-mem-erase, mem-erase_ne, erase-AllDistinct, length-erase, map-erase,
}
use tju_cinea_os.Scheduler.Effects.{Deallocated, dealloc-Deallocated}
use tju_cinea_os.Scheduler.State.{Free, Free-frame, IsRing, rotation}
use tju_cinea_os.Scheduler.Stepped.{
  first_ready, first_ready_mem, step-first_ready, ready_mem, step-IsRing,
}

-- Unlinking the node `n` of process `p`, which is inside the ring and not current.
module _ (s : Scheduler) (p n : ℕ) (xs fs : List ℕ) (r : IsRing s xs fs)
    (at : Map.lookup p s.pids ≡ some n) (other : (n == s.head) ≡ false)
    (running : skip_of s.table n ≡ false) (moved : (n == s.cursor) ≡ false)
    (e : Deallocated s n) where
  abbrev gone : Scheduler
  gone = record e.out { pids = Map.remove p e.out.pids }

  inside_n : n ∈ xs
  inside_n = ground (arith, r.found p n at)

  near :
      (next_of s.table (prev_of s.table n) ≡ n)
      × (prev_of s.table (next_of s.table n) ≡ n)
      × (prev_of s.table n ∈ s.head ∷ xs)
      × (next_of s.table n ∈ s.head ∷ xs)
  near = Links-inside (next_of s.table) (prev_of s.table) n s.head xs s.head inside_n r.links

  head_kept : e.out.head ≡ s.head
  head_kept = ground (arith, e.head_is)

  Links-gone : Links (next_of e.out.table) (prev_of e.out.table) s.head (erase n xs) s.head
  Links-gone =
      Links-frame _ _ (next_of e.out.table) (prev_of e.out.table) s.head (erase n xs) s.head
        (λ i h. ground (arith, e.next_at i)) (λ i h. ground (arith, e.prev_at i))
        (ground (arith, e.prev_at s.head))
        (Links-erase (next_of s.table) (prev_of s.table) n s.empty s.head xs s.head inside_n other
          other r.head_out r.head_out r.distinct near.0 near.1 r.links)

  in_ring : (i : ℕ) → i ∈ s.head ∷ erase n xs → (i ∈ s.head ∷ xs) × ((i == n) ≡ false)
  in_ring i h = (
    ground (arith, mem_of_erase i n xs),
    ne_of_mem i n (s.head ∷ erase n xs) h (ground (arith, not-mem-erase n xs r.distinct)),
  )

  not_free : n ∉ fs
  not_free = elim (Bool-cases (mem n fs)) [
    | inl h ↦ ground (arith, r.apart n h, inside_n)
    | inr h ↦ h
  ]

  pid_n : pid_of s.table n ≡ p
  pid_n = (r.found p n at).1

  known_gone :
      (i : ℕ)
      → i ∈ s.head ∷ erase n xs
      → Map.lookup (pid_of e.out.table i) (Map.remove p s.pids) ≡ some i
  known_gone i h =
      ground
        (arith, lookup-remove p (pid_of e.out.table i) s.pids, e.pid_at i, in_ring i h, r.known i)

  found_gone :
      (q i : ℕ)
      → Map.lookup q (Map.remove p s.pids) ≡ some i
      → (i ∈ s.head ∷ erase n xs) × (pid_of e.out.table i ≡ q)
  found_gone q i h =
      ground (arith, lookup-remove p q s.pids, e.pid_at i, r.found q i, mem-erase_ne i n xs, pid_n)

  free_ne : (i : ℕ) → i ∈ fs → ((i == n) ≡ false) × ((i == prev_of s.table n) ≡ false)
  free_ne i h = (
    ne_of_mem i n fs h not_free,
    ground (arith, ne_of_mem (prev_of s.table n) i (s.head ∷ xs) near.2 (r.apart i h)),
  )

  Free-gone : Free e.out.table s.head (next_of e.out.table n) fs
  Free-gone =
      let e' : next_of e.out.table n ≡ s.empty = ground (arith, e.next_at n) in
      rw e' (
        Free-frame s.table e.out.table s.head s.empty fs
          (λ i h. ground (arith, e.next_at i, free_ne i h))
          (λ i h. ground (arith, e.empty_at i, free_ne i h)) r.free)

  abbrev left : Scheduler
  left = record {
    table = e.out.table;
    pids = Map.remove p s.pids;
    head = s.head;
    empty = n;
    cursor = s.cursor;
  }

  gone-left : gone ≡ left
  gone-left = ground (arith, head_kept, e.empty_is, e.cursor_is, e.pids_is)

  gone-IsRing : IsRing left (erase n xs) (n ∷ fs)
  gone-IsRing = record {
    links = Links-gone;
    distinct = erase-AllDistinct n xs r.distinct;
    head_out = mem-erase s.head n xs r.head_out;
    inside = λ i h. ground (arith, r.inside i, in_ring i h, e.length_same);
    cursor_in = ground (arith, mem-erase_ne s.cursor n xs, r.cursor_in);
    head_used = ground (arith, e.empty_at s.head, r.head_used);
    free = (refl, ground (arith, e.empty_at n), Free-gone);
    free_inside = λ i h. ground (arith, r.free_inside i, r.inside n, inside_n, e.length_same);
    free_distinct = (not_free, r.free_distinct);
    free_ready = λ i h. ground (arith, e.skip_at i, r.free_ready i);
    apart = λ i h. ground (arith, not-mem-erase n xs r.distinct, mem-erase i n xs, r.apart i);
    fits = omega (arith, r.fits, e.length_same, length-erase n xs inside_n);
    known = known_gone;
    found = found_gone;
  }

  -- Only the node `n` belongs to the process `p`.
  only_n : (i : ℕ) → i ∈ s.head ∷ xs → pid_of s.table i ≡ p → i ≡ n
  only_n i h q = ground (arith, r.known i h)

  -- The order of the others is kept.
  gone_rotation : rotation left (erase n xs) ≡ erase p (rotation s xs)
  unfolding rotation erase
  gone_rotation =
      let others : map (pid_of e.out.table) (erase n xs) ≡ erase p (map (pid_of s.table) xs) =
        ap (λ f. map f (erase n xs)) (fun_ext e.pid_at)
        ∙ map-erase (pid_of s.table) p n xs pid_n (λ i h. only_n i (ground arith)) in
      ground (arith, others, e.pid_at s.head, only_n s.head)

first_ready-append :
    (t : Table) (xs ys : List ℕ) (b : ℕ)
    → first_ready t xs ≡ some b
    → first_ready t (xs ++ ys) ≡ some b
unfolding first_ready
first_ready-append t [] ys b h = ground arith
first_ready-append t (x ∷ xs) ys b h = ground (arith, first_ready-append t xs ys b)

not-mem-round : (ys : List ℕ) (c : ℕ) (zs : List ℕ) → AllDistinct (ys ++ c ∷ zs) → c ∉ zs ++ ys
not-mem-round [] c zs d = ground (arith, mem-append c zs [])
not-mem-round (y ∷ ys) c zs d = ground (
  arith,
  not-mem-round ys c zs d.1,
  mem-append c zs (y ∷ ys),
  mem-append c zs ys,
  mem-append y ys (c ∷ zs),
)

-- What `terminate` leaves behind.
pub record Ended (s : Scheduler) (p n b : ℕ) (xs fs : List ℕ) : Type 0 where
  pub out : Scheduler
  pub done : terminate s p ≡ ok (pid_of s.table b, out)
  pub ring : IsRing out (erase n xs) (n ∷ fs)
  pub runs : out.cursor ≡ b
  pub order : rotation out (erase n xs) ≡ erase p (rotation s xs)

module _ (s : Scheduler) (p n b : ℕ) (xs fs ys zs : List ℕ) (r : IsRing s xs fs)
    (at : Map.lookup p s.pids ≡ some n) (other : (n == s.head) ≡ false)
    (running : skip_of s.table n ≡ false) (current : s.cursor ≡ n)
    (place : s.head ∷ xs ≡ ys ++ s.cursor ∷ zs)
    (ready : first_ready s.table (zs ++ ys) ≡ some b) where
  ready' : first_ready s.table (zs ++ (ys ++ s.cursor ∷ [])) ≡ some b
  ready' = rw (← append_assoc) (first_ready-append s.table (zs ++ ys) (s.cursor ∷ []) b ready)

  all_distinct : AllDistinct (ys ++ s.cursor ∷ zs)
  all_distinct = subst AllDistinct place (r.head_out, r.distinct)

  abbrev next_state : Scheduler
  next_state = record s { cursor = b }

  ring' : IsRing next_state xs fs
  ring' = step-IsRing s xs fs ys zs b r place ready'

  moved' : (n == b) ≡ false
  moved' = rw (← current) (
      ground (
        arith,
        ne_of_mem b s.cursor (zs ++ ys) (first_ready_mem s.table (zs ++ ys) b ready).0
            (not-mem-round ys s.cursor zs all_distinct),
      ))

  unlinked : Deallocated next_state n
  unlinked =
      let inside : n ∈ xs = ground (arith, r.found p n at) in
      let near' =
        Links-inside (next_of s.table) (prev_of s.table) n s.head xs s.head inside r.links in
      dealloc-Deallocated next_state n (r.inside n (r.found p n at).0)
        (r.inside (prev_of s.table n) near'.2) (r.inside (next_of s.table n) near'.3)

  abbrev final : Scheduler
  final = left next_state p n xs fs ring' at other running moved' unlinked

  removed : remove s p ≡ ok final
  unfolding remove
  removed =
      rw (at, remove)
        (rw
          (
            (==_iff s.cursor n).1 current,
            step-first_ready s xs fs ys zs b r place ready',
            unlinked.done,
          )
          (ap ok (gone-left next_state p n xs fs ring' at other running moved' unlinked)))

  now-final : now final ≡ ok (pid_of s.table b)
  unfolding now
  now-final =
      rw
        (index-node_at unlinked.out.table b (
          omega
            (arith, unlinked.length_same, r.inside b (ready_mem s xs fs ys zs b r place ready').0)))
        (ap ok (unlinked.pid_at b))

  -- When the running process ends, does not wait and is not the first one in the ring (the head),
  -- while another one is ready, the next process after it that is not waiting runs, and the order of
  -- the other processes is unchanged; the node of the ended process is free.
  pub terminate-Ended : Ended s p n b xs fs
  unfolding terminate rotation
  terminate-Ended = record {
    out = final;
    done = rw (removed, now-final);
    ring = gone-IsRing next_state p n xs fs ring' at other running moved' unlinked;
    runs = refl;
    order = gone_rotation next_state p n xs fs ring' at other running moved' unlinked;
  }
