-- ===== src/Events/Drain.antt =====
-- In which order the processes that wait for an event are woken (src/syskrnl/event/mod.rs).
use tju_cinea_os.Prelude.{
  ℕ, zero, suc, ◌≡◌, refl, ap, Option, none, some, List, [], ◌∷◌, ◌++◌, arith, ◌==◌, if◌then◌else◌,
  length, Option-cases, inl, inr,
}
use tju_cinea_os.Prelude.Map.{nat_key, lookup, insert, lookup-insert}
use tju_cinea_os.Events.{EventQueue, waiters, wakeup, wakeup_from, chosen, position, remove_at}

-- The entries of one process, and the entries of all the others, in the order they came.
unfoldable pub of_proc : ℕ → List ℕ → List ℕ
of_proc p [] = []
of_proc p (x ∷ xs) = let rest = of_proc p xs in if x == p then x ∷ rest else rest

unfoldable pub of_others : ℕ → List ℕ → List ℕ
of_others p [] = []
of_others p (x ∷ xs) = let rest = of_others p xs in if x == p then rest else x ∷ rest

-- The processes that waking `n` times returns.
unfoldable pub until_none : Option ℕ → List ℕ → List ℕ
until_none none rest = []
until_none (some pid) rest = pid ∷ rest

unfoldable pub drain : ℕ → ℕ → EventQueue → List ℕ
drain zero event q = []
drain (suc n) event q = until_none (wakeup event q).1 (drain n event (wakeup event q).0)

position-of_proc :
    (fp : ℕ) (xs : List ℕ) → position fp xs ≡ none → (of_proc fp xs ≡ []) × (of_others fp xs ≡ xs)
unfolding position of_proc of_others
position-of_proc fp [] h = (refl, refl)
position-of_proc fp (x ∷ xs) h = elim (Option-cases (position fp xs)) [
  | inl e ↦ let (a, b) = position-of_proc fp xs e in ground arith
  | inr (i, e) ↦ ground arith
]

position-of_proc_tail :
    (fp x : ℕ) (xs : List ℕ)
    → position fp (x ∷ xs) ≡ none
    → (of_proc fp xs ≡ []) × (of_others fp xs ≡ xs)
unfolding position
position-of_proc_tail fp x xs h =
    position-of_proc fp xs (ground (arith, Option-cases (position fp xs)))

position-remove_at :
    (fp : ℕ) (xs : List ℕ) (i : ℕ)
    → position fp xs ≡ some i
    → (of_proc fp xs ≡ fp ∷ of_proc fp (remove_at i xs))
      × (of_others fp xs ≡ of_others fp (remove_at i xs))
      × (length xs ≡ suc (length (remove_at i xs)))
unfolding position of_proc of_others remove_at
position-remove_at fp [] i h = ground arith
position-remove_at fp (x ∷ xs) zero h = elim (Option-cases (position fp xs)) [
  | inl e ↦ ground arith
  | inr (i, e) ↦ ground arith
]
position-remove_at fp (x ∷ xs) (suc i) h = elim (Option-cases (position fp xs)) [
  | inl e ↦ ground arith
  | inr (j, e) ↦ ground (arith, position-remove_at fp xs j e)
]

-- What is known of one wakeup of an event for which `pids` wait.
Woken : ℕ → List ℕ → EventQueue → EventQueue × Option ℕ → Type 0
Woken event pids q (q', none) = (pids ≡ []) × (waiters event q' ≡ pids)
Woken event pids q (q', some pid) =
    (q'.front_proc ≡ q.front_proc)
    × (length pids ≡ suc (length (waiters event q')))
    × (of_proc q.front_proc pids ++ of_others q.front_proc pids
        ≡ pid ∷ of_proc q.front_proc (waiters event q')
          ++ of_others q.front_proc (waiters event q'))

left :
    (event : ℕ) (ys : List ℕ) (q : EventQueue)
    → waiters event (record q { queue = insert event ys q.queue }) ≡ ys
left event ys q = ground (arith, lookup-insert event event ys q.queue)

chosen-Woken :
    (event x : ℕ) (xs : List ℕ) (q : EventQueue) (o : Option ℕ)
    → position q.front_proc (x ∷ xs) ≡ o
    → Woken event (x ∷ xs) q (chosen event x xs q o)
unfolding chosen Woken of_proc of_others
chosen-Woken event x xs q none e =
    let (a, b) = position-of_proc q.front_proc (x ∷ xs) e in
    let (c, d) = position-of_proc_tail q.front_proc x xs e in
    rw (left event xs q) (refl, refl, rw (a, b, c, d) refl)
chosen-Woken event x xs q (some i) e =
    let (a, b, c) = position-remove_at q.front_proc (x ∷ xs) i e in
    rw (left event (remove_at i (x ∷ xs)) q) (refl, c, rw (a, b) refl)

wakeup_from-Woken :
    (event : ℕ) (q : EventQueue) (o : Option (List ℕ))
    → lookup event q.queue ≡ o
    → Woken event (waiters event q) q (wakeup_from event q o)
unfolding wakeup_from Woken
wakeup_from-Woken event q none h = (rw (waiters, h) refl, refl)
wakeup_from-Woken event q (some []) h = (rw (waiters, h) refl, refl)
wakeup_from-Woken event q (some (x ∷ xs)) h =
    rw (waiters, h) (chosen-Woken event x xs q (position q.front_proc (x ∷ xs)) refl)

wakeup-Woken : (event : ℕ) (q : EventQueue) → Woken event (waiters event q) q (wakeup event q)
unfolding wakeup
wakeup-Woken event q = wakeup_from-Woken event q (lookup event q.queue) refl

after :
    (n event : ℕ) (q : EventQueue) (r : EventQueue × Option ℕ)
    → Woken event (waiters event q) q r
    → length (waiters event q) ≡ suc n
    → (pid : ℕ) × (r.1 ≡ some pid)
      × (length (waiters event r.0) ≡ n)
      × (of_proc q.front_proc (waiters event q) ++ of_others q.front_proc (waiters event q)
          ≡ pid ∷ of_proc r.0.front_proc (waiters event r.0)
            ++ of_others r.0.front_proc (waiters event r.0))
unfolding Woken
after n event q (q', none) (e, h) k = ground (arith, ap length e)
after n event q (q', some pid) (f, l, h) k = (pid, refl, omega arith, rw f h)

nobody : (p : ℕ) (ws : List ℕ) → length ws ≡ 0 → [] ≡ of_proc p ws ++ of_others p ws
unfolding of_proc of_others
nobody p [] h = refl
nobody p (x ∷ xs) h = ground arith

-- Waking an event as often as there are entries waiting for it wakes every entry once: those of the
-- front process first, then the others in the order in which they came.
pub drain_order :
    (n event : ℕ) (q : EventQueue)
    → length (waiters event q) ≡ n
    → drain n event q
      ≡ of_proc q.front_proc (waiters event q) ++ of_others q.front_proc (waiters event q)
unfolding drain until_none
drain_order zero event q h = nobody q.front_proc (waiters event q) h
drain_order (suc n) event q h =
    let (pid, e, l, k) = after n event q (wakeup event q) (wakeup-Woken event q) h in
    rw (drain_order n event (wakeup event q).0 l, e, k) refl
