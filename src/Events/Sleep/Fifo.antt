-- ===== src/Events/Sleep/Fifo.antt =====
-- The queue of times and the map of src/syskrnl/time/sleep.rs together are one queue of sleepers.
use tju_cinea_os.Prelude.{
  ℕ, ◌+◌, ◌*◌, ◌/◌, ◌<◌, checked_lem, ◌≡◌, refl, ◌∙◌, ap, inl, inr, Bool-cases, Option, none, some,
  List, [], ◌∷◌, ◌++◌, ok, arith, ◌==◌, if◌then◌else◌, leb,
}
use tju_cinea_os.Prelude.Map.{Map, nat_key, lookup, insert, lookup-insert, lookup-remove}
use tju_cinea_os.Events.{Events, wakeup_with_ret}
use tju_cinea_os.Events.Message.{gui_event_make_ret}
use tju_cinea_os.Events.Sleep.{
  Sleep, entry, add_sleep, shrink, wake_first, check_first, check_wakeup, sleep_wakeup_code,
}

-- A sleeper: when it is due and the event it waits for.
abbrev pub Sleepers : Type 0
Sleepers = List (ℕ × ℕ)

unfoldable pub times : Sleepers → List ℕ
times [] = []
times ((t, eid) ∷ l) = t ∷ times l

unfoldable pub due_at : ℕ → Sleepers → List ℕ
due_at t [] = []
due_at t ((t', eid) ∷ l) = let rest = due_at t l in if t == t' then eid ∷ rest else rest

-- The queue looked at as a whole: only the sleeper that came first is looked at, and only it leaves.
unfoldable pub fifo_check : ℕ → Sleepers → Events → Sleepers × Events × Option ℕ
fifo_check now [] ev = ([], ev, none)
fifo_check now ((t, eid) ∷ l) ev =
    let (ev', pid) = wakeup_with_ret eid (gui_event_make_ret sleep_wakeup_code 0 0 0) ev in
    if leb t now then (l, ev', pid) else ((t, eid) ∷ l, ev, none)

abbrev pub Represents : Sleep → Sleepers → Type 0
Represents s l = (s.wakeup_queue ≡ times l) × ((t : ℕ) → entry (lookup t s.wakeup_map) ≡ due_at t l)

times-append : (t eid : ℕ) (l : Sleepers) → times (l ++ ((t, eid) ∷ [])) ≡ times l ++ (t ∷ [])
unfolding times
times-append t eid [] = refl
times-append t eid ((t', eid') ∷ l) = ap (λ ts. t' ∷ ts) (times-append t eid l)

due_at-append :
    (t t' eid : ℕ) (l : Sleepers)
    → due_at t (l ++ ((t', eid) ∷ [])) ≡ (if t == t' then due_at t l ++ (eid ∷ []) else due_at t l)
unfolding due_at
due_at-append t t' eid [] = refl
due_at-append t t' eid ((s, eid') ∷ l) = ground (arith, due_at-append t t' eid l)

entry-insert :
    (t t' : ℕ) (eids : List ℕ) (m : Map ℕ (List ℕ))
    → entry (lookup t (insert t' eids m)) ≡ (if t == t' then eids else entry (lookup t m))
entry-insert t t' eids m = ground (arith, lookup-insert t' t eids m)

entry-shrink :
    (t t' : ℕ) (eids : List ℕ) (m : Map ℕ (List ℕ))
    → entry (lookup t (shrink t' eids m)) ≡ (if t == t' then eids else entry (lookup t m))
unfolding shrink
entry-shrink t t' [] m = ground (arith, lookup-remove t' t m)
entry-shrink t t' (eid ∷ eids) m = entry-insert t t' (eid ∷ eids) m

-- Adding a sleeper for `time` milliseconds, while the time a thousandfold and the wakeup time are
-- below 2 ^ 64, does not panic and puts it last in the queue, due `time` ticks from now.
pub add_sleep-Represents :
    (now time eid : ℕ) (s : Sleep) (l : Sleepers)
    → Represents s l
    → time * 1000 < 18446744073709551616
    → now + time < 18446744073709551616
    → (s' : Sleep) × (add_sleep now time eid s ≡ ok s')
      × Represents s' (l ++ ((now + time, eid) ∷ []))
unfolding add_sleep
add_sleep-Represents now time eid s l (q, m) small soon =
    let w : ℕ = now + time in
    let due : now + time * 1000 / 1000 ≡ now + time = omega arith in
    (
      record {
        wakeup_queue = s.wakeup_queue ++ (w ∷ []);
        wakeup_map = insert w (entry (lookup w s.wakeup_map) ++ (eid ∷ [])) s.wakeup_map;
      },
      rw (checked_lem (time * 1000) small, due, checked_lem (now + time) soon) refl,
      (
        rw (q, times-append w eid l) refl,
        λ t. ground (
          arith,
          m t,
          m w,
          due_at-append t w eid l,
          entry-insert t w (entry (lookup w s.wakeup_map) ++ (eid ∷ [])) s.wakeup_map,
        ),
      ),
    )

entry_cons :
    {eid : ℕ} {eids : List ℕ} (o : Option (List ℕ)) → entry o ≡ eid ∷ eids → o ≡ some (eid ∷ eids)
entry_cons none h = ground arith
entry_cons (some eids) h = rw h refl

check_first-fifo_check :
    (now : ℕ) (s : Sleep) (l : Sleepers) (ev : Events)
    → Represents s l
    → (s' : Sleep) × (check_first now (times l) s ev
        ≡ ok (s', (fifo_check now l ev).1, (fifo_check now l ev).2))
      × Represents s' (fifo_check now l ev).0
unfolding check_first wake_first fifo_check times due_at
check_first-fifo_check now s [] ev r = (s, refl, r)
check_first-fifo_check now s ((t, eid) ∷ l) ev (q, m) = elim (Bool-cases (leb t now)) [
  | inl e ↦
      let first : entry (lookup t s.wakeup_map) ≡ eid ∷ due_at t l = ground (arith, m t) in
      let at : lookup t s.wakeup_map ≡ some (eid ∷ due_at t l) =
        entry_cons (lookup t s.wakeup_map) first in
      let s' : Sleep = record {
        wakeup_queue = times l;
        wakeup_map = shrink t (due_at t l) s.wakeup_map;
      } in
      rw (e, at)
        (s', refl, (refl, λ t'. ground (arith, m t', entry-shrink t' t (due_at t l) s.wakeup_map)))
  | inr e ↦ rw e (s, refl, (q, m))
]

-- Looking for a sleeper to wake never panics, does what the queue of sleepers says, and leaves a
-- state that stands for the queue that is left.
pub check_wakeup-fifo_check :
    (now : ℕ) (s : Sleep) (l : Sleepers) (ev : Events)
    → Represents s l
    → (s' : Sleep) × (check_wakeup now s ev
        ≡ ok (s', (fifo_check now l ev).1, (fifo_check now l ev).2))
      × Represents s' (fifo_check now l ev).0
unfolding check_wakeup
check_wakeup-fifo_check now s l ev r =
    let (s', e, r') = check_first-fifo_check now s l ev r in
    (s', ap (λ ts. check_first now ts s ev) r.0 ∙ e, r')
