-- ===== src/Events/Sleep.antt =====
-- Sleeping processes (src/syskrnl/time/sleep.rs, and PIT_PER_SECOND of src/syskrnl/time/pit.rs).
pub mod Fifo
use tju_cinea_os.Prelude.{
  ℕ, ◌+◌, ◌*◌, ◌/◌, Bool, true, false, Option, none, some, List, [], ◌∷◌, ◌++◌, Run, ok, ◌>>=◌,
  unwrap, checked, if◌then◌else◌, leb,
}
use tju_cinea_os.Prelude.Map.{Map, nat_key, lookup, insert, remove}
use tju_cinea_os.Events.{Events, wakeup_with_ret}
use tju_cinea_os.Events.Message.{gui_event_make_ret}

abbrev pub pit_per_second : ℕ
pit_per_second = 1000

abbrev pub sleep_wakeup_code : ℕ
sleep_wakeup_code = 1

-- The queue of wakeup times, and the events of each time.
pub record Sleep : Type 0 where
  pub wakeup_queue : List ℕ
  pub wakeup_map : Map ℕ (List ℕ)

abbrev pub entry : Option (List ℕ) → List ℕ
entry none = []
entry (some eids) = eids

unfoldable pub add_sleep : ℕ → ℕ → ℕ → Sleep → Run Sleep
add_sleep now time eid s = do
  ticks ← checked (time * pit_per_second)
  wakeup_time ← checked (now + ticks / 1000)
  ok (record {
    wakeup_queue = s.wakeup_queue ++ (wakeup_time ∷ []);
    wakeup_map =
        insert wakeup_time (entry (lookup wakeup_time s.wakeup_map) ++ (eid ∷ [])) s.wakeup_map;
  })

-- What follows `pop_front` on the events of a time: an emptied entry goes.
unfoldable pub shrink : ℕ → List ℕ → Map ℕ (List ℕ) → Map ℕ (List ℕ)
shrink time [] m = remove time m
shrink time (eid ∷ eids) m = insert time (eid ∷ eids) m

unfoldable pub wake_first : ℕ → List ℕ → List ℕ → Sleep → Events → Sleep × Events × Option ℕ
wake_first first rest [] s ev = (record s { wakeup_queue = rest }, ev, none)
wake_first first rest (eid ∷ eids) s ev =
    let (ev', pid) = wakeup_with_ret eid (gui_event_make_ret sleep_wakeup_code 0 0 0) ev in
    (record { wakeup_queue = rest; wakeup_map = shrink first eids s.wakeup_map }, ev', pid)

unfoldable pub check_first : ℕ → List ℕ → Sleep → Events → Run (Sleep × Events × Option ℕ)
check_first now [] s ev = ok (s, ev, none)
check_first now (first ∷ rest) s ev =
    if leb first now
    then (unwrap (lookup first s.wakeup_map) >>= λ eids. ok (wake_first first rest eids s ev))
    else ok (s, ev, none)

-- `check_wakeup`, with the clock's reading given.
unfoldable pub check_wakeup : ℕ → Sleep → Events → Run (Sleep × Events × Option ℕ)
check_wakeup now s ev = check_first now s.wakeup_queue s ev
