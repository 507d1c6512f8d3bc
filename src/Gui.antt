-- ===== src/Gui.antt =====
-- The window manager: src/syskrnl/gui/window.rs, with WINDOW_WIDTH and WINDOW_HEIGHT of
-- src/sysapi/src/gui.rs.
pub mod Windows
use tju_cinea_os.Prelude.{
  ℕ, zero, suc, ◌+◌, ◌-◌, ◌%◌, Bool, true, false, ◌&&◌, ◌||◌, not, Option, none, some, List, [],
  ◌∷◌, ◌++◌, Run, ok, panic, ◌>>=◌, index, set_index, unwrap, length, get_elem?, ◌==◌, ltb, leb,
  if◌then◌else◌,
}
use tju_cinea_os.Events
use tju_cinea_os.Events.{Events, EventQueue, gui_event}
use tju_cinea_os.Events.Message.{gui_event_make_ret}
use tju_cinea_os.Kernel.{Kernel, notify}

pub record Layout : Type 0 where
  pub x : ℕ
  pub y : ℕ
  pub used : Bool

pub record Window : Type 0 where
  pub process_id : ℕ
  pub title : List ℕ
  pub mem_addr : ℕ

pub record WindowManager : Type 0 where
  pub windows : List Window
  pub layouts : List Layout
  pub highlight : ℕ
  pub moving_window_now : Bool

abbrev pub new : WindowManager
new = record {
  windows = [];
  layouts =
      record { x = 30; y = 450; used = false } ∷ record { x = 250; y = 450; used = false } ∷ [];
  highlight = 0;
  moving_window_now = false;
}

abbrev pub window_height : ℕ
window_height = 200

abbrev pub window_width : ℕ
window_width = 300

unfoldable pub covers : Layout → ℕ → ℕ → Bool
covers l x y =
    l.used && leb l.x x && ltb x (l.x + window_height) && leb l.y y && ltb y (l.y + window_width)

unfoldable pub in_window : WindowManager → ℕ → ℕ → ℕ → Bool
in_window w i x y = elim (get_elem? w.layouts i) [ none ↦ false | some l ↦ covers l x y ]

-- The first window of a process, counted from `i`.
unfoldable pub find_window : ℕ → ℕ → List Window → Option ℕ
find_window pid i [] = none
find_window pid i (w ∷ ws) =
    let rest = find_window pid (i + 1) ws in if w.process_id == pid then some i else rest

unfoldable pub find_unused : ℕ → List Layout → Option ℕ
find_unused i [] = none
find_unused i (l ∷ ls) = let rest = find_unused (i + 1) ls in if l.used then rest else some i

-- The window of a new process, in the place of the first layout that is not used.
unfoldable pub place_window : Window → ℕ → WindowManager → Run WindowManager
place_window window i w = do
  windows ←
      (if leb (length w.windows) i
        then ok (w.windows ++ (window ∷ []))
        else set_index w.windows i window)
  l ← index w.layouts i
  layouts ← set_index w.layouts i (record l { used = true })
  ok (record w { windows = windows; layouts = layouts })

unfoldable pub create_new : Window → WindowManager → Run (WindowManager × Bool)
create_new window w =
    if ltb (length w.windows) (length w.layouts)
    then (unwrap (find_unused 0 w.layouts) >>= λ i. place_window window i w >>= λ w. ok (w, true))
    else ok (w, false)

-- `create_window` of the process `pid`.
unfoldable pub create_window : ℕ → List ℕ → ℕ → WindowManager → Run (WindowManager × Bool)
create_window pid title gm_addr w = elim (find_window pid 0 w.windows) [
  | none ↦ create_new (record { process_id = pid; title = title; mem_addr = gm_addr }) w
  | some i ↦ ok (w, false)
]

-- Which process gets the keys: `EVENT_QUEUE.lock().switch_front(..)`.
unfoldable pub front : ℕ → Kernel → Kernel
front pid k = record k {
  events = record k.events { events = Events.switch_front pid k.events.events };
}

-- `destory_window` of the process `pid`.
unfoldable pub destory_window : ℕ → WindowManager → Kernel → Run (WindowManager × Kernel)
destory_window pid w k = elim (find_window pid 0 w.windows) [
  | none ↦ ok (w, k)
  | some i ↦ do
    l ← index w.layouts i
    layouts ← set_index w.layouts i (record l { used = false })
    ok (record w { layouts = layouts }, front 1 k)
]

abbrev pub gui_event_exit : ℕ
gui_event_exit = 0

abbrev pub gui_event_mouse_click : ℕ
gui_event_mouse_click = 2

-- The click at `x`, `y` from the corner of the window. The column of a click in the picture is the
-- one from the picture's edge, 2 further, as a `usize`: a click over the edge panics.
unfoldable pub click_in : Window → ℕ → ℕ → WindowManager → Kernel → Run (WindowManager × Kernel)
click_in window x y w k =
    let eid = gui_event window.process_id in
    if ltb x 20
    then (if ltb y 18
        then (notify eid (gui_event_make_ret gui_event_exit 0 0 0) k >>= λ k. ok (w, k))
        else if ltb y 38
        then ok (record w { moving_window_now = true }, k)
        else ok (w, k))
    else if ltb y 2
    then panic
    else (notify eid
          (gui_event_make_ret gui_event_mouse_click ((x - 20) % 65536) ((y - 2) % 65536) 0) k
        >>= λ k. ok (w, k))

unfoldable pub window_handle_click :
    ℕ → ℕ → ℕ → WindowManager → Kernel → Run (WindowManager × Kernel)
window_handle_click i x y w k = do
  l ← index w.layouts i
  window ← index w.windows i
  if ltb x l.x || ltb y l.y then panic else click_in window (x - l.x) (y - l.y) w k

-- The loop over the windows from the last to the first: the one hit, if any.
unfoldable pub find_hit : ℕ → ℕ → ℕ → WindowManager → Option ℕ
find_hit zero x y w = none
find_hit (suc i) x y w =
    let rest = find_hit i x y w in
    if not (i == w.highlight) && in_window w i x y then some i else rest

unfoldable pub raise : Option ℕ → WindowManager → Kernel → Run (WindowManager × Kernel)
raise none w k = ok (w, k)
raise (some i) w k =
    index w.windows i >>= λ window. ok (record w { highlight = i }, front window.process_id k)

unfoldable pub move_window : ℕ → ℕ → WindowManager → Run WindowManager
move_window x y w = do
  l ← index w.layouts w.highlight
  layouts ← set_index w.layouts w.highlight (record l { x = x; y = y })
  ok (record w { layouts = layouts; moving_window_now = false })

-- After the loop the shell is made the front process, whether a window was hit or not.
unfoldable pub handle_mouse_click : ℕ → ℕ → WindowManager → Kernel → Run (WindowManager × Kernel)
handle_mouse_click x y w k =
    if w.moving_window_now
    then (move_window x y w >>= λ w. ok (w, k))
    else if in_window w w.highlight x y
    then window_handle_click w.highlight x y w k
    else do (w, k) ← raise (find_hit (length w.windows) x y w) w k; ok (w, front 1 k)
