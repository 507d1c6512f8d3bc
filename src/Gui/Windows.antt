-- ===== src/Gui/Windows.antt =====
-- The windows and their places on the screen (src/syskrnl/gui/window.rs).
use tju_cinea_os.Prelude.{
  ℕ, zero, suc, ◌+◌, ◌-◌, ◌≤◌, ◌<◌, ◌≡◌, refl, ap, ◌⊎◌, ◌↔◌, Bool, true, false, Bool-cases, inl,
  inr, Option-cases, Option, none, some, List, [], ◌∷◌, ◌++◌, ok, index, set_index, length,
  length-append, length-set, get_elem?, set, arith, not, ◌&&◌, ==_iff, ◌==◌, ltb, leb,
  if◌then◌else◌,
}
use tju_cinea_os.Events.{switch_front}
use tju_cinea_os.Kernel.{Kernel}
use tju_cinea_os.Gui.{
  Layout, Window, WindowManager, in_window, find_window, find_unused, place_window, create_new,
  create_window, front, destory_window, handle_mouse_click, find_hit, raise,
}

-- Every place in use belongs to a window, and there is a place for each window.
pub record IsTiled (w : WindowManager) : Type 0 where
  pub room : length w.windows ≤ length w.layouts
  pub owned :
      (i : ℕ) (l : Layout) → get_elem? w.layouts i ≡ some l → l.used ≡ true → i < length w.windows

-- Which place is found.
find_unused_lem :
    (n : ℕ) (ls : List Layout) (m : ℕ)
    → m < length ls
    → ((i : ℕ) (l : Layout) → get_elem? ls i ≡ some l → l.used ≡ true → i < m)
    → (j : ℕ) × (find_unused n ls ≡ some (n + j)) × (j ≤ m)
unfolding find_unused
find_unused_lem n [] m h o = elim h [ ]
find_unused_lem n (l ∷ ls) m h o = elim (Bool-cases l.used) [
  | inl u ↦
      let p : 0 < m = o 0 l refl u in
      let (j, e, b) =
        find_unused_lem (n + 1) ls (m - 1) (omega arith)
          (λ i l' g u'. let q = o (suc i) l' g u' in omega arith) in
      let s : n + 1 + j ≡ n + suc j = omega arith in
      (suc j, rw (find_unused, u, e, s) refl, omega arith)
  | inr u ↦ (0, rw (find_unused, u) (ap some (omega arith)), omega arith)
]

set_index-set :
    {A : Type 0} (xs : List A) (i : ℕ) (v : A) → i < length xs → set_index xs i v ≡ ok (set xs i v)
set_index-set [] i v h = elim h [ ]
set_index-set (x ∷ xs) zero v h = refl
set_index-set (x ∷ xs) (suc i) v h = rw (set_index-set xs i v (omega arith)) refl

index-get_elem? :
    {A : Type 0} (xs : List A) (i : ℕ)
    → i < length xs
    → (x : A) × (get_elem? xs i ≡ some x) × (index xs i ≡ ok x)
index-get_elem? [] i h = elim h [ ]
index-get_elem? (x ∷ xs) zero h = (x, refl, refl)
index-get_elem? (x ∷ xs) (suc i) h = index-get_elem? xs i (omega arith)

get_elem?-set :
    (ls : List Layout) (i j : ℕ) (l : Layout)
    → i < length ls
    → get_elem? (set ls i l) j ≡ (if j == i then some l else get_elem? ls j)
get_elem?-set [] i j l h = elim h [ ]
get_elem?-set (x ∷ ls) zero zero l h = ground arith
get_elem?-set (x ∷ ls) zero (suc j) l h = ground arith
get_elem?-set (x ∷ ls) (suc i) zero l h = ground arith
get_elem?-set (x ∷ ls) (suc i) (suc j) l h = ground (arith, get_elem?-set ls i j l)

grown :
    (window : Window) (i : ℕ) (ws : List Window)
    → i ≤ length ws
    → (vs : List Window) × ((if leb (length ws) i
          then ok (ws ++ (window ∷ []))
          else set_index ws i window)
        ≡ ok vs)
      × (length ws ≤ length vs)
      × (i < length vs)
      × ((length vs ≡ length ws) ⊎ (length vs ≡ i + 1))
grown window i ws p = elim (Bool-cases (leb (length ws) i)) [
  | inl e ↦
      let n = length-append ws (window ∷ []) in
      (ws ++ (window ∷ []), rw e refl, omega arith, ground arith, inr (ground arith))
  | inr e ↦
      let n = length-set ws i window in
      (
        set ws i window,
        rw e (set_index-set ws i window (ground arith)),
        omega arith,
        ground arith,
        inl n,
      )
]

-- What placing a window in place `i` does: there is room, and the state stays well formed.
placed-IsTiled :
    (window : Window) (i : ℕ) (w : WindowManager)
    → IsTiled w
    → i ≤ length w.windows
    → i < length w.layouts
    → (w' : WindowManager) × (place_window window i w ≡ ok w') × IsTiled w'
unfolding place_window
placed-IsTiled window i w t p q =
    let (l, g, d) = index-get_elem? w.layouts i q in
    let l' : Layout = record l { used = true } in
    let e = set_index-set w.layouts i l' q in
    let (windows, c, n, m, z) = grown window i w.windows p in
    rw (c, d, e)
      (
        record w { windows = windows; layouts = set w.layouts i l' },
        refl,
        record {
          room = ground (arith, length-set w.layouts i l', t.room);
          owned = λ j k h u. ground (arith, get_elem?-set w.layouts i j l', t.owned j k);
        },
      )

-- The place `x`, `y` is in no window from number `i` up to number `n`.
abbrev pub Clear : WindowManager → ℕ → ℕ → ℕ → ℕ → Type 0
Clear w x y i n = (j : ℕ) → i ≤ j → j < n → in_window w j x y ≡ false

-- The last of the first `n` windows that holds the place, if any.
abbrev pub Topmost : WindowManager → ℕ → ℕ → ℕ → Option ℕ → Type 0
Topmost w x y n none = Clear w x y 0 n
Topmost w x y n (some i) = (i < n) × (in_window w i x y ≡ true) × Clear w x y (i + 1) n

find_hit-Topmost :
    (n x y : ℕ) (w : WindowManager)
    → in_window w w.highlight x y ≡ false
    → Topmost w x y n (find_hit n x y w)
unfolding find_hit
find_hit-Topmost zero x y w out = λ j p q. absurd (omega arith)
find_hit-Topmost (suc n) x y w out = elim (Bool-cases (in_window w n x y)) [
  | inl e ↦
      let other : (n == w.highlight) ≡ false = elim (Bool-cases (n == w.highlight)) [
        | inl s ↦ let same : n ≡ w.highlight = (==_iff n w.highlight).0 s in absurd (cc)
        | inr s ↦ s
      ] in
      rw (find_hit, other, e) (omega arith, e, λ j p q. absurd (omega arith))
  | inr e ↦
      let skipped : (not (n == w.highlight) && in_window w n x y) ≡ false = ground arith in
      rw (find_hit, skipped) (further (find_hit n x y w) (find_hit-Topmost n x y w out) e)
]
  where
    last : {m : ℕ} → Clear w x y m n → in_window w n x y ≡ false → Clear w x y m (suc n)
    last c e j p q = elim (Bool-cases (j == n)) [
      | inl s ↦ rw ((==_iff j n).0 s) e
      | inr s ↦ c j p (ground arith)
    ]

    further :
        (o : Option ℕ) → Topmost w x y n o → in_window w n x y ≡ false → Topmost w x y (suc n) o
    further none c e = last c e
    further (some i) (l, h, c) e = (omega arith, h, last c e)

-- A click outside of the active window, while no window is being moved, does not panic. If it lies in
-- another window, the topmost such window becomes the active one, otherwise the windows stay as they
-- are; the keys go to the shell in either case, not to the window that was clicked.
pub handle_mouse_click-front :
    (x y : ℕ) (w : WindowManager) (k : Kernel)
    → w.moving_window_now ≡ false
    → in_window w w.highlight x y ≡ false
    → (o : Option ℕ) × (w' : WindowManager) × (k' : Kernel) × (handle_mouse_click x y w k
        ≡ ok (w', k'))
      × Topmost w x y (length w.windows) o
      × (w' ≡ elim o [ none ↦ w | some i ↦ record w { highlight = i } ])
      × (k'.events.events.front_proc ≡ 1)
unfolding handle_mouse_click raise front switch_front
handle_mouse_click-front x y w k m out =
    clicked (find_hit (length w.windows) x y w) refl (find_hit-Topmost (length w.windows) x y w out)
  where
    clicked :
        (o : Option ℕ)
        → find_hit (length w.windows) x y w ≡ o
        → Topmost w x y (length w.windows) o
        → (o : Option ℕ) × (w' : WindowManager) × (k' : Kernel) × (handle_mouse_click x y w k
            ≡ ok (w', k'))
          × Topmost w x y (length w.windows) o
          × (w' ≡ elim o [ none ↦ w | some i ↦ record w { highlight = i } ])
          × (k'.events.events.front_proc ≡ 1)
    clicked none e t = (none, w, front 1 k, simp (m, out, e) refl, t, refl, refl)
    clicked (some i) e t =
        let (window, _, at) = index-get_elem? w.windows i t.0 in
        (
          some i,
          record w { highlight = i },
          front 1 (front window.process_id k),
          simp (m, out, e, at) refl,
          t,
          refl,
          refl,
        )

-- A process that had a window and closed it is refused another one.
pub create_window-destory_window :
    (pid i : ℕ) (title : List ℕ) (gm_addr : ℕ) (w w' : WindowManager) (k k' : Kernel)
    → find_window pid 0 w.windows ≡ some i
    → destory_window pid w k ≡ ok (w', k')
    → create_window pid title gm_addr w' ≡ ok (w', false)
unfolding destory_window create_window
create_window-destory_window pid i title gm_addr w w' k k' f e = ground arith

-- Making a window never panics in a well-formed state and leaves one; it is refused, changing
-- nothing, just when the process is known to have a window already or there are as many windows as
-- places.
pub create_window-IsTiled :
    (pid : ℕ) (title : List ℕ) (gm_addr : ℕ) (w : WindowManager)
    → IsTiled w
    → (w' : WindowManager) × (done : Bool) × (create_window pid title gm_addr w ≡ ok (w', done))
      × IsTiled w'
      × ((done ≡ true)
          ↔ ((find_window pid 0 w.windows ≡ none) × (length w.windows < length w.layouts)))
      × ((done ≡ true) ⊎ (w' ≡ w))
unfolding create_window create_new
create_window-IsTiled pid title gm_addr w t = elim (Option-cases (find_window pid 0 w.windows)) [
  | inl e ↦ elim (Bool-cases (ltb (length w.windows) (length w.layouts))) [
    | inl r ↦
        let (i, f, p) = find_unused_lem 0 w.layouts (length w.windows) (ground arith) t.owned in
        let window : Window = record { process_id = pid; title = title; mem_addr = gm_addr } in
        let (w', d, t') = placed-IsTiled window (0 + i) w t (ground arith) (ground arith) in
        (w', true, rw (create_window, e, create_new, r, f, d) refl, t', ground arith, inl refl)
    | inr r ↦ (w, false, rw (create_window, e, create_new, r) refl, t, ground arith, inr refl)
  ]
  | inr (i, e) ↦ (w, false, rw (create_window, e) refl, t, ground arith, inr refl)
]
