-- ===== src/Grid.antt =====
-- Two-dimensional pictures as lists of rows, read and written like Rust's `grid[x][y]`, and the loop
-- over the places of a rectangle: `for x in sx..ex { for y in sy..ey { ... } }`.
pub mod Painted
use tju_cinea_os.Prelude.{
  ℕ, zero, suc, ◌+◌, ◌-◌, ◌≤◌, ◌<◌, ◌≡◌, Bool, true, false, ◌&&◌, Option, none, some, List, [], ◌∷◌,
  Run, ok, ◌>>=◌, index, set_index, get_elem?, length, leb, ltb,
}

abbrev pub Grid : Type 0 → Type 0
Grid A = List (List A)

module _ {A : Type 0} where
  unfoldable pub index_2 : Grid A → ℕ → ℕ → Run A
  index_2 g x y = do row ← index g x; index row y

  unfoldable pub set_2 : ℕ → ℕ → A → Grid A → Run (Grid A)
  set_2 x y v g = do row ← index g x; row ← set_index row y v; set_index g x row

  -- The pixel at a place, if the place is in the picture.
  abbrev pub in_row : Option (List A) → ℕ → Option A
  in_row none y = none
  in_row (some row) y = get_elem? row y

  unfoldable pub pixel_at : Grid A → ℕ → ℕ → Option A
  pixel_at g x y = in_row (get_elem? g x) y

-- The loops: `count` places from `y` on in row x; `count` rows from `x` on.
unfoldable pub for_places : {G : Type 0} → (ℕ → ℕ → G → Run G) → ℕ → ℕ → ℕ → G → Run G
for_places body zero x y g = ok g
for_places body (suc count) x y g = body x y g >>= λ g'. for_places body count x (y + 1) g'

unfoldable pub for_rows : {G : Type 0} → (ℕ → ℕ → G → Run G) → ℕ → ℕ → ℕ → ℕ → G → Run G
for_rows body zero x y width g = ok g
for_rows body (suc count) x y width g =
    for_places body width x y g >>= λ g'. for_rows body count (x + 1) y width g'

-- `for x in sx..ex { for y in sy..ey { body } }`.
unfoldable pub for_rect : {G : Type 0} → (ℕ → ℕ → G → Run G) → ℕ → ℕ → ℕ → ℕ → G → Run G
for_rect body sx ex sy ey g = for_rows body (ex - sx) sx sy (ey - sy) g

abbrev pub inside : ℕ → ℕ → ℕ → ℕ → ℕ → ℕ → Bool
inside sx ex sy ey a b = (leb sx a && ltb a ex) && (leb sy b && ltb b ey)
