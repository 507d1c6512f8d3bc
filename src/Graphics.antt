-- ===== src/Graphics.antt =====
-- src/syskrnl/graphic/mod.rs: the layers that programs, windows and the cursor draw on. A colour is
-- a number; x counts the rows and y the places in a row, as in the code.
pub mod Screen
pub mod WindowWriter
pub mod Visible
pub mod Rendered
pub mod Rects
pub mod Moved
use tju_cinea_os.Prelude.{
  ℕ, zero, suc, ◌+◌, ◌-◌, min, Bool, true, false, ◌&&◌, List, [], ◌∷◌, Run, ok, ◌>>=◌, replicate,
  leb, ltb, if◌then◌else◌,
}
use tju_cinea_os.Prelude.Int.{ℤ, pos, negsuc, ◌-ℤ◌}
use tju_cinea_os.Grid.{Grid, index_2, set_2, for_rect}

unfoldable pub width : ℕ
width = 800

unfoldable pub height : ℕ
height = 600

-- A colour, and whether it is set.
abbrev pub Pixel : Type 0
Pixel = ℕ × Bool

abbrev pub default_pixel : Pixel
default_pixel = (0, false)

-- `Writer`.
pub record Layer : Type 0 where
  pub pixels : Grid Pixel
  pub enable : Bool

-- `Writer::new`.
abbrev pub blank : Grid Pixel
blank = replicate height (replicate width default_pixel)

unfoldable pub new : Layer
new = record { pixels = blank; enable = false }

abbrev pub with_pixels : Layer → Run (Grid Pixel) → Run Layer
with_pixels l r = do g ← r; ok (record l { pixels = g })

unfoldable pub display_pixel : ℕ → ℕ → ℕ → Layer → Run Layer
display_pixel x y color l = with_pixels l (set_2 x y (color, true) l.pixels)

unfoldable pub clear_pixel : ℕ → ℕ → Layer → Run Layer
clear_pixel x y l = with_pixels l (set_2 x y default_pixel l.pixels)

unfoldable pub display_pixel_safe : ℕ → ℕ → ℕ → Layer → Run Layer
display_pixel_safe x y color l =
    if ltb x height && ltb y width then with_pixels l (set_2 x y (color, true) l.pixels) else ok l

unfoldable pub clear_pixel_safe : ℕ → ℕ → Layer → Run Layer
clear_pixel_safe x y l =
    if ltb x height && ltb y width then with_pixels l (set_2 x y default_pixel l.pixels) else ok l

-- The loops of `display_rect` and `clear_rect`.
unfoldable pub fill_rect : ℕ → ℕ → ℕ → ℕ → Pixel → Layer → Run Layer
fill_rect x y w h p l =
    with_pixels l
      (for_rect (λ i j g. set_2 i j p g) x (min (x + h) height) y (min (y + w) width) l.pixels)

unfoldable pub display_rect : ℕ → ℕ → ℕ → ℕ → ℕ → Layer → Run Layer
display_rect x y w h color l = fill_rect x y w h (color, true) l

unfoldable pub clear_rect : ℕ → ℕ → ℕ → ℕ → Layer → Run Layer
clear_rect x y w h l = fill_rect x y w h default_pixel l

-- Pixels relative to a place: a row, a place in it, a colour.
unfoldable pub display_resolved : ℕ → ℕ → List (ℕ × ℕ × ℕ) → Layer → Run Layer
display_resolved x y [] l = ok l
display_resolved x y ((dx, dy, color) ∷ resolved) l =
    display_pixel_safe (x + dx) (y + dy) color l >>= display_resolved x y resolved

unfoldable pub clear_resolved : ℕ → ℕ → List (ℕ × ℕ × ℕ) → Layer → Run Layer
clear_resolved x y [] l = ok l
clear_resolved x y ((dx, dy, color) ∷ resolved) l =
    clear_pixel_safe (x + dx) (y + dy) l >>= clear_resolved x y resolved

-- The picture of a window, copied to (x, y).
unfoldable pub display_row : ℕ → ℕ → List ℕ → Layer → Run Layer
display_row x y [] l = ok l
display_row x y (d ∷ ds) l = display_pixel_safe x y d l >>= display_row x (y + 1) ds

unfoldable pub display_from_copied : ℕ → ℕ → Grid ℕ → Layer → Run Layer
display_from_copied x y [] l = ok l
display_from_copied x y (c ∷ cs) l = display_row x y c l >>= display_from_copied (x + 1) y cs

-- The body of `move_to`: the old pixel comes from the row i - dy and the place j - dx, if these are in
-- the picture.
unfoldable pub moved_pixel : ℤ → ℤ → Grid Pixel → ℕ → ℕ → Grid Pixel → Run (Grid Pixel)
moved_pixel (pos old_x) (pos old_y) old i j g =
    if ltb old_x width && ltb old_y height
    then (index_2 old old_y old_x >>= λ p. set_2 i j p g)
    else ok g
moved_pixel (negsuc n) old_y old i j g = ok g
moved_pixel (pos n) (negsuc k) old i j g = ok g

unfoldable pub move_to : ℤ → ℤ → Layer → Run Layer
move_to dx dy l = with_pixels l (
    for_rect (λ i j g. moved_pixel (pos j -ℤ dx) (pos i -ℤ dy) l.pixels i j g) 0 height 0 width
      blank)
