-- ===== src/Graphics/Rects.antt =====
-- What drawing a rectangle leaves, on a layer (src/syskrnl/graphic/mod.rs) and in the picture of a
-- window (src/sysapi/src/gui.rs).
use tju_cinea_os.Prelude.{
  ℕ, ◌+◌, ◌-◌, ◌≡◌, refl, min, Bool, true, ◌&&◌, some, Run, ok, leb, ltb, if◌then◌else◌, arith, inl,
  inr, Bool-cases,
}
use tju_cinea_os.Grid.{set_2, pixel_at, inside}
use tju_cinea_os.Grid.Painted.{IsGrid, set_2-Put, pixel_of, Local, for_rect-Painted}
use tju_cinea_os.Graphics
use tju_cinea_os.Graphics.{Pixel, Layer, width, height, default_pixel, fill_rect}
use tju_cinea_os.Graphics.WindowWriter
use tju_cinea_os.Graphics.WindowWriter.{WindowWriter, window_content_width, window_content_height}

pub set_2-Local : {A : Type 0} (h w : ℕ) (v : A) → Local h w (λ _ _ _. v) (λ i j g. set_2 i j v g)
set_2-Local h w v x y g lx ly k =
    let (p, e) = pixel_of g h w x y k lx ly in
    let s = set_2-Put h w x y v g k lx ly in
    record { out = s.out; done = s.done; grid = s.grid; at = λ a b. ground (arith, s.at a b, e) }

-- The place is in the rectangle and in the picture.
abbrev pub covered : ℕ → ℕ → ℕ → ℕ → ℕ → ℕ → ℕ → ℕ → Bool
covered x y w h rows columns a b =
    (leb x a && (ltb a (x + h) && ltb a rows)) && (leb y b && (ltb b (y + w) && ltb b columns))

covered_inside :
    (x y w h rows columns a b : ℕ)
    → inside x (min (x + h) rows) y (min (y + w) columns) a b ≡ covered x y w h rows columns a b
covered_inside x y w h rows columns a b = ground arith

-- A layer's picture after a rectangle was filled.
record Filled (x y w h : ℕ) (v : Pixel) (l : Layer) (r : Run Layer) : Type 0 where
  out : Layer
  done : r ≡ ok out
  grid : IsGrid height width out.pixels
  same_enable : out.enable ≡ l.enable
  at :
      (a b : ℕ)
      → pixel_at out.pixels a b
        ≡ (if covered x y w h height width a b then some v else pixel_at l.pixels a b)

fill_rect-Filled :
    (x y w h : ℕ) (v : Pixel) (l : Layer)
    → IsGrid height width l.pixels
    → Filled x y w h v l (fill_rect x y w h v l)
unfolding fill_rect
fill_rect-Filled x y w h v l k =
    let p =
      for_rect-Painted height width (λ _ _ _. v) (λ i j g. set_2 i j v g)
        (set_2-Local height width v) x (min (x + h) height) y (min (y + w) width) l.pixels
        (omega arith) (omega arith) k in
    record {
      out = record l { pixels = p.out };
      done = rw p.done;
      grid = p.grid;
      same_enable = refl;
      at = λ a b. elim (Bool-cases (covered x y w h height width a b)) [
        | inl here ↦
            let (u, e) = pixel_of l.pixels height width a b k (ground arith) (ground arith) in
            ground (arith, here, e, p.at a b, covered_inside x y w h height width a b)
        | inr out ↦ ground (arith, out, p.at a b, covered_inside x y w h height width a b)
      ];
    }

-- Drawing a rectangle on a layer, at any place and of any size, never panics: the pixels of the
-- rectangle that are in the picture are set to the colour, and the others stay; and clearing the same
-- rectangle then leaves these unset, and the others as they were at first.
pub display_rect-clear_rect :
    (x y w h color : ℕ) (l : Layer) (a b : ℕ)
    → IsGrid height width l.pixels
    → (l' l'' : Layer) × (Graphics.display_rect x y w h color l ≡ ok l')
      × (Graphics.clear_rect x y w h l' ≡ ok l'')
      × (pixel_at l'.pixels a b ≡ (
          if covered x y w h height width a b then some (color, true) else pixel_at l.pixels a b))
      × (pixel_at l''.pixels a b ≡ (
          if covered x y w h height width a b then some default_pixel else pixel_at l.pixels a b))
unfolding Graphics.display_rect Graphics.clear_rect
display_rect-clear_rect x y w h color l a b k =
    let p = fill_rect-Filled x y w h (color, true) l k in
    let q = fill_rect-Filled x y w h default_pixel p.out p.grid in
    (p.out, q.out, p.done, q.done, p.at a b, ground (arith, p.at a b, q.at a b))

-- Drawing a rectangle in the picture of a window never panics, and sets the pixels of the rectangle
-- except for those in the last row and the last column of the picture, which keep what they had, as
-- does everything outside the rectangle.
pub display_rect_clipped :
    (x y w h color : ℕ) (writer : WindowWriter) (a b : ℕ)
    → IsGrid window_content_height window_content_width writer.gm
    → (out : WindowWriter) × (WindowWriter.display_rect x y w h color writer ≡ ok out)
      × (pixel_at out.gm a b ≡ (
          if covered x y w h (window_content_height - 1) (window_content_width - 1) a b
          then some color
          else pixel_at writer.gm a b))
unfolding WindowWriter.display_rect WindowWriter.fill_rect
display_rect_clipped x y w h color writer a b k =
    let rows = window_content_height - 1 in
    let columns = window_content_width - 1 in
    let p =
      for_rect-Painted window_content_height window_content_width (λ _ _ _. color)
        (λ i j g. set_2 i j color g) (set_2-Local window_content_height window_content_width color)
        x (min (x + h) rows) y (min (y + w) columns) writer.gm (omega arith) (omega arith) k in
    (
      record writer { gm = p.out },
      rw p.done,
      elim (Bool-cases (covered x y w h rows columns a b)) [
        | inl here ↦
            let (u, e) =
              pixel_of writer.gm window_content_height window_content_width a b k (ground arith)
                (ground arith) in
            ground (arith, here, e, p.at a b, covered_inside x y w h rows columns a b)
        | inr out ↦ ground (arith, out, p.at a b, covered_inside x y w h rows columns a b)
      ],
    )
