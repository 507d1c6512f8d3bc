-- ===== src/Graphics/WindowWriter.antt =====
-- `WindowWriter` of src/sysapi/src/gui.rs: the picture that a program draws for its window.
use tju_cinea_os.Prelude.{ℕ, ◌+◌, ◌-◌, min, ◌&&◌, Run, ok, ◌>>=◌, replicate, ltb, if◌then◌else◌}
use tju_cinea_os.Grid.{Grid, set_2, for_rect}

unfoldable pub window_content_width : ℕ
window_content_width = 296

unfoldable pub window_content_height : ℕ
window_content_height = 178

pub record WindowWriter : Type 0 where
  pub gm : Grid ℕ
  pub bg_color : ℕ

-- `WindowWriter::new`.
unfoldable pub new : ℕ → WindowWriter
new background_color = record {
  gm = replicate window_content_height (replicate window_content_width background_color);
  bg_color = background_color;
}

abbrev pub with_gm : WindowWriter → Run (Grid ℕ) → Run WindowWriter
with_gm w r = do g ← r; ok (record w { gm = g })

unfoldable pub display_pixel_safe : ℕ → ℕ → ℕ → WindowWriter → Run WindowWriter
display_pixel_safe x y color w =
    if ltb x window_content_height && ltb y window_content_width
    then with_gm w (set_2 x y color w.gm)
    else ok w

unfoldable pub clear_pixel_safe : ℕ → ℕ → WindowWriter → Run WindowWriter
clear_pixel_safe x y w =
    if ltb x window_content_height && ltb y window_content_width
    then with_gm w (set_2 x y w.bg_color w.gm)
    else ok w

-- The loops of `display_rect` and `clear_rect`; they leave out the last row and the last column.
unfoldable pub fill_rect : ℕ → ℕ → ℕ → ℕ → ℕ → WindowWriter → Run WindowWriter
fill_rect x y w h color writer = with_gm writer (
    for_rect (λ i j g. set_2 i j color g) x (min (x + h) (window_content_height - 1)) y
      (min (y + w) (window_content_width - 1)) writer.gm)

unfoldable pub display_rect : ℕ → ℕ → ℕ → ℕ → ℕ → WindowWriter → Run WindowWriter
display_rect x y w h color writer = fill_rect x y w h color writer

unfoldable pub clear_rect : ℕ → ℕ → ℕ → ℕ → WindowWriter → Run WindowWriter
clear_rect x y w h writer = fill_rect x y w h writer.bg_color writer
