-- ===== src/Graphics/Screen.antt =====
-- `PhysicalWriter` of src/syskrnl/graphic/mod.rs: the screen, and the rendering of the layers on it.
use tju_cinea_os.Prelude.{
  ℕ, zero, suc, ◌+◌, ◌-◌, min, false, ◌&&◌, not, List, Run, ok, ◌>>=◌, index, length, map, leb, ltb,
  ◌==◌, if◌then◌else◌,
}
use tju_cinea_os.Grid.{Grid, index_2, set_2, for_rect}
use tju_cinea_os.Graphics.{Pixel, Layer, width, height}

-- `display_pixel_safe`.
unfoldable pub display_pixel_safe : ℕ → ℕ → ℕ → Grid ℕ → Run (Grid ℕ)
display_pixel_safe x y color screen =
    if ltb x height && ltb y width then set_2 x y color screen else ok screen

-- `display_rect`.
unfoldable pub display_rect : ℕ → ℕ → ℕ → ℕ → ℕ → Grid ℕ → Run (Grid ℕ)
display_rect x y w h color screen =
    for_rect (λ i j g. set_2 i j color g) x (min (x + h) height) y (min (y + w) width) screen

-- What `render` starts from: the top layer, with no pixel set if it is not enabled.
unfoldable pub unset : Pixel → Pixel
unset p = (p.0, false)

unfoldable pub top_graph : Layer → Grid Pixel
top_graph l = if l.enable then l.pixels else map (map unset) l.pixels

-- A pixel that is not set yet takes that of a lower layer.
unfoldable pub mixed : Pixel → Pixel → Pixel
mixed p q = if not p.1 && q.1 then q else p

unfoldable pub mix_pixel : Grid Pixel → ℕ → ℕ → Grid Pixel → Run (Grid Pixel)
mix_pixel tomix x y graph = do
  p ← index_2 graph x y
  q ← index_2 tomix x y
  set_2 x y (mixed p q) graph

unfoldable pub mix_layer : ℕ → ℕ → ℕ → ℕ → Layer → Grid Pixel → Run (Grid Pixel)
mix_layer sx ex sy ey l graph =
    if l.enable then for_rect (mix_pixel l.pixels) sx ex sy ey graph else ok graph

-- The loop over the layers from `layer` down to 1.
unfoldable pub mix_layers : ℕ → ℕ → ℕ → ℕ → ℕ → List Layer → Grid Pixel → Run (Grid Pixel)
mix_layers zero sx ex sy ey layers graph = ok graph
mix_layers (suc layer) sx ex sy ey layers graph = do
  l ← index layers (suc layer)
  graph ← mix_layer sx ex sy ey l graph
  mix_layers layer sx ex sy ey layers graph

-- Where no layer has set a pixel, the bottom layer's colour shows.
unfoldable pub base_pixel : Grid Pixel → ℕ → ℕ → Grid Pixel → Run (Grid Pixel)
base_pixel bottom x y graph = do
  p ← index_2 graph x y
  q ← index_2 bottom x y
  set_2 x y (if p.1 then p.0 else q.0, p.1) graph

unfoldable pub show_pixel : Grid Pixel → ℕ → ℕ → Grid ℕ → Run (Grid ℕ)
show_pixel graph x y screen = do p ← index_2 graph x y; set_2 x y p.0 screen

-- `render` of the rectangle from (sx, sy) up to (ex, ey).
unfoldable pub render : List Layer → ℕ → ℕ → ℕ → ℕ → Grid ℕ → Run (Grid ℕ)
render layers sx sy ex ey screen =
    if (ltb sx height && ltb sy width) && (leb ex height && leb ey width)
    then (if length layers == 0 then ok screen else (do
      top ← index layers (length layers - 1)
      graph ← mix_layers (length layers - 2) sx ex sy ey layers (top_graph top)
      bottom ← index layers 0
      graph ← for_rect (base_pixel bottom.pixels) sx ex sy ey graph
      for_rect (show_pixel graph) sx ex sy ey screen))
    else ok screen
