-- ===== src/Graphics/Rendered.antt =====
-- `render` of src/syskrnl/graphic/mod.rs against the colour that shows of a pile of layers.
use tju_cinea_os.Prelude.{
  ℕ, zero, suc, ◌-◌, ◌≤◌, ◌<◌, ◌≡◌, refl, sym, ◌∙◌, ◌⊎◌, inl, inr, Bool, true, false, ◌&&◌, Option,
  none, some, List, [], ◌∷◌, ok, length, map, get_elem?, leb, ltb, ◌==◌, if◌then◌else◌, arith,
  length-map, Bool-cases,
}
use tju_cinea_os.Grid.{Grid, pixel_at, inside}
use tju_cinea_os.Grid.Painted.{IsGrid, AllWide, pixel_of, over, for_rect-Painted}
use tju_cinea_os.Graphics.{Pixel, Layer, width, height}
use tju_cinea_os.Graphics.Screen.{unset, top_graph, render}
use tju_cinea_os.Graphics.Visible.{
  visible, first_of, set_color, bottom_color, AllGrids, layer_of, under, base_pixel-Local,
  show_pixel-Local, mix_layers-Painted,
}

row_map : (row : List Pixel) (b : ℕ) → get_elem? (map unset row) b ≡ over unset (get_elem? row b)
row_map [] b = refl
row_map (p ∷ row) zero = refl
row_map (p ∷ row) (suc b) = row_map row b

pixel_at-map :
    (g : Grid Pixel) (a b : ℕ) → pixel_at (map (map unset) g) a b ≡ over unset (pixel_at g a b)
unfolding pixel_at
pixel_at-map [] a b = refl
pixel_at-map (row ∷ g) zero b = row_map row b
pixel_at-map (row ∷ g) (suc a) b = unfold pixel_at in pixel_at-map g a b

map-AllWide : (w : ℕ) (g : Grid Pixel) → AllWide w g → AllWide w (map (map unset) g)
map-AllWide w [] h = tt
map-AllWide w (row ∷ g) h = (length-map row unset ∙ h.0, map-AllWide w g h.1)

-- The pixel with which the top layer starts.
abbrev start : Bool → Pixel → Pixel
start true p = p
start false p = (p.0, false)

over_start : (o : Option Pixel) → over (start true) o ≡ o
over_start none = refl
over_start (some p) = refl

top_graph-start :
    (l : Layer) (a b : ℕ)
    → IsGrid height width l.pixels
    → IsGrid height width (top_graph l)
      × (pixel_at (top_graph l) a b ≡ over (start l.enable) (pixel_at l.pixels a b))
unfolding top_graph unset
top_graph-start l a b h = elim (Bool-cases l.enable) [
  | inl on ↦ rw on (h, sym (over_start (pixel_at l.pixels a b)))
  | inr off ↦ rw off (
    (length-map l.pixels (map unset) ∙ h.0, map-AllWide width l.pixels h.1),
    pixel_at-map l.pixels a b,
  )
]

-- The colour that comes out.
final_color :
    (enable : Bool) (p q : Pixel) (v : Option ℕ)
    → some (if (under (start enable p) v).1 then (under (start enable p) v).0 else q.0)
      ≡ first_of (first_of (if enable then set_color (some p) else none) v) (some q.0)
final_color true (c, true) q v = refl
final_color true (c, false) q none = refl
final_color true (c, false) q (some d) = refl
final_color false p q none = refl
final_color false p q (some d) = refl

last_two : (n : ℕ) → 0 < n → (n - 2 ≡ 0) ⊎ (n - 2 < n)
last_two n h = inr (omega arith)

-- The colour that shows of a pile of layers: that of the highest layer that is enabled and has the
-- pixel set, else the bottom layer's.
abbrev pub color_shown : List Layer → ℕ → ℕ → Option ℕ
color_shown layers a b =
    first_of (visible layers (length layers - 1) a b) (bottom_color (get_elem? layers 0) a b)

own_color :
    (enable : Bool) (p : Pixel)
    → first_of (first_of (if enable then set_color (some p) else none) none) (some p.0) ≡ some p.0
own_color true (c, true) = refl
own_color true (c, false) = refl
own_color false p = refl

color_shown_top :
    (layers : List Layer) (a b n : ℕ) (top bottom : Layer) (p q : Pixel)
    → length layers ≡ suc n
    → get_elem? layers n ≡ some top
    → get_elem? layers 0 ≡ some bottom
    → pixel_at top.pixels a b ≡ some p
    → pixel_at bottom.pixels a b ≡ some q
    → color_shown layers a b
      ≡ first_of
          (first_of (if top.enable then set_color (some p) else none) (visible layers (n - 1) a b))
          (some q.0)
color_shown_top layers a b zero top bottom p q l e f u v = ground (arith, own_color top.enable p)
color_shown_top layers a b (suc n) top bottom p q l e f u v = ground arith

-- Rendering a rectangle of the screen never panics; inside the rectangle the screen then has, at each
-- place, the colour of the highest layer that is enabled and has that pixel set, and the bottom
-- layer's colour where there is none; outside it has what it had.
pub render-color_shown :
    (layers : List Layer) (sx sy ex ey : ℕ) (screen : Grid ℕ) (a b : ℕ)
    → AllGrids layers
    → 0 < length layers
    → IsGrid height width screen
    → sx < height
    → sy < width
    → ex ≤ height
    → ey ≤ width
    → (out : Grid ℕ) × (render layers sx sy ex ey screen ≡ ok out)
      × IsGrid height width out
      × (pixel_at out a b
          ≡ (if inside sx ex sy ey a b then color_shown layers a b else pixel_at screen a b))
unfolding render
render-color_shown layers sx sy ex ey screen a b all pos grid hx hy lx ly =
    let n = length layers in
    let (top, e, top_grid) = layer_of layers (n - 1) all (omega arith) in
    let (bottom, f, bottom_grid) = layer_of layers 0 all pos in
    let (start_grid, start_at) = top_graph-start top a b top_grid in
    let p =
      mix_layers-Painted sx ex sy ey lx ly layers all (n - 2) (top_graph top) (last_two n pos)
        start_grid in
    let q =
      for_rect-Painted height width _ _ (base_pixel-Local bottom.pixels bottom_grid) sx ex sy ey
        p.out lx ly p.grid in
    let r =
      for_rect-Painted height width _ _ (show_pixel-Local q.out q.grid) sx ex sy ey screen lx ly
        grid in
    let guard : (ltb sx height && ltb sy width) && (leb ex height && leb ey width) ≡ true =
      ground arith in
    let some_layer : (n == 0) ≡ false = ground arith in
    (
      r.out,
      rw (guard, some_layer, e, p.done, f, q.done) r.done,
      r.grid,
      elim (Bool-cases (inside sx ex sy ey a b)) [
        | inr out ↦ ground (arith, out, r.at a b)
        | inl here ↦
            let (u, c) =
              pixel_of top.pixels height width a b top_grid (ground arith) (ground arith) in
            let (v, d) =
              pixel_of bottom.pixels height width a b bottom_grid (ground arith) (ground arith) in
            let (w, g) = pixel_of screen height width a b grid (ground arith) (ground arith) in
            let same = color_shown_top layers a b (n - 1) top bottom u v (omega arith) e f c d in
            ground (
              arith,
              here,
              r.at a b,
              q.at a b,
              p.at a b,
              start_at,
              c,
              d,
              g,
              same,
              final_color top.enable u v (visible layers (n - 2) a b),
            )
      ],
    )
