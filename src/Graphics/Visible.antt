-- ===== src/Graphics/Visible.antt =====
-- What `render` of src/syskrnl/graphic/mod.rs puts on the screen.
use tju_cinea_os.Prelude.{
  ℕ, zero, suc, ◌≤◌, ◌<◌, ◌≡◌, refl, ap, true, false, Option, none, some, List, [], ◌∷◌, length,
  get_elem?, if◌then◌else◌, arith, inl, inr, ◌⊎◌, Bool-cases,
}
use tju_cinea_os.Grid.{Grid, pixel_at, inside}
use tju_cinea_os.Grid.Painted.{
  IsGrid, pixel_of, index_2-pixel_at, set_2-Put, over, Painted, Local, for_rect-Painted,
}
use tju_cinea_os.Graphics.{Pixel, Layer, width, height, default_pixel}
use tju_cinea_os.Graphics.Screen.{mixed, mix_pixel, mix_layer, mix_layers, base_pixel, show_pixel}

-- The colour that a layer shows at a place.
abbrev pub set_color : Option Pixel → Option ℕ
set_color none = none
set_color (some (color, true)) = some color
set_color (some (color, false)) = none

abbrev pub shown : Option Layer → ℕ → ℕ → Option ℕ
shown none a b = none
shown (some l) a b = if l.enable then set_color (pixel_at l.pixels a b) else none

abbrev pub first_of : Option ℕ → Option ℕ → Option ℕ
first_of none o = o
first_of (some color) o = some color

-- The colour that shows of the layers from `k` down to 1: the highest one's that is enabled and has
-- the pixel set.
abbrev pub visible : List Layer → ℕ → ℕ → ℕ → Option ℕ
visible layers zero a b = none
visible layers (suc k) a b = first_of (shown (get_elem? layers (suc k)) a b) (visible layers k a b)

-- The colour of the bottom layer, whether set or not.
abbrev pub any_color : Option Pixel → Option ℕ
any_color none = none
any_color (some p) = some p.0

abbrev pub bottom_color : Option Layer → ℕ → ℕ → Option ℕ
bottom_color none a b = none
bottom_color (some l) a b = any_color (pixel_at l.pixels a b)

abbrev pub AllGrids : List Layer → Type 0
AllGrids [] = Unit {0}
AllGrids (l ∷ layers) = IsGrid height width l.pixels × AllGrids layers

pub layer_of :
    (layers : List Layer) (k : ℕ)
    → AllGrids layers
    → k < length layers
    → (l : Layer) × (get_elem? layers k ≡ some l) × IsGrid height width l.pixels
layer_of [] k g h = absurd (omega arith)
layer_of (l ∷ layers) zero g h = (l, refl, g.0)
layer_of (l ∷ layers) (suc k) g h = layer_of layers k g.1 (omega arith)

abbrev pub or_default : Option Pixel → Pixel
or_default none = default_pixel
or_default (some p) = p

abbrev pub pixel_in : Grid Pixel → ℕ → ℕ → Pixel
pixel_in g a b = or_default (pixel_at g a b)

mix_pixel-Local :
    (tomix : Grid Pixel)
    → IsGrid height width tomix
    → Local height width (λ a b p. mixed p (pixel_in tomix a b)) (mix_pixel tomix)
unfolding mix_pixel
mix_pixel-Local tomix k x y g lx ly h =
    let (p, e) = pixel_of g height width x y h lx ly in
    let (q, f) = pixel_of tomix height width x y k lx ly in
    let s = set_2-Put height width x y (mixed p q) g h lx ly in
    record {
      out = s.out;
      done = rw (index_2-pixel_at g x y e, index_2-pixel_at tomix x y f) s.done;
      grid = s.grid;
      at = λ a b. ground (arith, s.at a b, e, f);
    }

pub base_pixel-Local :
    (bottom : Grid Pixel)
    → IsGrid height width bottom
    → Local height width
        (λ a b p. (if p.1 then p.0 else (pixel_in bottom a b).0, p.1))
        (base_pixel bottom)
unfolding base_pixel
base_pixel-Local bottom k x y g lx ly h =
    let (p, e) = pixel_of g height width x y h lx ly in
    let (q, f) = pixel_of bottom height width x y k lx ly in
    let s = set_2-Put height width x y (if p.1 then p.0 else q.0, p.1) g h lx ly in
    record {
      out = s.out;
      done = rw (index_2-pixel_at g x y e, index_2-pixel_at bottom x y f) s.done;
      grid = s.grid;
      at = λ a b. ground (arith, s.at a b, e, f);
    }

pub show_pixel-Local :
    (graph : Grid Pixel)
    → IsGrid height width graph
    → Local height width (λ a b _. (pixel_in graph a b).0) (show_pixel graph)
unfolding show_pixel
show_pixel-Local graph k x y g lx ly h =
    let (p, e) = pixel_of g height width x y h lx ly in
    let (q, f) = pixel_of graph height width x y k lx ly in
    let s = set_2-Put height width x y q.0 g h lx ly in
    record {
      out = s.out;
      done = rw (index_2-pixel_at graph x y f) s.done;
      grid = s.grid;
      at = λ a b. ground (arith, s.at a b, e, f);
    }

-- A pixel after the layers below it were mixed in.
abbrev pub under : Pixel → Option ℕ → Pixel
under (color, true) o = (color, true)
under (color, false) none = (color, false)
under (color, false) (some c) = (c, true)

under-none : (p : Pixel) → under p none ≡ p
under-none (color, true) = refl
under-none (color, false) = refl

over-under-none : (o : Option Pixel) → over (λ p. under p none) o ≡ o
over-under-none none = refl
over-under-none (some p) = ap some (under-none p)

under-mixed :
    (p : Pixel) (q : Option Pixel) (v : Option ℕ)
    → under (mixed p (or_default q)) v ≡ under p (first_of (set_color q) v)
unfolding mixed
under-mixed (c, true) none v = refl
under-mixed (c, true) (some (d, b)) v = refl
under-mixed (c, false) none v = refl
under-mixed (c, false) (some (d, true)) v = refl
under-mixed (c, false) (some (d, false)) v = refl

over-under-mixed :
    (o q : Option Pixel) (v : Option ℕ)
    → over (λ p. under p v) (over (λ p. mixed p (or_default q)) o)
      ≡ over (λ p. under p (first_of (set_color q) v)) o
over-under-mixed none q v = refl
over-under-mixed (some p) q v = ap some (under-mixed p q v)

module _ (sx ex sy ey : ℕ) (lx : ex ≤ height) (ly : ey ≤ width) (layers : List Layer)
    (all : AllGrids layers) where
  pub mix_layers-Painted :
      (k : ℕ) (g : Grid Pixel)
      → (k ≡ 0) ⊎ (k < length layers)
      → IsGrid height width g
      → Painted height width
          (inside sx ex sy ey)
          (λ a b p. under p (visible layers k a b))
          g
          (mix_layers k sx ex sy ey layers g)
  unfolding mix_layers mix_layer
  mix_layers-Painted zero g l h = record {
    out = g;
    done = refl;
    grid = h;
    at = λ a b. ground (arith, over-under-none (pixel_at g a b));
  }
  mix_layers-Painted (suc k) g l h =
      let (layer, e, grid) =
        layer_of layers (suc k) all (elim l [ inl z ↦ absurd (omega arith) | inr z ↦ z ]) in
      let p =
        for_rect-Painted height width _ _ (mix_pixel-Local layer.pixels grid) sx ex sy ey g lx ly
          h in
      let below : (k ≡ 0) ⊎ (k < length layers) = elim l [
        | inl z ↦ inl (omega arith)
        | inr z ↦ inr (omega arith)
      ] in
      elim (Bool-cases layer.enable) [
        | inl on ↦
            let q = mix_layers-Painted k p.out below p.grid in
            record {
              out = q.out;
              done = rw (e, on, p.done) q.done;
              grid = q.grid;
              at = λ a b. ground (
                arith,
                on,
                e,
                p.at a b,
                q.at a b,
                over-under-mixed (pixel_at g a b) (pixel_at layer.pixels a b)
                    (visible layers k a b),
              );
            }
        | inr off ↦
            let q = mix_layers-Painted k g below h in
            record {
              out = q.out;
              done = rw (e, off) q.done;
              grid = q.grid;
              at = λ a b. ground (arith, off, e, q.at a b);
            }
      ]
