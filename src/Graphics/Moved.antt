-- ===== src/Graphics/Moved.antt =====
-- Moving the picture of a layer (src/syskrnl/graphic/mod.rs).
use tju_cinea_os.Prelude.{
  ℕ, zero, suc, ◌≤◌, ◌<◌, ◌≡◌, refl, Bool, true, false, ◌&&◌, Option, none, some, List, [], ◌∷◌, ok,
  get_elem?, length, replicate, length-replicate, ltb, ◌==◌, if◌then◌else◌, arith, inl, inr,
  Bool-cases,
}
use tju_cinea_os.Prelude.Int.{ℤ, pos, negsuc, ◌-ℤ◌}
use tju_cinea_os.Grid.{Grid, pixel_at}
use tju_cinea_os.Grid.Painted.{
  IsGrid, AllWide, set_2-Put, pixel_of, index_2-pixel_at, over, Painted, Local, for_rect-Painted,
}
use tju_cinea_os.Graphics.{Pixel, Layer, width, height, default_pixel, blank, moved_pixel, move_to}

-- The pixel at a place with signed coordinates, if the place is in the picture.
abbrev pub signed_pixel_at : Grid Pixel → ℤ → ℤ → Option Pixel
signed_pixel_at g (pos x) (pos y) = pixel_at g x y
signed_pixel_at g (pos x) (negsuc y) = none
signed_pixel_at g (negsuc x) y = none

abbrev pub or_else : Option Pixel → Pixel → Pixel
or_else none p = p
or_else (some q) p = q

row_outside : {A : Type 0} (row : List A) (y : ℕ) → length row ≤ y → get_elem? row y ≡ none
row_outside [] y h = refl
row_outside (v ∷ row) zero h = absurd (omega arith)
row_outside (v ∷ row) (suc y) h = row_outside row y (omega arith)

wide_outside : (g : Grid Pixel) (w x y : ℕ) → AllWide w g → w ≤ y → pixel_at g x y ≡ none
unfolding pixel_at
wide_outside [] w x y k h = refl
wide_outside (row ∷ g) w zero y k h = row_outside row y (omega (arith, k.0))
wide_outside (row ∷ g) w (suc x) y k h = unfold pixel_at in wide_outside g w x y k.1 h

pixel_outside :
    (g : Grid Pixel) (x y : ℕ)
    → IsGrid height width g
    → (ltb y width && ltb x height) ≡ false
    → pixel_at g x y ≡ none
unfolding pixel_at
pixel_outside g x y k h = elim (Bool-cases (ltb x height)) [
  | inl inside_rows ↦ wide_outside g width x y k.1 (ground arith)
  | inr below ↦ rw (row_outside g x (ground (arith, k.0)))
]

same_here : (o : Option Pixel) (t : Bool) → o ≡ (if t then over (or_else none) o else o)
same_here none true = refl
same_here none false = refl
same_here (some p) true = refl
same_here (some p) false = refl

moved_pixel-Local :
    (ox oy : ℤ) (old : Grid Pixel) (i j : ℕ) (g : Grid Pixel)
    → IsGrid height width old
    → i < height
    → j < width
    → IsGrid height width g
    → Painted height width
        (λ a b. a == i && b == j)
        (λ _ _. or_else (signed_pixel_at old oy ox))
        g
        (moved_pixel ox oy old i j g)
unfolding moved_pixel
moved_pixel-Local (pos x) (pos y) old i j g w li lj k =
    elim (Bool-cases (ltb x width && ltb y height)) [
      | inl here ↦
          let (q, e) = pixel_of old height width y x w (ground arith) (ground arith) in
          let (u, f) = pixel_of g height width i j k li lj in
          let s = set_2-Put height width i j q g k li lj in
          record {
            out = s.out;
            done = rw (here, index_2-pixel_at old y x e) s.done;
            grid = s.grid;
            at = λ a b. ground (arith, s.at a b, e, f);
          }
      | inr out ↦
          let e = pixel_outside old y x w out in
          record {
            out = g;
            done = rw out;
            grid = k;
            at = λ a b. rw e (same_here (pixel_at g a b) (a == i && b == j));
          }
    ]
moved_pixel-Local (pos x) (negsuc y) old i j g w li lj k = record {
  out = g;
  done = refl;
  grid = k;
  at = λ a b. same_here (pixel_at g a b) (a == i && b == j);
}
moved_pixel-Local (negsuc x) (pos y) old i j g w li lj k = record {
  out = g;
  done = refl;
  grid = k;
  at = λ a b. same_here (pixel_at g a b) (a == i && b == j);
}
moved_pixel-Local (negsuc x) (negsuc y) old i j g w li lj k = record {
  out = g;
  done = refl;
  grid = k;
  at = λ a b. same_here (pixel_at g a b) (a == i && b == j);
}

blank-IsGrid : IsGrid height width blank
blank-IsGrid = (length-replicate height (replicate width default_pixel), replicate_wide height)
  where
    replicate_wide : (n : ℕ) → AllWide width (replicate n (replicate width default_pixel))
    replicate_wide zero = tt
    replicate_wide (suc n) = (length-replicate width default_pixel, replicate_wide n)

get_elem?-replicate : {A : Type 0} (n i : ℕ) (v : A) → i < n → get_elem? (replicate n v) i ≡ some v
get_elem?-replicate zero i v h = absurd (omega arith)
get_elem?-replicate (suc n) zero v h = refl
get_elem?-replicate (suc n) (suc i) v h = get_elem?-replicate n i v (omega arith)

pixel_at-blank : (a b : ℕ) → a < height → b < width → pixel_at blank a b ≡ some default_pixel
unfolding pixel_at
pixel_at-blank a b ha hb = rw (
  get_elem?-replicate height a (replicate width default_pixel) ha,
  get_elem?-replicate width b default_pixel hb,
)

-- Moving a picture by (dx, dy), of either sign, never panics: each place then has the pixel that was
-- dy rows and dx places before it, and is unset where that is outside the picture.
pub move_to-signed_pixel_at :
    (dx dy : ℤ) (l : Layer) (a b : ℕ)
    → IsGrid height width l.pixels
    → a < height
    → b < width
    → (out : Layer) × (move_to dx dy l ≡ ok out)
      × (out.enable ≡ l.enable)
      × (pixel_at out.pixels a b
          ≡ some (or_else (signed_pixel_at l.pixels (pos a -ℤ dy) (pos b -ℤ dx)) default_pixel))
unfolding move_to
move_to-signed_pixel_at dx dy l a b w ha hb =
    let source = λ (i j : ℕ). signed_pixel_at l.pixels (pos i -ℤ dy) (pos j -ℤ dx) in
    let one : Local height width (λ i j. or_else (source i j))
        (λ i j g. moved_pixel (pos j -ℤ dx) (pos i -ℤ dy) l.pixels i j g) =
      λ i j g li lj k.
        let p = moved_pixel-Local (pos j -ℤ dx) (pos i -ℤ dy) l.pixels i j g w li lj k in
        record {
          out = p.out;
          done = p.done;
          grid = p.grid;
          at = λ a b. ground (arith, p.at a b);
        } in
    let p =
      for_rect-Painted height width _ _ one 0 height 0 width blank (omega arith) (omega arith)
        blank-IsGrid in
    (
      record l { pixels = p.out },
      rw p.done,
      refl,
      ground (arith, p.at a b, pixel_at-blank a b ha hb),
    )
