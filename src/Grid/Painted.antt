-- ===== src/Grid/Painted.antt =====
-- What a loop over a rectangle leaves when its body changes the one place that it is at.
use tju_cinea_os.Prelude.{
  ℕ, zero, suc, ◌+◌, ◌-◌, ◌≤◌, ◌<◌, ◌≡◌, refl, ap, ◌∙◌, Bool, ◌&&◌, Option, none, some, List, [],
  ◌∷◌, Run, ok, set_index, get_elem?, get_elem?-set_index, length, leb, ltb, ◌==◌, if◌then◌else◌,
  arith,
}
use tju_cinea_os.Grid.{Grid, index_2, set_2, pixel_at, for_places, for_rows, for_rect, inside}

-- A picture with that many rows and places in each row.
abbrev pub AllWide : {A : Type 0} → ℕ → Grid A → Type 0
AllWide w [] = Unit {0}
AllWide w (row ∷ g) = (length row ≡ w) × AllWide w g

abbrev pub IsGrid : {A : Type 0} → ℕ → ℕ → Grid A → Type 0
IsGrid h w g = (length g ≡ h) × AllWide w g

module _ {A : Type 0} where
  pub row_of :
      (g : Grid A) (w x : ℕ)
      → AllWide w g
      → x < length g
      → (row : List A) × (get_elem? g x ≡ some row) × (length row ≡ w)
  row_of [] w x h l = absurd (omega arith)
  row_of (row ∷ g) w zero h l = (row, refl, h.0)
  row_of (row ∷ g) w (suc x) h l = row_of g w x h.1 (omega arith)

  place_of : (row : List A) (y : ℕ) → y < length row → (v : A) × (get_elem? row y ≡ some v)
  place_of [] y l = absurd (omega arith)
  place_of (v ∷ row) zero l = (v, refl)
  place_of (v ∷ row) (suc y) l = place_of row y (omega arith)

  set_row :
      (row : List A) (y : ℕ) (v : A)
      → y < length row
      → (row' : List A) × (set_index row y v ≡ ok row') × (length row' ≡ length row)
  set_row [] y v l = absurd (omega arith)
  set_row (u ∷ row) zero v l = (v ∷ row, refl, refl)
  set_row (u ∷ row) (suc y) v l =
      let (row', e, n) = set_row row y v (omega arith) in (u ∷ row', rw e, ap suc n)

  set_wide :
      (g : Grid A) (w x : ℕ) (row : List A)
      → AllWide w g
      → x < length g
      → length row ≡ w
      → (g' : Grid A) × (set_index g x row ≡ ok g') × (length g' ≡ length g) × AllWide w g'
  set_wide [] w x row h l n = absurd (omega arith)
  set_wide (r ∷ g) w zero row h l n = (row ∷ g, refl, refl, (n, h.1))
  set_wide (r ∷ g) w (suc x) row h l n =
      let (g', e, m, k) = set_wide g w x row h.1 (omega arith) n in
      (r ∷ g', rw e, ap suc m, (h.0, k))

  pub pixel_of :
      (g : Grid A) (h w x y : ℕ)
      → IsGrid h w g
      → x < h
      → y < w
      → (v : A) × (pixel_at g x y ≡ some v)
  unfolding pixel_at
  pixel_of g h w x y k lx ly =
      let (row, e, n) = row_of g w x k.1 (omega arith) in
      let (v, f) = place_of row y (omega arith) in (v, rw (e, f))

  pub index_2-pixel_at :
      (g : Grid A) (x y : ℕ) {v : A} → pixel_at g x y ≡ some v → index_2 g x y ≡ ok v
  unfolding index_2 pixel_at
  index_2-pixel_at g x y h = ground arith

  -- The picture after a write at (x, y).
  pub record Put (h w x y : ℕ) (v : A) (g : Grid A) (r : Run (Grid A)) : Type 0 where
    pub out : Grid A
    pub done : r ≡ ok out
    pub grid : IsGrid h w out
    pub at : (a b : ℕ) → pixel_at out a b ≡ (if a == x && b == y then some v else pixel_at g a b)

  pub set_2-Put :
      (h w x y : ℕ) (v : A) (g : Grid A)
      → IsGrid h w g
      → x < h
      → y < w
      → Put h w x y v g (set_2 x y v g)
  unfolding set_2 pixel_at
  set_2-Put h w x y v g k lx ly =
      let (row, e, n) = row_of g w x k.1 (omega arith) in
      let (row', f, m) = set_row row y v (omega arith) in
      let (g', d, l, wide) = set_wide g w x row' k.1 (omega arith) (m ∙ n) in
      record {
        out = g';
        done = rw (e, f, d);
        grid = (l ∙ k.0, wide);
        at = λ a b.
            ground
              (arith, get_elem?-set_index g x row' g' a d, get_elem?-set_index row y v row' b f);
      }

  abbrev pub over : (A → A) → Option A → Option A
  over f none = none
  over f (some v) = some (f v)

  -- The places of the test are changed by `f`, all others are as they were.
  pub record Painted (h w : ℕ) (test : ℕ → ℕ → Bool) (f : ℕ → ℕ → A → A) (g : Grid A)
      (r : Run (Grid A)) : Type 0 where
    pub out : Grid A
    pub done : r ≡ ok out
    pub grid : IsGrid h w out
    pub at :
        (a b : ℕ)
        → pixel_at out a b ≡ (if test a b then over (f a b) (pixel_at g a b) else pixel_at g a b)

  -- A body that changes the one place.
  abbrev pub Local : ℕ → ℕ → (ℕ → ℕ → A → A) → (ℕ → ℕ → Grid A → Run (Grid A)) → Type 0
  Local h w f body =
      (x y : ℕ) (g : Grid A)
      → x < h
      → y < w
      → IsGrid h w g
      → Painted h w (λ a b. a == x && b == y) f g (body x y g)

  module _ (h w : ℕ) (f : ℕ → ℕ → A → A) (body : ℕ → ℕ → Grid A → Run (Grid A))
      (one : Local h w f body) where
    for_places-Painted :
        (count x y : ℕ) (g : Grid A)
        → x < h
        → count ≤ w - y
        → IsGrid h w g
        → Painted h w
            (λ a b. a == x && (leb y b && ltb b (y + count)))
            f
            g
            (for_places body count x y g)
    unfolding for_places
    for_places-Painted zero x y g lx ly k = record {
      out = g;
      done = refl;
      grid = k;
      at = λ a b. ground arith;
    }
    for_places-Painted (suc count) x y g lx ly k =
        let p = one x y g lx (omega arith) k in
        let q = for_places-Painted count x (y + 1) p.out lx (omega arith) p.grid in
        record {
          out = q.out;
          done = rw p.done q.done;
          grid = q.grid;
          at = λ a b. ground (arith, p.at a b, q.at a b);
        }

    for_rows-Painted :
        (count x y width : ℕ) (g : Grid A)
        → count ≤ h - x
        → width ≤ w - y
        → IsGrid h w g
        → Painted h w
            (λ a b. (leb x a && ltb a (x + count)) && (leb y b && ltb b (y + width)))
            f
            g
            (for_rows body count x y width g)
    unfolding for_rows
    for_rows-Painted zero x y width g lx ly k = record {
      out = g;
      done = refl;
      grid = k;
      at = λ a b. ground arith;
    }
    for_rows-Painted (suc count) x y width g lx ly k =
        let p = for_places-Painted width x y g (omega arith) ly k in
        let q = for_rows-Painted count (x + 1) y width p.out (omega arith) ly p.grid in
        record {
          out = q.out;
          done = rw p.done q.done;
          grid = q.grid;
          at = λ a b. ground (arith, p.at a b, q.at a b);
        }

    pub for_rect-Painted :
        (sx ex sy ey : ℕ) (g : Grid A)
        → ex ≤ h
        → ey ≤ w
        → IsGrid h w g
        → Painted h w (inside sx ex sy ey) f g (for_rect body sx ex sy ey g)
    unfolding for_rect
    for_rect-Painted sx ex sy ey g lx ly k =
        let p = for_rows-Painted (ex - sx) sx sy (ey - sy) g (omega arith) (omega arith) k in
        record { out = p.out; done = p.done; grid = p.grid; at = λ a b. ground (arith, p.at a b) }
