-- ===== src/Vga/Scroll.antt =====
-- Scrolling the screen of src/syskrnl/vga_buffer.rs.
use tju_cinea_os.Prelude.{
  ℕ, suc, ◌+◌, ◌≡◌, refl, ap, List, [], ◌∷◌, ◌++◌, ok, index, set_index, arith, length,
  length-append,
}
use tju_cinea_os.Vga.{ScreenChar, Buffer, blank_row, clear_row, copy_rows, scroll}

abbrev Row : Type 0
Row = List ScreenChar

-- The rows below the first, and the last of them twice.
shifted : Row → Buffer → Buffer
shifted x [] = x ∷ []
shifted x (y ∷ ys) = y ∷ shifted y ys

index_below :
    (a : Buffer) (x y : Row) (ys : Buffer) → index (a ++ (x ∷ y ∷ ys)) (length a + 1) ≡ ok y
index_below [] x y ys = refl
index_below (b ∷ a) x y ys =
    let e : suc (length a) + 1 ≡ suc (length a + 1) = omega arith in rw e (index_below a x y ys)

set_index_at :
    (a : Buffer) (x v : Row) (ys : Buffer)
    → set_index (a ++ (x ∷ ys)) (length a) v ≡ ok (a ++ (v ∷ ys))
set_index_at [] x v ys = refl
set_index_at (b ∷ a) x v ys = rw (set_index_at a x v ys) refl

snoc : (a : Buffer) (y : Row) (ys : Buffer) → (a ++ (y ∷ [])) ++ ys ≡ a ++ (y ∷ ys)
snoc [] y ys = refl
snoc (b ∷ a) y ys = ap (λ zs. b ∷ zs) (snoc a y ys)

copy_rows-shifted :
    (a : Buffer) (x : Row) (ys : Buffer)
    → copy_rows (length ys) (length a) (a ++ (x ∷ ys)) ≡ ok (a ++ shifted x ys)
unfolding copy_rows shifted
copy_rows-shifted a x [] = refl
copy_rows-shifted a x (y ∷ ys) =
    rw
      (
        index_below a x y ys,
        set_index_at a x y (y ∷ ys),
        ← length-append a (y ∷ []),
        ← snoc a y (y ∷ ys),
        copy_rows-shifted (a ++ (y ∷ [])) y ys,
        snoc a y (shifted y ys),
      )
      refl

set_index-shifted :
    (x v : Row) (ys : Buffer) → set_index (shifted x ys) (length ys) v ≡ ok (ys ++ (v ∷ []))
unfolding shifted
set_index-shifted x v [] = refl
set_index-shifted x v (y ∷ ys) = rw (set_index-shifted y v ys) refl

-- Scrolling a screen of 25 rows drops its first row, moves the others up and puts a blank row last.
pub scroll_lem :
    (color : ℕ) (x : Row) (ys : Buffer)
    → length ys ≡ 24
    → scroll color (x ∷ ys) ≡ ok (ys ++ (blank_row color ∷ []))
unfolding scroll clear_row
scroll_lem color x ys h =
    rw (← h, copy_rows-shifted [] x ys, set_index-shifted x (blank_row color) ys) refl
