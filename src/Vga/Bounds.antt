-- ===== src/Vga/Bounds.antt =====
-- The writer of src/syskrnl/vga_buffer.rs stays inside its screen.
use tju_cinea_os.Prelude.{
  ℕ, zero, suc, ◌+◌, ◌-◌, ◌%◌, ◌≤◌, ◌<◌, ◌≡◌, refl, ap, Bool-cases, inl, inr, List, [], ◌∷◌, ◌++◌,
  Run, ok, index, set_index, arith, length, length-append, length-replicate, ◌>>=◌, ◌==◌, leb, ltb,
  if◌then◌else◌,
}
use tju_cinea_os.Vga.{
  ScreenChar, Buffer, Writer, blank, blank_row, scroll, new_line, wrap, put, write_byte,
  write_string, horizontal_tab, backspace, carriage_return, move_cursor, printable,
}
use tju_cinea_os.Vga.Scroll.{scroll_lem}

-- Every row has 80 cells.
unfoldable pub AllWide : Buffer → Type 0
AllWide [] = Unit {0}
AllWide (r ∷ rs) = (length r ≡ 80) × AllWide rs

-- A screen of 25 rows of 80 cells, with the writer in one of the rows.
pub record IsScreen (w : Writer) : Type 0 where
  pub rows : length w.buffer ≡ 25
  pub wide : AllWide w.buffer
  pub row : w.row_position < 25

-- A run that ends on such a screen, in a column of it or just past the last one.
pub record Stays (r : Run Writer) : Type 0 where
  pub out : Writer
  pub done : r ≡ ok out
  pub screen : IsScreen out
  pub column : out.column_position ≤ 80

index-AllWide :
    (b : Buffer) (i : ℕ)
    → AllWide b
    → i < length b
    → (r : List ScreenChar) × (index b i ≡ ok r) × (length r ≡ 80)
unfolding AllWide
index-AllWide [] i a h = elim h [ ]
index-AllWide (r ∷ rs) zero (l, a) h = (r, refl, l)
index-AllWide (r ∷ rs) (suc i) (l, a) h = index-AllWide rs i a (omega arith)

set_index-AllWide :
    (b : Buffer) (i : ℕ) (v : List ScreenChar)
    → AllWide b
    → i < length b
    → length v ≡ 80
    → (b' : Buffer) × (set_index b i v ≡ ok b') × (length b' ≡ length b) × AllWide b'
unfolding AllWide
set_index-AllWide [] i v a h k = elim h [ ]
set_index-AllWide (r ∷ rs) zero v (l, a) h k = (v ∷ rs, refl, refl, (k, a))
set_index-AllWide (r ∷ rs) (suc i) v (l, a) h k =
    let (b', e, n, a') = set_index-AllWide rs i v a (omega arith) k in
    (r ∷ b', rw e refl, ap suc n, (l, a'))

set_index-length :
    (r : List ScreenChar) (i : ℕ) (c : ScreenChar)
    → i < length r
    → (r' : List ScreenChar) × (set_index r i c ≡ ok r') × (length r' ≡ length r)
set_index-length [] i c h = elim h [ ]
set_index-length (x ∷ r) zero c h = (c ∷ r, refl, refl)
set_index-length (x ∷ r) (suc i) c h =
    let (r', e, n) = set_index-length r i c (omega arith) in (x ∷ r', rw e refl, ap suc n)

append-AllWide :
    (b : Buffer) (v : List ScreenChar) → AllWide b → length v ≡ 80 → AllWide (b ++ (v ∷ []))
unfolding AllWide
append-AllWide [] v a k = (k, tt)
append-AllWide (r ∷ rs) v (l, a) k = (l, append-AllWide rs v a k)

scroll-AllWide :
    (color : ℕ) (b : Buffer)
    → length b ≡ 25
    → AllWide b
    → (b' : Buffer) × (scroll color b ≡ ok b') × (length b' ≡ 25) × AllWide b'
unfolding AllWide
scroll-AllWide color [] h a = ground arith
scroll-AllWide color (x ∷ ys) h (l, a) = (
  ys ++ (blank_row color ∷ []),
  scroll_lem color x ys (omega arith),
  omega (arith, length-append ys (blank_row color ∷ [])),
  append-AllWide ys (blank_row color) a (length-replicate 80 (blank color)),
)

new_line-IsScreen :
    (w : Writer)
    → IsScreen w
    → (w' : Writer) × (new_line w ≡ ok w') × IsScreen w' × (w'.column_position ≡ 0)
unfolding new_line
new_line-IsScreen w v = elim (Bool-cases (leb 25 (w.row_position + 1))) [
  | inl e ↦
      let (b', d, n, a) = scroll-AllWide w.color w.buffer v.rows v.wide in
      rw (e, d) (_, refl, record { rows = n; wide = a; row = omega arith }, refl)
  | inr e ↦ rw e (_, refl, record { rows = v.rows; wide = v.wide; row = ground arith }, refl)
]

wrap-IsScreen :
    (w : Writer)
    → IsScreen w
    → (w' : Writer) × (wrap w ≡ ok w') × IsScreen w' × (w'.column_position < 80)
unfolding wrap
wrap-IsScreen w v = elim (Bool-cases (leb 80 w.column_position)) [
  | inl e ↦ let (w', d, v', c) = new_line-IsScreen w v in (w', rw (e, d) refl, v', omega arith)
  | inr e ↦ (w, rw e refl, v, ground arith)
]

put-Stays : (byte : ℕ) (w : Writer) → IsScreen w → w.column_position < 80 → Stays (put byte w)
unfolding put move_cursor
put-Stays byte w v c =
    let (r, d, l) = index-AllWide w.buffer w.row_position v.wide (omega (arith, v.rows, v.row)) in
    let cell : ScreenChar = record { ascii_character = byte; color_code = w.color } in
    let (r', d', l') = set_index-length r w.column_position cell (omega arith) in
    let (b', d'', n, a) =
      set_index-AllWide w.buffer w.row_position r' v.wide (omega (arith, v.rows, v.row))
        (omega arith) in
    record {
      out = move_cursor (record w { buffer = b'; column_position = w.column_position + 1 });
      done = rw (d, d', d'') refl;
      screen = record { rows = omega (arith, v.rows); wide = a; row = v.row };
      column = omega arith;
    }

move_cursor-Stays : (w : Writer) → IsScreen w → w.column_position ≤ 80 → Stays (ok (move_cursor w))
unfolding move_cursor
move_cursor-Stays w v c = record {
  out = move_cursor w;
  done = refl;
  screen = record { rows = v.rows; wide = v.wide; row = v.row };
  column = c;
}

backspace-Stays : (w : Writer) → IsScreen w → w.column_position ≤ 80 → Stays (ok (backspace w))
unfolding backspace
backspace-Stays w v c = elim (Bool-cases (ltb 0 w.column_position)) [
  | inl e ↦ rw e (
      move_cursor-Stays (record w { column_position = w.column_position - 1 })
        (record { rows = v.rows; wide = v.wide; row = v.row }) (omega arith))
  | inr e ↦ rw e (move_cursor-Stays w v c)
]

carriage_return-Stays : (w : Writer) → IsScreen w → Stays (ok (carriage_return w))
unfolding carriage_return
carriage_return-Stays w v =
    move_cursor-Stays (record w { column_position = 0 })
      (record { rows = v.rows; wide = v.wide; row = v.row }) (omega arith)

horizontal_tab-Stays : (w : Writer) → IsScreen w → Stays (horizontal_tab w)
unfolding horizontal_tab
horizontal_tab-Stays w v =
    let t : Writer = record w {
      column_position = w.column_position + (4 - w.column_position % 4);
    } in
    let (w', d, v', c) = wrap-IsScreen t (record { rows = v.rows; wide = v.wide; row = v.row }) in
    rw d (move_cursor-Stays w' v' (omega arith))

new_line-Stays : (w : Writer) → IsScreen w → Stays (new_line w)
new_line-Stays w v =
    let (w', d, v', c) = new_line-IsScreen w v in
    record { out = w'; done = d; screen = v'; column = omega arith }

wrap-put-Stays : (byte : ℕ) (w : Writer) → IsScreen w → Stays (wrap w >>= put byte)
wrap-put-Stays byte w v = let (w', d, v', c) = wrap-IsScreen w v in rw d (put-Stays byte w' v' c)

-- Whatever byte is written, the writer does not leave its screen: no row or cell out of bounds is
-- touched, the screen keeps its 25 rows of 80 cells, and the column is at most 80.
pub write_byte-Stays :
    (byte : ℕ) (w : Writer) → IsScreen w → w.column_position ≤ 80 → Stays (write_byte byte w)
unfolding write_byte
write_byte-Stays byte w v c = elim (Bool-cases (byte == 8)) [
  | inl e ↦ rw e (backspace-Stays w v c)
  | inr e ↦ elim (Bool-cases (byte == 9)) [
    | inl f ↦ rw (e, f) (horizontal_tab-Stays w v)
    | inr f ↦ elim (Bool-cases (byte == 10)) [
      | inl g ↦ rw (e, f, g) (new_line-Stays w v)
      | inr g ↦ elim (Bool-cases (byte == 13)) [
        | inl h ↦ rw (e, f, g, h) (carriage_return-Stays w v)
        | inr h ↦ rw (e, f, g, h) (wrap-put-Stays byte w v)
      ]
    ]
  ]
]

-- Writing a string, from a column of the screen on, never panics and stays on the screen.
pub write_string-Stays :
    (bytes : List ℕ) (w : Writer)
    → IsScreen w
    → w.column_position ≤ 80
    → Stays (write_string bytes w)
unfolding write_string
write_string-Stays [] w v c = record { out = w; done = refl; screen = v; column = c }
write_string-Stays (byte ∷ bytes) w v c =
    let s = write_byte-Stays (if printable byte then byte else 254) w v c in
    let t = write_string-Stays bytes s.out s.screen s.column in
    record { out = t.out; done = rw (s.done, t.done) refl; screen = t.screen; column = t.column }
