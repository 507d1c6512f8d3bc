-- ===== src/Vga.antt =====
-- The text screen: the writer of src/syskrnl/vga_buffer.rs.
pub mod Scroll
pub mod Bounds
use tju_cinea_os.Prelude.{
  ℕ, zero, suc, ◌+◌, ◌-◌, ◌*◌, ◌/◌, ◌%◌, Bool, true, false, ◌&&◌, ◌||◌, List, [], ◌∷◌, Run, ok,
  panic, ◌>>=◌, index, set_index, replicate, ◌==◌, ltb, leb, if◌then◌else◌,
}

abbrev pub buffer_height : ℕ
buffer_height = 25

abbrev pub buffer_width : ℕ
buffer_width = 80

abbrev pub tab_size : ℕ
tab_size = 4

pub record ScreenChar : Type 0 where
  pub ascii_character : ℕ
  pub color_code : ℕ

pub data Color : Type 0 where
  black : Color
  blue : Color
  green : Color
  cyan : Color
  red : Color
  magenta : Color
  brown : Color
  light_gray : Color
  dark_gray : Color
  light_blue : Color
  light_green : Color
  light_cyan : Color
  light_red : Color
  pink : Color
  yellow : Color
  white : Color

-- `color as u8`.
unfoldable pub color_byte : Color → ℕ
color_byte black = 0
color_byte blue = 1
color_byte green = 2
color_byte cyan = 3
color_byte red = 4
color_byte magenta = 5
color_byte brown = 6
color_byte light_gray = 7
color_byte dark_gray = 8
color_byte light_blue = 9
color_byte light_green = 10
color_byte light_cyan = 11
color_byte light_red = 12
color_byte pink = 13
color_byte yellow = 14
color_byte white = 15

-- `ColorCode::new`: the shifted background and the foreground have no bit in common.
unfoldable pub color_code : Color → Color → ℕ
color_code foreground background = color_byte background * 16 + color_byte foreground

abbrev pub Buffer : Type 0
Buffer = List (List ScreenChar)

-- The writer; the position that the hardware's cursor was last given is two bytes.
pub record Writer : Type 0 where
  pub row_position : ℕ
  pub column_position : ℕ
  pub color : ℕ
  pub buffer : Buffer
  pub cursor_low : ℕ
  pub cursor_high : ℕ

unfoldable pub move_cursor : Writer → Writer
move_cursor w =
    let pos = w.row_position * buffer_width + w.column_position in
    record w { cursor_low = pos % 256; cursor_high = pos / 256 % 256 }

abbrev pub blank : ℕ → ScreenChar
blank color = record { ascii_character = 32; color_code = color }

abbrev pub blank_row : ℕ → List ScreenChar
blank_row color = replicate buffer_width (blank color)

-- `clear_row`: all cells of the row are written.
unfoldable pub clear_row : ℕ → ℕ → Buffer → Run Buffer
clear_row color row b = set_index b row (blank_row color)

-- The loop over the rows that scrolls, from `row` on for `n` rows: every cell of a row is written
-- with the cell below it.
unfoldable pub copy_rows : ℕ → ℕ → Buffer → Run Buffer
copy_rows zero row b = ok b
copy_rows (suc n) row b = do
  below ← index b (row + 1)
  b ← set_index b row below
  copy_rows n (row + 1) b

unfoldable pub scroll : ℕ → Buffer → Run Buffer
scroll color b = copy_rows (buffer_height - 1) 0 b >>= clear_row color (buffer_height - 1)

unfoldable pub new_line : Writer → Run Writer
new_line w =
    let w = record w { row_position = w.row_position + 1; column_position = 0 } in
    if leb buffer_height w.row_position
    then (scroll w.color w.buffer >>= λ b.
        ok (record w { buffer = b; row_position = buffer_height - 1 }))
    else ok w

unfoldable pub backspace : Writer → Writer
backspace w =
    move_cursor
      (if ltb 0 w.column_position then record w { column_position = w.column_position - 1 } else w)

unfoldable pub carriage_return : Writer → Writer
carriage_return w = move_cursor (record w { column_position = 0 })

-- A new line when the column is past the last one.
unfoldable pub wrap : Writer → Run Writer
wrap w = if leb buffer_width w.column_position then new_line w else ok w

unfoldable pub horizontal_tab : Writer → Run Writer
horizontal_tab w =
    wrap
      (record w { column_position = w.column_position + (tab_size - w.column_position % tab_size) })
    >>= λ w. ok (move_cursor w)

unfoldable pub put : ℕ → Writer → Run Writer
put byte w = do
  row ← index w.buffer w.row_position
  row ← set_index row w.column_position (record { ascii_character = byte; color_code = w.color })
  b ← set_index w.buffer w.row_position row
  ok (move_cursor (record w { buffer = b; column_position = w.column_position + 1 }))

unfoldable pub write_byte : ℕ → Writer → Run Writer
write_byte byte w =
    if byte == 8
    then ok (backspace w)
    else if byte == 9
    then horizontal_tab w
    else if byte == 10
    then new_line w
    else if byte == 13
    then ok (carriage_return w)
    else (wrap w >>= put byte)

-- The bytes that `write_string` writes as they are.
unfoldable pub printable : ℕ → Bool
printable byte =
    (leb 32 byte && leb byte 126) || (byte == 10) || (byte == 13) || (byte == 9) || (byte == 8)

unfoldable pub write_string : List ℕ → Writer → Run Writer
write_string [] w = ok w
write_string (byte ∷ bytes) w =
    write_byte (if printable byte then byte else 254) w >>= write_string bytes
