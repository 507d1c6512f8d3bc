-- ===== src/Game.antt =====
-- src/usrbin/src/bin/2048.rs: the rules of the game. A cell that the source holds as -1 (no block)
-- is `none`; one that it holds as v ≥ 0 (the block that shows 2 ^ (v + 2)) is `some v`. The numbers
-- do not overflow: sixteen cells cannot hold a block of more than 2 ^ 18.
pub mod Blocks
pub mod Merge
pub mod Slide
use mathlib.Core.List.{reverse}
use tju_cinea_os.Prelude.{
  ℕ, zero, suc, ◌+◌, ◌-◌, ◌%◌, ◌^◌, Bool, true, false, ◌&&◌, Option, none, some, List, [], ◌∷◌, Run,
  ok, panic, out_of_fuel, ◌>>=◌, index, set_index, get_or, set, ltb, ◌==◌, if◌then◌else◌,
}

abbrev pub Cell : Type 0
Cell = Option ℕ

-- `[i32; 4]` and `Map`, `[[i32; 4]; 4]`.
abbrev pub Line : Type 0
Line = List Cell

abbrev pub Board : Type 0
Board = List Line

-- `line[i] >= 0`, and `line[i] == line[i + 1]`.
abbrev pub is_block : Cell → Bool
is_block none = false
is_block (some v) = true

abbrev pub same_cell : Cell → Cell → Bool
same_cell none none = true
same_cell none (some w) = false
same_cell (some v) none = false
same_cell (some v) (some w) = v == w

abbrev pub no_block : Cell → Bool
no_block none = true
no_block (some v) = false

-- The inner loop of `merge_line`'s first part: the block at `j` moves down over empty cells.
unfoldable pub sift : ℕ → Line → Line
sift zero line = line
sift (suc j) line =
    let moved = sift j (set (set line j (get_or line (suc j) none)) (suc j) none) in
    if is_block (get_or line (suc j) none) && no_block (get_or line j none) then moved else line

-- `line[i] += 1`.
abbrev pub grown : Cell → Cell
grown none = some 0
grown (some v) = some (v + 1)

-- `1 << (line[i] + 2)`: what the block shows.
unfoldable pub worth : Cell → ℕ
worth none = 0
worth (some v) = 2 ^ (v + 2)

-- `for j in from..from + rounds { line[j] = line[j + 1] }`.
pub shift_down : ℕ → ℕ → Line → Line
shift_down zero from line = line
shift_down (suc rounds) from line =
    shift_down rounds (from + 1) (set line from (get_or line (from + 1) none))

-- The `while` loop of `merge_line`'s second part at the cell `i`; the score is accumulated.
unfoldable pub merge_at : ℕ → ℕ → Line → ℕ → Run (Line × ℕ)
merge_at zero i line score = out_of_fuel
merge_at (suc fuel) i line score =
    let cell = get_or line i none in
    let bigger = set line i (grown cell) in
    let closed = set (shift_down (3 - (i + 1)) (i + 1) bigger) 3 none in
    let rest = merge_at fuel i closed (score + worth (grown cell)) in
    if is_block cell && same_cell cell (get_or line (i + 1) none) then rest else ok (line, score)

-- `merge_line`: the line and the score. Each merge takes a block away, so five rounds are enough.
unfoldable pub merge_line : Line → Run (Line × ℕ)
unfolding sift merge_at shift_down worth
merge_line line = do
  (line, score) ← merge_at 5 0 (sift 3 (sift 2 (sift 1 line))) 0
  (line, score) ← merge_at 5 1 line score
  merge_at 5 2 line score

-- `map[i][j]` and `map[i][j] = v`.
abbrev pub cell_at : Board → ℕ → ℕ → Cell
cell_at board i j = get_or (get_or board i []) j none

abbrev pub set_cell : Board → ℕ → ℕ → Cell → Board
set_cell board i j v = set board i (set (get_or board i []) j v)

-- A pass of `slide` over column `j`, upwards or downwards, and over row `i`, to the left or the
-- right.
unfoldable pub slide_up : ℕ → Board × ℕ → Run (Board × ℕ)
slide_up j (b, score) = do
  (buf, s) ← merge_line (cell_at b 0 j ∷ cell_at b 1 j ∷ cell_at b 2 j ∷ cell_at b 3 j ∷ [])
  let b = set_cell b 0 j (get_or buf 0 none)
  let b = set_cell b 1 j (get_or buf 1 none)
  let b = set_cell b 2 j (get_or buf 2 none)
  ok (set_cell b 3 j (get_or buf 3 none), score + s)

unfoldable pub slide_down : ℕ → Board × ℕ → Run (Board × ℕ)
slide_down j (b, score) = do
  (buf, s) ← merge_line (cell_at b 3 j ∷ cell_at b 2 j ∷ cell_at b 1 j ∷ cell_at b 0 j ∷ [])
  let b = set_cell b 0 j (get_or buf 3 none)
  let b = set_cell b 1 j (get_or buf 2 none)
  let b = set_cell b 2 j (get_or buf 1 none)
  ok (set_cell b 3 j (get_or buf 0 none), score + s)

unfoldable pub slide_left : ℕ → Board × ℕ → Run (Board × ℕ)
slide_left i (b, score) = do (buf, s) ← merge_line (get_or b i []); ok (set b i buf, score + s)

unfoldable pub slide_right : ℕ → Board × ℕ → Run (Board × ℕ)
slide_right i (b, score) = do
  (buf, s) ← merge_line (reverse (get_or b i []))
  ok (set b i (reverse buf), score + s)

-- `for k in 0..4`.
abbrev pub four : (ℕ → Board × ℕ → Run (Board × ℕ)) → Board × ℕ → Run (Board × ℕ)
four f b = do b ← f 0 b; b ← f 1 b; b ← f 2 b; f 3 b

-- `slide`: another direction than 0 (up), 1 (down), 2 (left), 3 (right) is unreachable.
unfoldable pub slide : Board → ℕ → Run (Board × ℕ)
unfolding slide_up slide_down slide_left slide_right
slide board direction =
    if direction == 0
    then four slide_up (board, 0)
    else if direction == 1
    then four slide_down (board, 0)
    else if direction == 2
    then four slide_left (board, 0)
    else if direction == 3
    then four slide_right (board, 0)
    else panic

-- `count_last_blocks`: how many cells are empty.
pub count_line : Line → ℕ
count_line [] = 0
count_line (c ∷ cs) = (if is_block c then 0 else 1) + count_line cs

unfoldable pub count_last_blocks : Board → ℕ
unfolding count_line
count_last_blocks [] = 0
count_last_blocks (l ∷ ls) = count_line l + count_last_blocks ls

-- `check_fail`.
unfoldable pub check_fail : Board → Bool
check_fail board = ltb (count_last_blocks board) 2

-- The loop of `random_next` that draws coordinates until they name an empty cell, and writes a
-- block there. The draws of the generator (`tinyrand`) are a list.
pub place : List (ℕ × ℕ) → Board → Run (List (ℕ × ℕ) × Board)
place [] board = out_of_fuel
place ((x, y) ∷ draws) board =
    let rest = place draws board in
    if is_block (cell_at board (x % 4) (y % 4))
    then rest
    else ok (draws, set_cell board (x % 4) (y % 4) (some 0))

-- `random_next`.
unfoldable pub random_next : List (ℕ × ℕ) → Board → Run (List (ℕ × ℕ) × Board)
random_next draws board =
    if ltb (count_last_blocks board) 2
    then ok (draws, board)
    else do (draws, board) ← place draws board; place draws board

-- The three blocks of `init_map`.
unfoldable pub init_map : List (ℕ × ℕ) → Board → Run (List (ℕ × ℕ) × Board)
init_map draws board = do
  (draws, board) ← place draws board
  (draws, board) ← place draws board
  place draws board
