-- ===== src/Game/Merge.antt =====
-- `merge_line` of src/usrbin/src/bin/2048.rs does to a line what `merged` does to its blocks.
use tju_cinea_os.Prelude.{
  ℕ, ◌≤◌, ◌≡◌, refl, none, some, List, [], ◌∷◌, arith, Run, ok, ◌>>=◌, length,
}
use tju_cinea_os.Game.{Cell, Line, sift, merge_at, shift_down, merge_line}
use tju_cinea_os.Game.Blocks.{blocks, merged, gain}

-- The line with the given blocks at its start.
abbrev pub packed : List ℕ → Line
packed [] = none ∷ none ∷ none ∷ none ∷ []
packed (a ∷ []) = some a ∷ none ∷ none ∷ none ∷ []
packed (a ∷ b ∷ []) = some a ∷ some b ∷ none ∷ none ∷ []
packed (a ∷ b ∷ c ∷ []) = some a ∷ some b ∷ some c ∷ none ∷ []
packed (a ∷ b ∷ c ∷ d ∷ r) = some a ∷ some b ∷ some c ∷ some d ∷ []

sifted :
    (a b c d : Cell)
    → sift 3 (sift 2 (sift 1 (a ∷ b ∷ c ∷ d ∷ []))) ≡ packed (blocks (a ∷ b ∷ c ∷ d ∷ []))
unfolding sift blocks
sifted a b c d = ground arith

-- The second part of `merge_line`.
abbrev merges : Line → Run (Line × ℕ)
merges line = do
  (line, score) ← merge_at 5 0 line 0
  (line, score) ← merge_at 5 1 line score
  merge_at 5 2 line score

merges_none : merges (packed []) ≡ ok (packed (merged []), gain [])
unfolding merge_at merged gain
merges_none = refl

merges_one : (a : ℕ) → merges (packed (a ∷ [])) ≡ ok (packed (merged (a ∷ [])), gain (a ∷ []))
unfolding merge_at merged gain
merges_one a = refl

merges_two :
    (a b : ℕ) → merges (packed (a ∷ b ∷ [])) ≡ ok (packed (merged (a ∷ b ∷ [])), gain (a ∷ b ∷ []))
unfolding merge_at merged gain shift_down
merges_two a b = ground arith

merges_three :
    (a b c : ℕ)
    → merges (packed (a ∷ b ∷ c ∷ []))
      ≡ ok (packed (merged (a ∷ b ∷ c ∷ [])), gain (a ∷ b ∷ c ∷ []))
unfolding merge_at merged gain shift_down
merges_three a b c = ground arith

merges_four :
    (a b c d : ℕ)
    → merges (packed (a ∷ b ∷ c ∷ d ∷ []))
      ≡ ok (packed (merged (a ∷ b ∷ c ∷ d ∷ [])), gain (a ∷ b ∷ c ∷ d ∷ []))
unfolding merge_at merged gain shift_down
merges_four a b c d = ground arith

merges-packed :
    (bs : List ℕ) → length bs ≤ 4 → merges (packed bs) ≡ ok (packed (merged bs), gain bs)
merges-packed [] h = merges_none
merges-packed (a ∷ []) h = merges_one a
merges-packed (a ∷ b ∷ []) h = merges_two a b
merges-packed (a ∷ b ∷ c ∷ []) h = merges_three a b c
merges-packed (a ∷ b ∷ c ∷ d ∷ []) h = merges_four a b c d
merges-packed (a ∷ b ∷ c ∷ d ∷ e ∷ bs) h = absurd (omega arith)

pub length-blocks : (a b c d : Cell) → length (blocks (a ∷ b ∷ c ∷ d ∷ [])) ≤ 4
unfolding blocks
length-blocks a b c d = ground arith

-- A move of four cells ends. It leaves the merged blocks at the start of the line with no gap, and
-- scores what the grown blocks show.
pub merge_line-merged :
    (a b c d : Cell)
    → merge_line (a ∷ b ∷ c ∷ d ∷ [])
      ≡ ok (packed (merged (blocks (a ∷ b ∷ c ∷ d ∷ []))), gain (blocks (a ∷ b ∷ c ∷ d ∷ [])))
unfolding merge_line
merge_line-merged a b c d =
    rw (sifted a b c d) (merges-packed (blocks (a ∷ b ∷ c ∷ d ∷ [])) (length-blocks a b c d))
