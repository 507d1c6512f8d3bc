-- ===== src/Game/Slide.antt =====
-- `slide` of src/usrbin/src/bin/2048.rs on a board of sixteen cells: it ends, and what the blocks
-- show stays the same in sum.
use tju_cinea_os.Prelude.{
  ℕ, zero, suc, ◌+◌, ◌≤◌, ◌<◌, ◌≡◌, refl, none, some, List, [], ◌∷◌, arith, Run, ok, length, ◌∙◌,
  ap,
}
use tju_cinea_os.Game.{Cell, Line, Board, worth, merge_line, slide}
use tju_cinea_os.Game.Blocks.{blocks, merged, gain, total, total-merged, length-merged}
use tju_cinea_os.Game.Merge.{packed, merge_line-merged, length-blocks}

record Moved (a b c d : Cell) : Type 0 where
  e : Cell
  f : Cell
  g : Cell
  h : Cell
  score : ℕ
  done : merge_line (a ∷ b ∷ c ∷ d ∷ []) ≡ ok (e ∷ f ∷ g ∷ h ∷ [], score)
  same : worth e + worth f + worth g + worth h ≡ worth a + worth b + worth c + worth d

-- What the cells of a line and of a board show, taken together.
pub shown : Line → ℕ
shown [] = 0
shown (c ∷ cs) = worth c + shown cs

pub board_shown : Board → ℕ
unfolding shown
board_shown [] = 0
board_shown (l ∷ ls) = shown l + board_shown ls

shown-blocks : (l : Line) → shown l ≡ total (blocks l)
unfolding shown total blocks worth
shown-blocks [] = refl
shown-blocks (none ∷ cs) = omega (arith, shown-blocks cs)
shown-blocks (some v ∷ cs) = omega (arith, shown-blocks cs)

record Four (l : Line) (n : ℕ) : Type 0 where
  e : Cell
  f : Cell
  g : Cell
  h : Cell
  is : l ≡ e ∷ f ∷ g ∷ h ∷ []
  sum : worth e + worth f + worth g + worth h ≡ n

packed-Four : (bs : List ℕ) → length bs ≤ 4 → Four (packed bs) (total bs)
unfolding total worth
packed-Four [] h = record { e = none; f = none; g = none; h = none; is = refl; sum = refl }
packed-Four (a ∷ []) h = record {
  e = some a;
  f = none;
  g = none;
  h = none;
  is = refl;
  sum = omega arith;
}
packed-Four (a ∷ b ∷ []) h = record {
  e = some a;
  f = some b;
  g = none;
  h = none;
  is = refl;
  sum = omega arith;
}
packed-Four (a ∷ b ∷ c ∷ []) h = record {
  e = some a;
  f = some b;
  g = some c;
  h = none;
  is = refl;
  sum = omega arith;
}
packed-Four (a ∷ b ∷ c ∷ d ∷ []) h = record {
  e = some a;
  f = some b;
  g = some c;
  h = some d;
  is = refl;
  sum = omega arith;
}
packed-Four (a ∷ b ∷ c ∷ d ∷ e ∷ bs) h = absurd (omega arith)

merge_line-Moved : (a b c d : Cell) → Moved a b c d
unfolding shown
merge_line-Moved a b c d =
    let bs = blocks (a ∷ b ∷ c ∷ d ∷ []) in
    let p = packed-Four (merged bs) (omega (arith, length-merged bs, length-blocks a b c d)) in
    record {
      e = p.e;
      f = p.f;
      g = p.g;
      h = p.h;
      score = gain bs;
      done = merge_line-merged a b c d ∙ ap (λ l. ok (l, gain bs)) p.is;
      same = omega (arith, p.sum, total-merged bs, shown-blocks (a ∷ b ∷ c ∷ d ∷ []));
    }

-- A board that a move leads to, with the same sum.
pub record Slid (board : Board) (r : Run (Board × ℕ)) : Type 0 where
  pub out : Board
  pub score : ℕ
  pub done : r ≡ ok (out, score)
  pub same : board_shown out ≡ board_shown board

module _ (a b c d e f g h i j k l m n o p : Cell) where
  abbrev board : Board
  board =
      (a ∷ b ∷ c ∷ d ∷ []) ∷ (e ∷ f ∷ g ∷ h ∷ []) ∷ (i ∷ j ∷ k ∷ l ∷ []) ∷ (m ∷ n ∷ o ∷ p ∷ []) ∷ []

  left-Slid : Slid board (slide board 2)
  unfolding slide board_shown
  left-Slid =
      let u = merge_line-Moved a b c d in
      let v = merge_line-Moved e f g h in
      let w = merge_line-Moved i j k l in
      let x = merge_line-Moved m n o p in
      record {
        out =
            (u.e ∷ u.f ∷ u.g ∷ u.h ∷ [])
            ∷ (v.e ∷ v.f ∷ v.g ∷ v.h ∷ [])
            ∷ (w.e ∷ w.f ∷ w.g ∷ w.h ∷ [])
            ∷ (x.e ∷ x.f ∷ x.g ∷ x.h ∷ [])
            ∷ [];
        score = 0 + u.score + v.score + w.score + x.score;
        done = rw (u.done, v.done, w.done, x.done);
        same = omega (arith, u.same, v.same, w.same, x.same);
      }

  up-Slid : Slid board (slide board 0)
  unfolding slide board_shown
  up-Slid =
      let u = merge_line-Moved a e i m in
      let v = merge_line-Moved b f j n in
      let w = merge_line-Moved c g k o in
      let x = merge_line-Moved d h l p in
      record {
        out =
            (u.e ∷ v.e ∷ w.e ∷ x.e ∷ [])
            ∷ (u.f ∷ v.f ∷ w.f ∷ x.f ∷ [])
            ∷ (u.g ∷ v.g ∷ w.g ∷ x.g ∷ [])
            ∷ (u.h ∷ v.h ∷ w.h ∷ x.h ∷ [])
            ∷ [];
        score = 0 + u.score + v.score + w.score + x.score;
        done = rw (u.done, v.done, w.done, x.done);
        same = omega (arith, u.same, v.same, w.same, x.same);
      }

  down-Slid : Slid board (slide board 1)
  unfolding slide board_shown
  down-Slid =
      let u = merge_line-Moved m i e a in
      let v = merge_line-Moved n j f b in
      let w = merge_line-Moved o k g c in
      let x = merge_line-Moved p l h d in
      record {
        out =
            (u.h ∷ v.h ∷ w.h ∷ x.h ∷ [])
            ∷ (u.g ∷ v.g ∷ w.g ∷ x.g ∷ [])
            ∷ (u.f ∷ v.f ∷ w.f ∷ x.f ∷ [])
            ∷ (u.e ∷ v.e ∷ w.e ∷ x.e ∷ [])
            ∷ [];
        score = 0 + u.score + v.score + w.score + x.score;
        done = rw (u.done, v.done, w.done, x.done);
        same = omega (arith, u.same, v.same, w.same, x.same);
      }

  right-Slid : Slid board (slide board 3)
  unfolding slide board_shown
  right-Slid =
      let u = merge_line-Moved d c b a in
      let v = merge_line-Moved h g f e in
      let w = merge_line-Moved l k j i in
      let x = merge_line-Moved p o n m in
      record {
        out =
            (u.h ∷ u.g ∷ u.f ∷ u.e ∷ [])
            ∷ (v.h ∷ v.g ∷ v.f ∷ v.e ∷ [])
            ∷ (w.h ∷ w.g ∷ w.f ∷ w.e ∷ [])
            ∷ (x.h ∷ x.g ∷ x.f ∷ x.e ∷ [])
            ∷ [];
        score = 0 + u.score + v.score + w.score + x.score;
        done = rw (u.done, v.done, w.done, x.done);
        same = omega (arith, u.same, v.same, w.same, x.same);
      }

  -- A move in any of the four directions ends, and the numbers on the board add up to what they did.
  pub slide-Slid : (direction : ℕ) → direction < 4 → Slid board (slide board direction)
  slide-Slid zero lt = up-Slid
  slide-Slid (suc zero) lt = down-Slid
  slide-Slid (suc (suc zero)) lt = left-Slid
  slide-Slid (suc (suc (suc zero))) lt = right-Slid
  slide-Slid (suc (suc (suc (suc q)))) lt = absurd (omega arith)
