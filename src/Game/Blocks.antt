-- ===== src/Game/Blocks.antt =====
-- An independent description of a move of src/usrbin/src/bin/2048.rs on the blocks of one line.
use native.Mathlib.Numerals.{towards_suc}
use tju_cinea_os.Prelude.{
  ℕ, ◌+◌, ◌≤◌, ◌≡◌, refl, true, false, none, some, List, [], ◌∷◌, arith, ◌==◌, length,
}
use tju_cinea_os.Game.{Line, worth}

-- The blocks of a line, in order.
unfoldable pub blocks : Line → List ℕ
blocks [] = []
blocks (none ∷ cs) = blocks cs
blocks (some v ∷ cs) = v ∷ blocks cs

-- A block takes up the blocks after it as long as they are like it, growing each time; then it is
-- the next block's turn.
unfoldable pub absorb : ℕ → List ℕ → List ℕ
absorb a [] = a ∷ []
absorb a (x ∷ xs) = elim (a == x) [ true ↦ absorb (a + 1) xs | false ↦ a ∷ absorb x xs ]

unfoldable pub merged : List ℕ → List ℕ
unfolding absorb
merged [] = []
merged (x ∷ xs) = absorb x xs

-- The points: what each grown block shows.
unfoldable pub points : ℕ → List ℕ → ℕ
points a [] = 0
points a (x ∷ xs) = elim (a == x) [
  | true ↦ worth (some (a + 1)) + points (a + 1) xs
  | false ↦ points x xs
]

unfoldable pub gain : List ℕ → ℕ
unfolding points
gain [] = 0
gain (x ∷ xs) = points x xs

-- What the blocks show, taken together.
unfoldable pub total : List ℕ → ℕ
total [] = 0
total (x ∷ xs) = worth (some x) + total xs

pub worth_grows : (v : ℕ) → worth (some (v + 1)) ≡ worth (some v) + worth (some v)
unfolding worth
worth_grows v = simp towards_suc (omega arith)

total-absorb : (a : ℕ) (xs : List ℕ) → total (absorb a xs) ≡ worth (some a) + total xs
unfolding total absorb
total-absorb a [] = refl
total-absorb a (x ∷ xs) = ground (arith, worth_grows a, total-absorb (a + 1) xs, total-absorb x xs)

-- A move keeps the sum of what the blocks show.
pub total-merged : (xs : List ℕ) → total (merged xs) ≡ total xs
unfolding merged total
total-merged [] = refl
total-merged (x ∷ xs) = total-absorb x xs

length-absorb : (a : ℕ) (xs : List ℕ) → length (absorb a xs) ≤ length xs + 1
unfolding absorb
length-absorb a [] = omega arith
length-absorb a (x ∷ xs) = ground (arith, length-absorb (a + 1) xs, length-absorb x xs)

pub length-merged : (xs : List ℕ) → length (merged xs) ≤ length xs
unfolding merged
length-merged [] = omega arith
length-merged (x ∷ xs) = omega (arith, length-absorb x xs)
