-- ===== src/Shell/Slices.antt =====
-- Parts of a command line (src/usrbin/src/bin/shell.rs), and lists with an element put last.
use tju_cinea_os.Prelude.{
  ℕ, zero, suc, ◌+◌, ◌-◌, ◌≤◌, ◌≡◌, refl, ap, List, [], ◌∷◌, ◌++◌, arith, take, drop, length,
}
use tju_cinea_os.Shell.{Chars, slice}

take_next :
    (n k : ℕ) (before : Chars) (ch : ℕ) (chs : Chars)
    → length before ≡ n + k
    → take (suc k) (drop n (before ++ (ch ∷ chs)))
      ≡ take k (drop n (before ++ (ch ∷ chs))) ++ (ch ∷ [])
take_next zero zero [] ch chs h = refl
take_next zero (suc k) [] ch chs h = ground arith
take_next zero zero (b ∷ before) ch chs h = ground arith
take_next zero (suc k) (b ∷ before) ch chs h =
    ap (λ bs. b ∷ bs) (take_next zero k before ch chs (omega arith))
take_next (suc n) k [] ch chs h = ground arith
take_next (suc n) k (b ∷ before) ch chs h = take_next n k before ch chs (omega arith)

pub slice_next :
    (n : ℕ) (before : Chars) (ch : ℕ) (chs : Chars)
    → n ≤ length before
    → slice (before ++ (ch ∷ chs)) n (length before + 1)
      ≡ slice (before ++ (ch ∷ chs)) n (length before) ++ (ch ∷ [])
unfolding slice
slice_next n before ch chs h =
    let e : length before + 1 - n ≡ suc (length before - n) = omega arith in
    rw e (take_next n (length before - n) before ch chs (omega arith))

take_here :
    (before : Chars) (ch : ℕ) (chs : Chars)
    → take 1 (drop (length before) (before ++ (ch ∷ chs))) ≡ ch ∷ []
take_here [] ch chs = refl
take_here (b ∷ before) ch chs = take_here before ch chs

pub slice_here :
    (before : Chars) (ch : ℕ) (chs : Chars)
    → slice (before ++ (ch ∷ chs)) (length before) (length before + 1) ≡ ch ∷ []
unfolding slice
slice_here before ch chs =
    let e : length before + 1 - length before ≡ 1 = omega arith in rw e (take_here before ch chs)

pub append_nil : (xs : Chars) → xs ++ [] ≡ xs
append_nil [] = refl
append_nil (x ∷ xs) = ap (λ ys. x ∷ ys) (append_nil xs)

pub snoc_append :
    (before : Chars) (ch : ℕ) (chs : Chars) → (before ++ (ch ∷ [])) ++ chs ≡ before ++ (ch ∷ chs)
snoc_append [] ch chs = refl
snoc_append (b ∷ before) ch chs = ap (λ ys. b ∷ ys) (snoc_append before ch chs)

pub list_snoc_append :
    (ws : List Chars) (w : Chars) (vs : List Chars) → (ws ++ (w ∷ [])) ++ vs ≡ ws ++ (w ∷ vs)
list_snoc_append [] w vs = refl
list_snoc_append (v ∷ ws) w vs = ap (λ ys. v ∷ ys) (list_snoc_append ws w vs)

pub list_append_nil : (xs : List Chars) → xs ++ [] ≡ xs
list_append_nil [] = refl
list_append_nil (x ∷ xs) = ap (λ ys. x ∷ ys) (list_append_nil xs)
