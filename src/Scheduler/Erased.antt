-- ===== src/Scheduler/Erased.antt =====
-- A list of nodes without one of them, for the ring of src/syskrnl/schedule/roundroll.rs.
use tju_cinea_os.Prelude.{ℕ, ◌+◌, ◌≡◌, refl, false, List, [], ◌∷◌, arith, length, ◌==◌, map}
use tju_cinea_os.Scheduler.Ring.{◌∈◌, ◌∉◌, erase, mem-erase, AllDistinct}

pub mem_of_erase : (i r : ℕ) (xs : List ℕ) → i ∈ erase r xs → i ∈ xs
unfolding erase
mem_of_erase i r [] h = h
mem_of_erase i r (x ∷ xs) h = ground (arith, mem_of_erase i r xs)

pub not-mem-erase : (r : ℕ) (xs : List ℕ) → AllDistinct xs → r ∉ erase r xs
unfolding erase
not-mem-erase r [] d = refl
not-mem-erase r (x ∷ xs) d = ground (arith, not-mem-erase r xs d.1)

pub mem-erase_ne : (i r : ℕ) (xs : List ℕ) → i ∈ xs → (i == r) ≡ false → i ∈ erase r xs
unfolding erase
mem-erase_ne i r [] h n = h
mem-erase_ne i r (x ∷ xs) h n = ground (arith, mem-erase_ne i r xs)

pub erase-AllDistinct : (r : ℕ) (xs : List ℕ) → AllDistinct xs → AllDistinct (erase r xs)
unfolding erase
erase-AllDistinct r [] d = tt
erase-AllDistinct r (x ∷ xs) d = ground (arith, mem-erase x r xs d.0, erase-AllDistinct r xs d.1)

pub length-erase : (r : ℕ) (xs : List ℕ) → r ∈ xs → length (erase r xs) + 1 ≡ length xs
unfolding erase
length-erase r [] h = absurd (ground arith)
length-erase r (x ∷ xs) h = ground (arith, length-erase r xs)

pub map-erase :
    (f : ℕ → ℕ) (p n : ℕ) (ys : List ℕ)
    → f n ≡ p
    → ((i : ℕ) → i ∈ ys → f i ≡ p → i ≡ n)
    → map f (erase n ys) ≡ erase p (map f ys)
unfolding erase
map-erase f p n [] e h = refl
map-erase f p n (y ∷ ys) e h = ground (arith, h y, map-erase f p n ys e (λ i k. h i (ground arith)))
