-- ===== src/Prelude/Result.antt =====
-- How a run of the kernel's code ends: with a value, with a panic (an index out of range, an
-- `unwrap` of nothing, a failed assertion), or, for a loop on fuel, without an answer.
use Prim.Native.Nat.{ℕ, zero, suc}
use mathlib.Core.Path.{◌≡◌, refl}
use mathlib.Core.Bool.{Bool, true, false}
use mathlib.Core.Option.{Option, none, some}
use mathlib.Core.List.{List, [], ◌∷◌}
use native.Mathlib.Omega.{arith}
use tju_cinea_os.Prelude.Lists.{get_elem?}
use Prim.Native.Nat.{◌<◌, ◌≤◌}
use mathlib.Core.Logic.{◌⊎◌, inl, inr}
use tju_cinea_os.Prelude.Tests.{Bool-cases, leb, ◌==◌, if◌then◌else◌}

pub data Run {ℓ} (A : Type ℓ) : Type ℓ where
  ok : A → Run A
  panic : Run A
  out_of_fuel : Run A

infixl 5 ◌>>=◌ ◌>>◌
abbrev pub ◌>>=◌ {ℓ κ} : {A : Type ℓ} {B : Type κ} → Run A → (A → Run B) → Run B
ok a >>= f = f a
panic >>= f = panic
out_of_fuel >>= f = out_of_fuel

abbrev pub ◌>>◌ {ℓ κ} : {A : Type ℓ} {B : Type κ} → Run A → Run B → Run B
m >> k = m >>= λ _. k

-- `unwrap` and `expect`.
abbrev pub unwrap {ℓ} : {A : Type ℓ} → Option A → Run A
unwrap none = panic
unwrap (some a) = ok a

-- `assert!`.
abbrev pub assert : Bool → Run (Unit {0})
assert true = ok tt
assert false = panic

-- A sum or a product of `usize`s; the overflow checks of a development build panic.
unfoldable pub checked : ℕ → Run ℕ
checked n = if leb 18446744073709551616 n then panic else ok n

pub checked_lem : (n : ℕ) → n < 18446744073709551616 → checked n ≡ ok n
unfolding checked
checked_lem n h = ground arith

pub checked_cases :
    (n : ℕ)
    → ((checked n ≡ panic) × (18446744073709551616 ≤ n))
      ⊎ ((checked n ≡ ok n) × (n < 18446744073709551616))
unfolding checked
checked_cases n = elim (Bool-cases (leb 18446744073709551616 n)) [
  | inl e ↦ inl (rw e refl, ground arith)
  | inr e ↦ inr (rw e refl, ground arith)
]

-- `xs[i]` and `xs[i] = v`.
abbrev pub index {ℓ} : {A : Type ℓ} → List A → ℕ → Run A
index xs i = unwrap (get_elem? xs i)

abbrev pub set_index {ℓ} : {A : Type ℓ} → List A → ℕ → A → Run (List A)
set_index [] i v = panic
set_index (x ∷ xs) zero v = ok (v ∷ xs)
set_index (x ∷ xs) (suc i) v = set_index xs i v >>= λ ys. ok (x ∷ ys)

-- A run that ended with a value went through the first part.
pub >>=-eq_ok {ℓ κ} :
    {A : Type ℓ} {B : Type κ} (m : Run A) (f : A → Run B) {b : B}
    → (m >>= f) ≡ ok b
    → (a : A) × (m ≡ ok a) × (f a ≡ ok b)
>>=-eq_ok (ok a) f h = (a, refl, h)
>>=-eq_ok panic f h = cc
>>=-eq_ok out_of_fuel f h = cc

-- What a list has after a write in bounds.
pub get_elem?-set_index {ℓ} :
    {A : Type ℓ} (xs : List A) (i : ℕ) (v : A) (ys : List A) (j : ℕ)
    → set_index xs i v ≡ ok ys
    → get_elem? ys j ≡ (if j == i then some v else get_elem? xs j)
get_elem?-set_index [] i v ys j h = cc
get_elem?-set_index (x ∷ xs) zero v ys zero h = ground arith
get_elem?-set_index (x ∷ xs) zero v ys (suc j) h = ground arith
get_elem?-set_index (x ∷ xs) (suc i) v ys zero h =
    let (zs, a, b) = >>=-eq_ok (set_index xs i v) _ h in ground arith
get_elem?-set_index (x ∷ xs) (suc i) v ys (suc j) h =
    let (zs, a, b) = >>=-eq_ok (set_index xs i v) _ h in
    ground (arith, get_elem?-set_index xs i v zs j a)
