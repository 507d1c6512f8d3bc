-- ===== src/Prelude/Map.antt =====
-- `BTreeMap` as an association list in the order of its keys. A key type has an equality test that
-- is sound and complete, and an order that only decides where `insert` puts a new key.
use Prim.Native.Nat.{ℕ}
use mathlib.Core.Path.{◌≡◌, refl}
use mathlib.Core.Logic.{◌↔◌}
use mathlib.Core.Bool.{Bool, true, false, ◌&&◌, ◌||◌}
use mathlib.Core.Option.{Option, none, some}
use mathlib.Core.List.{List, [], ◌∷◌}
use native.Mathlib.Omega.{arith}
use tju_cinea_os.Prelude.Tests.{ltb, ◌==◌ as nat_beq, ==_iff, if◌then◌else◌}

pub record Key {ℓ} (K : Type ℓ) : Type ℓ where
  pub beq : K → K → Bool
  pub blt : K → K → Bool
  pub beq_iff : (a b : K) → (beq a b ≡ true) ↔ (a ≡ b)

instance abbrev pub nat_key : Key ℕ
nat_key = record { beq = nat_beq; blt = ltb; beq_iff = ==_iff }

-- Byte strings, compared like Rust's `String`.
abbrev pub bytes_beq : List ℕ → List ℕ → Bool
bytes_beq [] [] = true
bytes_beq [] (b ∷ bs) = false
bytes_beq (a ∷ as') [] = false
bytes_beq (a ∷ as') (b ∷ bs) = nat_beq a b && bytes_beq as' bs

abbrev pub bytes_blt : List ℕ → List ℕ → Bool
bytes_blt [] [] = false
bytes_blt [] (b ∷ bs) = true
bytes_blt (a ∷ as') [] = false
bytes_blt (a ∷ as') (b ∷ bs) = ltb a b || (nat_beq a b && bytes_blt as' bs)

pub bytes_beq→eq : (a b : List ℕ) → bytes_beq a b ≡ true → a ≡ b
bytes_beq→eq [] [] h = refl
bytes_beq→eq [] (b ∷ bs) h = ground arith
bytes_beq→eq (a ∷ as') [] h = ground arith
bytes_beq→eq (a ∷ as') (b ∷ bs) h = ground (arith, bytes_beq→eq as' bs)

pub bytes_beq_refl : (a : List ℕ) → bytes_beq a a ≡ true
bytes_beq_refl [] = refl
bytes_beq_refl (a ∷ as') = ground (arith, bytes_beq_refl as')

pub bytes_beq_iff : (a b : List ℕ) → (bytes_beq a b ≡ true) ↔ (a ≡ b)
bytes_beq_iff a b = (bytes_beq→eq a b, λ e. rw e (bytes_beq_refl b))

instance abbrev pub bytes_key : Key (List ℕ)
bytes_key = record { beq = bytes_beq; blt = bytes_blt; beq_iff = bytes_beq_iff }

-- `BTreeMap<K, V>`.
abbrev pub Map {ℓ κ} : Type ℓ → Type κ → Type (ℓ ⊔ κ)
Map K V = List (K × V)

module _ {ℓ κ} {K : Type ℓ} {V : Type κ} ⦃e : Key K⦄ where
  unfoldable pub lookup : K → Map K V → Option V
  lookup k [] = none
  lookup k ((j, v) ∷ m) = if e.beq k j then some v else lookup k m

  unfoldable pub insert : K → V → Map K V → Map K V
  insert k v [] = (k, v) ∷ []
  insert k v ((j, w) ∷ m) =
      if e.beq k j
      then (k, v) ∷ m
      else if e.blt k j
      then (k, v) ∷ (j, w) ∷ m
      else (j, w) ∷ insert k v m

  unfoldable pub remove : K → Map K V → Map K V
  remove k [] = []
  remove k ((j, w) ∷ m) = if e.beq k j then remove k m else (j, w) ∷ remove k m

  pub lookup-insert :
      (k j : K) (v : V) (m : Map K V)
      → lookup j (insert k v m) ≡ (if e.beq j k then some v else lookup j m)
  unfolding lookup insert
  lookup-insert k j v [] = refl
  lookup-insert k j v ((i, w) ∷ m) =
      ground
        (arith, e.beq_iff k j, e.beq_iff j k, e.beq_iff k i, e.beq_iff j i, lookup-insert k j v m)

  pub lookup-remove :
      (k j : K) (m : Map K V) → lookup j (remove k m) ≡ (if e.beq j k then none else lookup j m)
  unfolding lookup remove
  lookup-remove k j [] = ground arith
  lookup-remove k j ((i, w) ∷ m) =
      ground
        (arith, e.beq_iff k j, e.beq_iff j k, e.beq_iff k i, e.beq_iff j i, lookup-remove k j m)
