-- ===== src/Scheduler/Ring.antt =====
-- Doubly linked rings of indices: what `next` and `prev` of src/syskrnl/schedule/roundroll.rs look
-- like around the ring, and how adding and unlinking a node changes the sequence of its nodes.
use tju_cinea_os.Prelude.{
  ℕ, ◌≡◌, refl, sym, ap, inl, inr, Bool, true, false, ◌||◌, List, [], ◌∷◌, ◌++◌, arith, Bool-cases,
  ◌==◌, ==_iff, if◌then◌else◌,
}
use tju_cinea_os.Scheduler.Table.{at_node}

abbrev pub mem : ℕ → List ℕ → Bool
mem i [] = false
mem i (x ∷ xs) = (i == x) || mem i xs

infix 40 ◌∈◌ ◌∉◌
abbrev pub ◌∈◌ : ℕ → List ℕ → Type 0
i ∈ xs = mem i xs ≡ true

abbrev pub ◌∉◌ : ℕ → List ℕ → Type 0
i ∉ xs = mem i xs ≡ false

abbrev pub AllDistinct : List ℕ → Type 0
AllDistinct [] = Unit {0}
AllDistinct (x ∷ xs) = (x ∉ xs) × AllDistinct xs

-- From `a` the links lead forth through `xs` to `b`, and back.
abbrev pub Links : (ℕ → ℕ) → (ℕ → ℕ) → ℕ → List ℕ → ℕ → Type 0
Links next prev a [] b = (next a ≡ b) × (prev b ≡ a)
Links next prev a (x ∷ xs) b = (next a ≡ x) × (prev x ≡ a) × Links next prev x xs b

-- The list without `r`.
unfoldable pub erase : ℕ → List ℕ → List ℕ
erase r [] = []
erase r (x ∷ xs) = if r == x then xs else x ∷ erase r xs

pub mem-append : (i : ℕ) (xs ys : List ℕ) → mem i (xs ++ ys) ≡ (mem i xs || mem i ys)
mem-append i [] ys = refl
mem-append i (x ∷ xs) ys = ground (arith, mem-append i xs ys)

pub mem-erase : (i r : ℕ) (xs : List ℕ) → i ∉ xs → i ∉ erase r xs
unfolding erase
mem-erase i r [] h = refl
mem-erase i r (x ∷ xs) h = ground (arith, mem-erase i r xs)

pub ne_of_mem : (i r : ℕ) (xs : List ℕ) → i ∈ xs → r ∉ xs → (i == r) ≡ false
ne_of_mem i r xs h n = elim (Bool-cases (i == r)) [
  | inl e ↦ let same : i ≡ r = (==_iff i r).0 e in cc (sym h, ap (λ k. mem k xs) same, n)
  | inr e ↦ e
]

module _ (next prev : ℕ → ℕ) where
  pub Links-frame :
      (next' prev' : ℕ → ℕ) (a : ℕ) (xs : List ℕ) (b : ℕ)
      → ((i : ℕ) → i ∈ a ∷ xs → next' i ≡ next i)
      → ((i : ℕ) → i ∈ xs → prev' i ≡ prev i)
      → prev' b ≡ prev b
      → Links next prev a xs b
      → Links next' prev' a xs b
  Links-frame next' prev' a [] b fn fp fb (p, q) = (ground (arith, fn a), ground arith)
  Links-frame next' prev' a (x ∷ xs) b fn fp fb (p, q, r) = (
    ground (arith, fn a),
    ground (arith, fp x),
    Links-frame next' prev' x xs b (λ i h. fn i (ground arith)) (λ i h. fp i (ground arith)) fb r,
  )

  -- The last node is the one before `b`.
  pub Links-last :
      (a : ℕ) (xs : List ℕ) (b : ℕ)
      → Links next prev a xs b
      → (next (prev b) ≡ b) × (prev b ∈ a ∷ xs)
  Links-last a [] b (p, q) = (ground arith, ground arith)
  Links-last a (x ∷ xs) b (p, q, r) = ground (arith, Links-last x xs b r)

  -- At a node inside, the two directions agree, and its neighbours lie in the sequence.
  pub Links-inside :
      (r a : ℕ) (xs : List ℕ) (b : ℕ)
      → r ∈ xs
      → Links next prev a xs b
      → (next (prev r) ≡ r) × (prev (next r) ≡ r) × (prev r ∈ a ∷ xs) × (next r ∈ b ∷ xs)
  Links-inside r a [] b h l = ground arith
  Links-inside r a (x ∷ []) b h (p, q, (u, v)) = ground arith
  Links-inside r a (x ∷ y ∷ ys) b h (p, q, l) = ground (arith, Links-inside r x (y ∷ ys) b, l)

  -- A new node `m` goes in front of `b`.
  pub Links-append :
      (m last a : ℕ) (xs : List ℕ) (b : ℕ)
      → m ∉ a ∷ xs
      → b ∉ xs
      → (m == b) ≡ false
      → last ≡ prev b
      → next last ≡ b
      → Links next prev a xs b
      → Links
          (at_node m b (at_node last m next))
          (at_node m last (at_node b m prev))
          a
          (xs ++ m ∷ [])
          b
  Links-append m last a [] b hm hb mb hl nl (p, q) =
      (ground arith, ground arith, (ground arith, ground arith))
  Links-append m last a (x ∷ xs) b hm hb mb hl nl (p, q, r) = (
    ground arith,
    ground arith,
    Links-append m last x xs b (ground arith) (ground arith) mb hl nl r,
  )

  -- The first node inside goes.
  Links-unlink :
      (r w a : ℕ) (xs : List ℕ) (b : ℕ)
      → (r == a) ≡ false
      → (r == b) ≡ false
      → r ∉ xs
      → a ∉ xs
      → b ∉ xs
      → AllDistinct xs
      → next a ≡ r
      → prev r ≡ a
      → Links next prev r xs b
      → Links (at_node r w (at_node (prev r) (next r) next)) (at_node (next r) (prev r) prev) a xs b
  Links-unlink r w a [] b ra rb rx ax bx d p q (u, v) = (ground arith, ground arith)
  Links-unlink r w a (y ∷ ys) b ra rb rx ax bx d p q (u, v, l) = (
    ground arith,
    ground arith,
    Links-frame _ _ y ys b (λ i h. ground (arith, ne_of_mem i r (y ∷ ys), ne_of_mem i a (y ∷ ys)))
        (λ i h. ground (arith, ne_of_mem i y ys)) (ground arith) l,
  )

  -- The node `r` goes; what it points to afterwards does not matter.
  pub Links-erase :
      (r w a : ℕ) (xs : List ℕ) (b : ℕ)
      → r ∈ xs
      → (r == a) ≡ false
      → (r == b) ≡ false
      → a ∉ xs
      → b ∉ xs
      → AllDistinct xs
      → next (prev r) ≡ r
      → prev (next r) ≡ r
      → Links next prev a xs b
      → Links
          (at_node r w (at_node (prev r) (next r) next))
          (at_node (next r) (prev r) prev)
          a
          (erase r xs)
          b
  unfolding erase
  Links-erase r w a [] b h ra rb da db d np pn l = ground arith
  Links-erase r w a (x ∷ xs) b h ra rb da db d np pn (p, q, l) = elim (Bool-cases (r == x)) [
    | inl hit ↦ rw hit (
        Links-unlink r w a xs b ra rb (ground arith) (ground arith) (ground arith) d.1
          (ground arith) (ground arith) (ground arith))
    | inr miss ↦ rw miss (
      ground arith,
      ground arith,
      Links-erase r w x xs b (ground arith) (ground arith) rb d.0 (ground arith) d.1 np pn l,
    )
  ]
