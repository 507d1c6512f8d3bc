-- ===== src/Process/Arguments.antt =====
-- The arguments that `exec` of src/syskrnl/proc.rs hands to a program.
use tju_cinea_os.Prelude.{
  ℕ, suc, ◌+◌, ◌*◌, ◌%◌, ◌^◌, ◌≤◌, ◌<◌, ◌≡◌, refl, ap, subst, ◌∙◌, ◌⊎◌, inl, inr, List, [], ◌∷◌,
  length, arith,
}
use tju_cinea_os.Fs.Path.{Bytes}
use tju_cinea_os.Process.Create.{write_bytes}
use tju_cinea_os.Process.Exec.{
  read_word, word_bytes, read_bytes, read_pairs, copy_args, next_aligned, write_slices, place_args,
}
use tju_cinea_os.Process.Words.{
  write_bytes_frame, length-read_bytes, read_bytes_same, read_bytes-write_bytes,
  length-word_bytes_8, read_word_same, read_word-write_bytes,
}

-- The bytes of the texts that slices (pointer, length) stand for.
abbrev pub texts : (ℕ → ℕ) → List (ℕ × ℕ) → List Bytes
texts memory [] = []
texts memory ((ptr, len) ∷ args) = read_bytes len memory ptr ∷ texts memory args

abbrev pub total : List (ℕ × ℕ) → ℕ
total [] = 0
total ((ptr, len) ∷ args) = len + total args

-- No argument lies between `low` and `high`.
abbrev pub Outside : ℕ → ℕ → List (ℕ × ℕ) → Type 0
Outside low high [] = Unit {0}
Outside low high ((ptr, len) ∷ args) = ((ptr + len ≤ low) ⊎ (high ≤ ptr)) × Outside low high args

-- Each slice lies between `low` and `high`.
abbrev Inside : ℕ → ℕ → List (ℕ × ℕ) → Type 0
Inside low high [] = Unit {0}
Inside low high ((ptr, len) ∷ args) = (low ≤ ptr) × (ptr + len ≤ high) × Inside low high args

Outside-narrow :
    (low high low' : ℕ) (args : List (ℕ × ℕ))
    → low ≤ low'
    → Outside low high args
    → Outside low' high args
Outside-narrow low high low' [] l h = tt
Outside-narrow low high low' ((ptr, len) ∷ args) l h = (
  elim (h.0) [ inl a ↦ inl (omega arith) | inr a ↦ inr a ],
  Outside-narrow low high low' args l h.1,
)

texts_same_inside :
    (low high : ℕ) (m m' : ℕ → ℕ) (args : List (ℕ × ℕ))
    → ((i : ℕ) → low ≤ i → i < high → m i ≡ m' i)
    → Inside low high args
    → texts m args ≡ texts m' args
texts_same_inside low high m m' [] h o = refl
texts_same_inside low high m m' ((ptr, len) ∷ args) h o = ground (
  arith,
  read_bytes_same len m m' ptr (λ i lo hi. h i (omega (arith, o.0)) (omega (arith, o.1))),
  texts_same_inside low high m m' args h o.2,
)

texts-Outside :
    (low high : ℕ) (m m' : ℕ → ℕ) (args : List (ℕ × ℕ))
    → ((i : ℕ) → (i < low) ⊎ (high ≤ i) → m i ≡ m' i)
    → Outside low high args
    → texts m args ≡ texts m' args
texts-Outside low high m m' [] h o = refl
texts-Outside low high m m' ((ptr, len) ∷ args) h o = ground (
  arith,
  read_bytes_same len m m' ptr
      (λ i lo hi. h i (elim (o.0) [ inl a ↦ inl (omega arith) | inr a ↦ inr (omega arith) ])),
  texts-Outside low high m m' args h o.1,
)

-- What copying leaves.
record Copied (memory : ℕ → ℕ) (addr : ℕ) (args : List (ℕ × ℕ)) (out : (ℕ → ℕ) × List (ℕ × ℕ) × ℕ)
    : Type 0 where
  end : out.2 ≡ addr + total args
  frame : (i : ℕ) → (i < addr) ⊎ (addr + total args ≤ i) → out.0 i ≡ memory i
  count : length out.1 ≡ length args
  inside : Inside addr (addr + total args) out.1
  same : texts out.0 out.1 ≡ texts memory args

Inside_widen :
    (low high low' : ℕ) (args : List (ℕ × ℕ))
    → low' ≤ low
    → Inside low high args
    → Inside low' high args
Inside_widen low high low' [] l h = tt
Inside_widen low high low' ((ptr, len) ∷ args) l h =
    (omega (arith, h.0), h.1, Inside_widen low high low' args l h.2)

copy_args-Copied :
    (memory : ℕ → ℕ) (addr high : ℕ) (args : List (ℕ × ℕ))
    → addr + total args ≤ high
    → Outside addr high args
    → Copied memory addr args (copy_args memory addr args)
unfolding copy_args
copy_args-Copied memory addr high [] l o = record {
  end = omega arith;
  frame = λ i h. refl;
  count = refl;
  inside = tt;
  same = refl;
}
copy_args-Copied memory addr high ((ptr, len) ∷ args) l o =
    let text = read_bytes len memory ptr in
    let written = write_bytes memory addr text in
    let n = length-read_bytes len memory ptr in
    let r =
      copy_args-Copied written (addr + len) high args (omega arith)
        (Outside-narrow addr high (addr + len) args (omega arith) o.1) in
    let out = copy_args written (addr + len) args in
    let first : read_bytes len out.0 addr ≡ text =
      read_bytes_same len out.0 written addr (λ i lo hi. r.frame i (inl hi))
      ∙ subst (λ k. read_bytes k written addr ≡ text) n (read_bytes-write_bytes memory addr text) in
    let others : texts written args ≡ texts memory args =
      texts-Outside addr high written memory args
        (λ i h.
          write_bytes_frame memory addr text i
            (elim h [ inl a ↦ inl a | inr a ↦ inr (omega (arith, n)) ]))
        o.1 in
    record {
      end = omega (arith, r.end);
      frame = λ i h.
          r.frame i (elim h [ inl a ↦ inl (omega arith) | inr a ↦ inr (omega arith) ])
          ∙ write_bytes_frame memory addr text i
              (elim h [ inl a ↦ inl a | inr a ↦ inr (omega (arith, n)) ]);
      count = ap suc r.count;
      inside = (
        omega arith,
        omega arith,
        subst (λ h. Inside addr h out.1) (omega arith)
            (Inside_widen (addr + len) (addr + len + total args) addr out.1 (omega arith) r.inside),
      );
      same = ground (arith, first, others, r.same);
    }

write_slices_frame :
    (memory : ℕ → ℕ) (addr : ℕ) (slices : List (ℕ × ℕ)) (i : ℕ)
    → (i < addr) ⊎ (addr + 16 * length slices ≤ i)
    → write_slices memory addr slices i ≡ memory i
unfolding write_slices
write_slices_frame memory addr [] i h = refl
write_slices_frame memory addr ((ptr, len) ∷ slices) i h =
    let one = write_bytes memory addr (word_bytes 8 ptr) in
    let n = length-word_bytes_8 ptr in
    let k = length-word_bytes_8 len in
    write_slices_frame (write_bytes one (addr + 8) (word_bytes 8 len)) (addr + 16) slices i
      (elim h [ inl a ↦ inl (omega arith) | inr a ↦ inr (omega arith) ])
    ∙ write_bytes_frame one (addr + 8) (word_bytes 8 len) i
        (elim h [ inl a ↦ inl (omega arith) | inr a ↦ inr (omega arith) ])
    ∙ write_bytes_frame memory addr (word_bytes 8 ptr) i
        (elim h [ inl a ↦ inl (omega arith) | inr a ↦ inr (omega arith) ])

read_pairs-write_slices :
    (memory : ℕ → ℕ) (addr low high : ℕ) (slices : List (ℕ × ℕ))
    → high < 2 ^ 64
    → Inside low high slices
    → read_pairs (length slices) (write_slices memory addr slices) addr ≡ slices
unfolding read_pairs write_slices
read_pairs-write_slices memory addr low high [] b o = refl
read_pairs-write_slices memory addr low high ((ptr, len) ∷ slices) b o =
    let one = write_bytes memory addr (word_bytes 8 ptr) in
    let two = write_bytes one (addr + 8) (word_bytes 8 len) in
    let out = write_slices two (addr + 16) slices in
    let above = o.1 in
    let later =
      λ (i : ℕ) (l : i < addr + 16). write_slices_frame two (addr + 16) slices i (inl l) in
    let first : read_word 8 out addr ≡ ptr =
      read_word_same out two addr (λ i lo hi. later i (omega arith))
      ∙ read_word_same two one addr
          (λ i lo hi. write_bytes_frame one (addr + 8) (word_bytes 8 len) i (inl hi))
      ∙ read_word-write_bytes memory addr ptr (omega arith) in
    let second : read_word 8 out (addr + 8) ≡ len =
      read_word_same out two (addr + 8) (λ i lo hi. later i (omega arith))
      ∙ read_word-write_bytes one (addr + 8) len (omega arith) in
    ground (arith, first, second, read_pairs-write_slices two (addr + 16) low high slices b o.2)

-- The arguments that a program finds where its first register points, as many as its second register
-- says, are the bytes that were passed: if the caller's texts do not lie where the arguments go and
-- the addresses stay below 2 ^ 64. The pointer is a multiple of 8, and nothing else in memory changes.
pub place_args-texts :
    (memory : ℕ → ℕ) (addr high i : ℕ) (args : List (ℕ × ℕ))
    → addr + total args + 8 + 16 * length args ≤ high
    → high < 2 ^ 64
    → Outside addr high args
    → (i < addr) ⊎ (high ≤ i)
    → (texts
          (place_args memory addr args).0
          (read_pairs (length args) (place_args memory addr args).0 (place_args memory addr args).1)
        ≡ texts memory args)
      × ((place_args memory addr args).1 % 8 ≡ 0)
      × ((place_args memory addr args).0 i ≡ memory i)
unfolding place_args next_aligned
place_args-texts memory addr high i args l b o h =
    let out = copy_args memory addr args in
    let c = copy_args-Copied memory addr high args (omega arith) o in
    let at = next_aligned out.2 in
    let final = write_slices out.0 at out.1 in
    let e = c.end in
    let n = c.count in
    let pairs : read_pairs (length args) final at ≡ out.1 =
      subst (λ k. read_pairs k final at ≡ out.1) n
        (read_pairs-write_slices out.0 at addr (addr + total args) out.1 (omega arith) c.inside) in
    let kept : texts final out.1 ≡ texts out.0 out.1 =
      texts_same_inside addr (addr + total args) final out.0 out.1
        (λ j lo hi. write_slices_frame out.0 at out.1 j (inl (omega arith))) c.inside in
    (
      ap (texts final) pairs ∙ kept ∙ c.same,
      omega arith,
      write_slices_frame out.0 at out.1 i
            (elim h [ inl a ↦ inl (omega arith) | inr a ↦ inr (omega arith) ])
          ∙ c.frame i (elim h [ inl a ↦ inl a | inr a ↦ inr (omega arith) ]),
    )
