-- ===== src/Process/Words.antt =====
-- Reads and writes of the bytes of memory in src/syskrnl/proc.rs.
use tju_cinea_os.Prelude.{
  ℕ, zero, suc, ◌+◌, ◌*◌, ◌/◌, ◌^◌, ◌≤◌, ◌<◌, ◌≡◌, refl, sym, ap, subst, ◌∙◌, ◌⊎◌, inl, inr, [],
  ◌∷◌, length, arith, ◌==◌, if◌then◌else◌,
}
use tju_cinea_os.Fs.Path.{Bytes}
use tju_cinea_os.Process.Create.{write_bytes}
use tju_cinea_os.Process.Exec.{read_word, word_bytes, read_bytes}

pub write_bytes_frame :
    (memory : ℕ → ℕ) (addr : ℕ) (bs : Bytes) (a : ℕ)
    → (a < addr) ⊎ (addr + length bs ≤ a)
    → write_bytes memory addr bs a ≡ memory a
unfolding write_bytes
write_bytes_frame memory addr [] a h = refl
write_bytes_frame memory addr (b ∷ bs) a h =
    let rest =
      write_bytes_frame (λ a. if a == addr then b else memory a) (addr + 1) bs a
        (elim h [ inl l ↦ inl (omega arith) | inr l ↦ inr (omega arith) ]) in
    elim h [ inl l ↦ ground (arith, rest) | inr l ↦ ground (arith, rest) ]

pub length-read_bytes : (n : ℕ) (memory : ℕ → ℕ) (a : ℕ) → length (read_bytes n memory a) ≡ n
unfolding read_bytes
length-read_bytes zero memory a = refl
length-read_bytes (suc n) memory a = ap suc (length-read_bytes n memory (a + 1))

pub read_bytes_same :
    (n : ℕ) (m m' : ℕ → ℕ) (a : ℕ)
    → ((i : ℕ) → a ≤ i → i < a + n → m i ≡ m' i)
    → read_bytes n m a ≡ read_bytes n m' a
unfolding read_bytes
read_bytes_same zero m m' a h = refl
read_bytes_same (suc n) m m' a h = ground (
  arith,
  h a (omega arith) (omega arith),
  read_bytes_same n m m' (a + 1) (λ i lo hi. h i (omega arith) (omega arith)),
)

pub read_bytes-write_bytes :
    (memory : ℕ → ℕ) (a : ℕ) (bs : Bytes) → read_bytes (length bs) (write_bytes memory a bs) a ≡ bs
unfolding read_bytes write_bytes
read_bytes-write_bytes memory a [] = refl
read_bytes-write_bytes memory a (b ∷ bs) =
    let written = λ (i : ℕ). if i == a then b else memory i in
    ground (
      arith,
      write_bytes_frame written (a + 1) bs a (inl (omega arith)),
      read_bytes-write_bytes written (a + 1) bs,
    )

-- A word is what its bytes say.
word_value : Bytes → ℕ
word_value [] = 0
word_value (b ∷ bs) = b + 256 * word_value bs

read_word-read_bytes :
    (n : ℕ) (memory : ℕ → ℕ) (a : ℕ) → read_word n memory a ≡ word_value (read_bytes n memory a)
unfolding read_word read_bytes word_value
read_word-read_bytes zero memory a = refl
read_word-read_bytes (suc n) memory a = omega (arith, read_word-read_bytes n memory (a + 1))

length-word_bytes : (n w : ℕ) → length (word_bytes n w) ≡ n
unfolding word_bytes
length-word_bytes zero w = refl
length-word_bytes (suc n) w = ap suc (length-word_bytes n (w / 256))

pub length-word_bytes_8 : (w : ℕ) → length (word_bytes 8 w) ≡ 8
length-word_bytes_8 w = length-word_bytes 8 w

word_value-word_bytes : (w : ℕ) → w < 2 ^ 64 → word_value (word_bytes 8 w) ≡ w
unfolding word_value word_bytes
word_value-word_bytes w h = omega arith

pub read_word_same :
    (m m' : ℕ → ℕ) (a : ℕ)
    → ((i : ℕ) → a ≤ i → i < a + 8 → m i ≡ m' i)
    → read_word 8 m a ≡ read_word 8 m' a
read_word_same m m' a h =
    read_word-read_bytes 8 m a
    ∙ ap word_value (read_bytes_same 8 m m' a h)
    ∙ sym (read_word-read_bytes 8 m' a)

pub read_word-write_bytes :
    (memory : ℕ → ℕ) (a w : ℕ)
    → w < 2 ^ 64
    → read_word 8 (write_bytes memory a (word_bytes 8 w)) a ≡ w
read_word-write_bytes memory a w h =
    read_word-read_bytes 8 (write_bytes memory a (word_bytes 8 w)) a
    ∙ ap word_value (
        subst (λ n. read_bytes n (write_bytes memory a (word_bytes 8 w)) a ≡ word_bytes 8 w)
          (length-word_bytes 8 w) (read_bytes-write_bytes memory a (word_bytes 8 w)))
    ∙ word_value-word_bytes w h
