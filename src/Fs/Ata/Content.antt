-- ===== src/Fs/Ata/Content.antt =====
-- Reading a disk through src/syskrnl/fs/ata.rs gives the bytes of the disk.
use tju_cinea_os.Prelude.{
  ℕ, zero, suc, ◌+◌, ◌-◌, ◌*◌, ◌/◌, ◌%◌, min, ◌≤◌, ◌<◌, ◌≡◌, ◌∙◌, refl, ◌⊎◌, ap, sym, true, false,
  Bool-cases, inl, inr, List, [], ◌∷◌, ◌++◌, ok, take, drop, arith, ◌==◌, ltb,
}
use tju_cinea_os.Fs.Ata.{Drive, Reader, read_block, read_blocks, read_from, flushed, read}

-- The `n` bytes from position `p` on.
unfoldable pub range : (ℕ → ℕ) → ℕ → ℕ → List ℕ
range f p zero = []
range f p (suc n) = f p ∷ range f (suc p) n

pub take-range : (f : ℕ → ℕ) (p m n : ℕ) → n ≤ m → take n (range f p m) ≡ range f p n
unfolding range
take-range f p m zero h = refl
take-range f p zero (suc n) h = ground arith
take-range f p (suc m) (suc n) h = ap (λ xs. f p ∷ xs) (take-range f (suc p) m n (omega arith))

pub drop-range : (f : ℕ → ℕ) (p m n : ℕ) → n ≤ m → drop n (range f p m) ≡ range f (p + n) (m - n)
unfolding range
drop-range f p m zero h =
    let e : p + 0 ≡ p = omega arith in let d : m - 0 ≡ m = omega arith in rw (e, d) refl
drop-range f p zero (suc n) h = ground arith
drop-range f p (suc m) (suc n) h =
    let e : p + suc n ≡ suc p + n = omega arith in
    let d : suc m - suc n ≡ m - n = omega arith in
    rw (e, d) (drop-range f (suc p) m n (omega arith))

range-append : (f : ℕ → ℕ) (p m n : ℕ) → range f p m ++ range f (p + m) n ≡ range f p (m + n)
unfolding range
range-append f p zero n =
    let e : p + 0 ≡ p = omega arith in let d : 0 + n ≡ n = omega arith in rw (e, d) refl
range-append f p (suc m) n =
    let e : p + suc m ≡ suc p + m = omega arith in
    let d : suc m + n ≡ suc (m + n) = omega arith in
    rw (e, d) (ap (λ xs. f p ∷ xs) (range-append f (suc p) m n))

append_assoc : (xs ys zs : List ℕ) → (xs ++ ys) ++ zs ≡ xs ++ (ys ++ zs)
append_assoc [] ys zs = refl
append_assoc (x ∷ xs) ys zs = ap (λ l. x ∷ l) (append_assoc xs ys zs)

append_nil : (xs : List ℕ) → xs ++ [] ≡ xs
append_nil [] = refl
append_nil (x ∷ xs) = ap (λ l. x ∷ l) (append_nil xs)

module _ {D : Type 0} (drive : Drive D) (content : ℕ → ℕ) (blocks : ℕ) (d : D) where
  -- A drive in a state in which every block below `blocks` can be read, and holds the content.
  abbrev pub Holds : Type 0
  Holds =
      (b : ℕ) (buf : List ℕ) → b < blocks → drive.read b buf d ≡ (range content (b * 512) 512, true)

  -- How many of `n` bytes from `p` on there are on the disk.
  abbrev pub available : ℕ → ℕ → ℕ
  available p n = min n (blocks * 512 - p)

  module _ (holds : Holds) where
    read_block_in :
        (r : Reader)
        → r.max_block ≡ blocks
        → r.position / 512 < blocks
        → read_block drive r d
          ≡ (record r { cache = range content (r.position / 512 * 512) 512 }, true)
    unfolding read_block
    read_block_in r m h =
        let e : ltb (r.position / 512) r.max_block ≡ true = ground arith in
        rw (e, holds (r.position / 512) r.cache h) refl

    read_block_out :
        (r : Reader)
        → r.max_block ≡ blocks
        → blocks ≤ r.position / 512
        → read_block drive r d ≡ (r, false)
    unfolding read_block
    read_block_out r m h =
        let e : ltb (r.position / 512) r.max_block ≡ false = ground arith in rw e refl

    -- The loop reads what is left of the buffer from a block's start on, as far as the disk goes.
    read_blocks-range :
        (fuel left : ℕ) (buf : List ℕ) (r : Reader)
        → left < fuel
        → r.max_block ≡ blocks
        → (r.position % 512 ≡ 0) ⊎ (left ≡ 0)
        → (r' : Reader) × (read_blocks drive fuel left buf r d
            ≡ ok (buf ++ range content r.position (available r.position left), r'))
          × (r'.position ≡ r.position + available r.position left)
    unfolding read_blocks range
    read_blocks-range zero left buf r h m a = elim h [ ]
    read_blocks-range (suc fuel) left buf r h m a = elim (Bool-cases (left == 0)) [
      | inl z ↦
          let n : available r.position left ≡ 0 = ground arith in
          (r, rw (z, n) (ap (λ b. ok (b, r)) (sym (append_nil buf))), omega arith)
      | inr z ↦
          let at : r.position / 512 * 512 ≡ r.position = ground arith in
          elim (Bool-cases (ltb (r.position / 512) blocks)) [
            | inl i ↦
                let next : ℕ = min 512 left in
                let e = read_block_in r m (ground arith) in
                let r'' : Reader = record r {
                  cache = range content (r.position / 512 * 512) 512;
                  position = r.position + next;
                } in
                let part : take next (range content (r.position / 512 * 512) 512)
                    ≡ range content r.position next =
                  take-range content (r.position / 512 * 512) 512 next (omega arith)
                  ∙ ap (λ q. range content q next) at in
                let (r', k, l) =
                  read_blocks-range fuel (left - next)
                    (buf ++ take next (range content (r.position / 512 * 512) 512)) r''
                    (ground arith) m (ground arith) in
                let n : available r.position left
                    ≡ next + available (r.position + next) (left - next) =
                  ground arith in
                let rest : List ℕ =
                  range content (r.position + next) (available (r.position + next) (left - next)) in
                (
                  r',
                  rw (z, e)
                      (k
                        ∙ ap (λ b. ok (b, r'))
                            (append_assoc buf
                                (take next (range content (r.position / 512 * 512) 512)) rest
                              ∙ ap (λ b. buf ++ b)
                                  (ap (λ b. b ++ rest) part
                                    ∙ range-append content r.position next
                                        (available (r.position + next) (left - next))
                                    ∙ ap (range content r.position) (sym n)))),
                  omega (arith, l),
                )
            | inr i ↦
                let e = read_block_out r m (ground arith) in
                let n : available r.position left ≡ 0 = ground arith in
                (r, rw (z, e, n) (ap (λ b. ok (b, r)) (sym (append_nil buf))), omega arith)
          ]
    ]

    read_from-range :
        (n : ℕ) (r : Reader)
        → r.max_block ≡ blocks
        → r.position ≤ blocks * 512
        → (r' : Reader) × (read_from drive n r d
            ≡ ok (range content r.position (available r.position n), r'))
          × (r'.position ≡ r.position + available r.position n)
    unfolding read_from range
    read_from-range n r m p = elim (Bool-cases (ltb (r.position / 512) blocks)) [
      | inl i ↦
          let o : ℕ = r.position % 512 in
          let start : ℕ = r.position / 512 * 512 in
          let next : ℕ = min (512 - o) n in
          let e = read_block_in r m (ground arith) in
          let r'' : Reader = record r {
            cache = range content start 512;
            position = r.position + next;
          } in
          let at : start + o ≡ r.position = omega arith in
          let part : take next (drop o (range content start 512)) ≡ range content r.position next =
            ap (take next) (drop-range content start 512 o (omega arith))
            ∙ (take-range content (start + o) (512 - o) next (omega arith)
                ∙ ap (λ q. range content q next) at) in
          let (r', k, l) =
            read_blocks-range (suc n) (n - next) (take next (drop o (range content start 512))) r''
              (omega arith) m (ground arith) in
          let c : available r.position n ≡ next + available (r.position + next) (n - next) =
            ground arith in
          let rest : List ℕ =
            range content (r.position + next) (available (r.position + next) (n - next)) in
          let all : take next (drop o (range content start 512)) ++ rest
              ≡ range content r.position (available r.position n) =
            ap (λ b. b ++ rest) part
            ∙ (range-append content r.position next (available (r.position + next) (n - next))
                ∙ ap (range content r.position) (sym c)) in
          (r', rw (e, k, all) refl, omega (arith, l))
      | inr i ↦
          let e = read_block_out r m (ground arith) in
          let c : available r.position n ≡ 0 = ground arith in (r, rw (e, c) refl, omega arith)
    ]

    flushed_idle : (r : Reader) → r.writing ≡ false → flushed drive r d ≡ ok (r, d)
    unfolding flushed
    flushed_idle r w = ground arith

    -- Reading `n` bytes through a reader that is not writing, over a drive that holds some content,
    -- ends, never panics, and returns the bytes of that content from the reader's position on: `n`
    -- of them, or as many as there are up to the end of the disk; the position moves past them.
    pub read-range :
        (n : ℕ) (r : Reader)
        → r.max_block ≡ blocks
        → r.writing ≡ false
        → r.position ≤ blocks * 512
        → (r' : Reader) × (read drive n r d
            ≡ ok (range content r.position (available r.position n), r', d))
          × (r'.position ≡ r.position + available r.position n)
    unfolding read
    read-range n r m w p =
        let (r', k, l) = read_from-range n r m p in (r', rw (flushed_idle r w, k) refl, l)
