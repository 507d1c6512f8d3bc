-- ===== src/Fs/Ahci/Transfers.antt =====
-- What reading through src/syskrnl/fs/ahci.rs gives, and that writing through it never ends well.
use tju_cinea_os.Prelude.{
  ℕ, zero, suc, ◌+◌, ◌-◌, ◌*◌, ◌/◌, ◌%◌, min, ◌≤◌, ◌<◌, ◌≡◌, ◌∙◌, refl, ap, sym, true, false, List,
  [], ◌∷◌, ok, panic, some, take, drop, length, replicate, arith, ◌==◌, ltb, leb, ◌&&◌,
  length-replicate, Bool-cases, inl, inr,
}
use tju_cinea_os.Fs.Ata.Content.{range, take-range, drop-range}
use tju_cinea_os.Fs.Ahci.{
  Port, Reader, sector, sectors_of, slice, copied, take_round, fill_round, read_rounds, finished,
  read_exact, write_rounds, write_all, cache_size,
}

-- The first round of writing fills nothing of the cache, or takes more than there is.
fill_round_first : (buf : List ℕ) (r : Reader) → 0 < length r.cache → fill_round 0 0 buf 0 r ≡ panic
unfolding fill_round slice copied
fill_round_first buf r h = elim (Bool-cases (leb (r.position % 512) 0)) [
  | inl e ↦
      let none_fit : min (0 - r.position % 512) (length buf - 0) ≡ 0 = ground arith in
      let enough : leb (r.position % 512 + 0) (length buf) ≡ true = ground arith in
      let different : (length r.cache == 0) ≡ false = ground arith in
      rw (e, none_fit, enough, different) refl
  | inr e ↦ rw e refl
]

module _ {D : Type 0} (port : Port D) where
  write_rounds_panic :
      (rounds start_sector sectors : ℕ) (buf : List ℕ) (r : Reader) (d : D)
      → 0 < length r.cache
      → write_rounds port rounds 0 start_sector sectors 0 buf 0 r d ≡ panic
  unfolding write_rounds
  write_rounds_panic zero start_sector sectors buf r d h = rw (fill_round_first buf r h) refl
  write_rounds_panic (suc rounds) start_sector sectors buf r d h =
      rw (fill_round_first buf r h) refl

  -- Writing within the disk panics, whatever the bytes and the position are.
  pub write_all_panics :
      (buf : List ℕ) (r : Reader) (d : D)
      → 0 < length r.cache
      → r.position + length buf ≤ r.max_sector * 512
      → write_all port buf r d ≡ panic
  unfolding write_all
  write_all_panics buf r d h l =
      let e : ltb (r.max_sector * 512) (r.position + length buf) ≡ false = ground arith in
      rw
        (
          e,
          write_rounds_panic (sectors_of (length buf) r / 64) (sector r.position)
              (sectors_of (length buf) r) buf (record r { cache_valid = false }) d h,
        )
        refl

take-take : (b : List ℕ) (n m : ℕ) → n ≤ m → take n (take m b) ≡ take n b
take-take b zero m h = refl
take-take b (suc n) zero h = ground arith
take-take [] (suc n) (suc m) h = refl
take-take (x ∷ b) (suc n) (suc m) h = ap (λ l. x ∷ l) (take-take b n m (omega arith))

take-drop :
    (b : List ℕ) (off n m : ℕ) → off + n ≤ m → take n (drop off (take m b)) ≡ take n (drop off b)
take-drop b zero n m h = take-take b n m (omega arith)
take-drop b (suc off) n zero h = ground arith
take-drop [] (suc off) n (suc m) h = refl
take-drop (x ∷ b) (suc off) n (suc m) h = take-drop b off n m (omega arith)

pub length-range : (f : ℕ → ℕ) (p n : ℕ) → length (range f p n) ≡ n
unfolding range
length-range f p zero = refl
length-range f p (suc n) = ap suc (length-range f (suc p) n)

module _ {D : Type 0} (port : Port D) (content : ℕ → ℕ) (sectors : ℕ) (d : D) where
  -- What a reading of `count` sectors gives: the sectors, and a buffer of the same length.
  pub record Filled (from count : ℕ) (buf : List ℕ) : Type 0 where
    pub out : List ℕ
    pub done : port.read from count buf d ≡ ok (out, true)
    pub bytes : take (count * 512) out ≡ range content (from * 512) (count * 512)
    pub room : length out ≡ length buf

  -- A port on a disk in a state in which 1 to 16 sectors at a time can be read over a buffer that has
  -- room for them, and hold the content. For other numbers the driver does not do so.
  abbrev pub Holds : Type 0
  Holds =
      (from count : ℕ) (buf : List ℕ)
      → 1 ≤ count
      → count ≤ 16
      → from + count ≤ sectors
      → count * 512 ≤ length buf
      → Filled from count buf

  -- A slice of what was read is that part of the disk.
  slice-range :
      (from count off n : ℕ) (buf : List ℕ) (f : Filled from count buf)
      → count * 512 ≤ length buf
      → off + n ≤ count * 512
      → slice off n f.out ≡ ok (range content (from * 512 + off) n)
  unfolding slice
  slice-range from count off n buf f b c =
      let enough : leb (off + n) (length f.out) ≡ true = ground (arith, f.room) in
      rw enough (
        ap ok (
          sym (take-drop f.out off n (count * 512) c)
          ∙ ap (λ l. take n (drop off l)) f.bytes
          ∙ ap (take n) (drop-range content (from * 512) (count * 512) off (omega arith))
          ∙ take-range content (from * 512 + off) (count * 512 - off) n (omega arith)))

  -- The one round of a short transfer.
  read_round :
      (buf : List ℕ) (r : Reader) (count : ℕ)
      (f : Filled (r.position / 512) count (replicate (length r.cache) 0))
      → length r.cache ≡ cache_size
      → count ≤ 16
      → r.position % 512 + length buf ≤ count * 512
      → (r' : Reader) × (read_rounds port 0 0 (r.position / 512) count buf 0 r d
          ≡ ok (some (range content r.position (length buf)), r'))
        × (r'.position ≡ r.position)
        × (length r'.cache ≡ cache_size)
  unfolding read_rounds take_round copied
  read_round buf r count f c s b =
      let from = r.position / 512 in
      let blank : List ℕ = replicate (length r.cache) 0 in
      let wide : length blank ≡ cache_size = length-replicate (length r.cache) 0 ∙ c in
      let here : from + 0 * 64 ≡ from = omega arith in
      let all : count % 64 ≡ count = omega arith in
      let next : min (count * 512 - r.position % 512) (length buf - 0) ≡ length buf =
        ground arith in
      let first : leb (r.position % 512) (count * 512) ≡ true = ground arith in
      let whole : from * 512 + r.position % 512 ≡ r.position = omega arith in
      let same : (length buf == length (range content r.position (length buf))) ≡ true =
        ground (arith, length-range content r.position (length buf)) in
      let part = slice-range from count (r.position % 512) (length buf) blank f (omega arith) b in
      (
        record r { cache = f.out; cache_start = from },
        rw (here, all, f.done, first, next) (rw (part, whole, same) refl),
        refl,
        f.room ∙ wide,
      )

  -- A transfer of one round, past the cache.
  read_exact_once :
      (buf l : List ℕ) (r r' : Reader)
      → r.cache_valid ≡ false
      → r.position + length buf ≤ r.max_sector * 512
      → sectors_of (length buf) r ≤ 16
      → read_rounds port 0 0 (r.position / 512) (sectors_of (length buf) r) buf 0 r d
        ≡ ok (some l, r')
      → read_exact port buf r d
        ≡ ok (some l, record r' { position = r'.position + length buf; cache_valid = true })
  unfolding read_exact finished
  read_exact_once buf l r r' v a s done =
      let within : ltb (r.max_sector * 512) (r.position + length buf) ≡ false = ground arith in
      let miss : (r.cache_valid
            && r.position / 512 == r.cache_start
            && sectors_of (length buf) r / 64 == 0)
          ≡ false =
        rw v refl in
      let once : sectors_of (length buf) r / 64 ≡ 0 = omega arith in
      rw (within, miss, once, done) refl

  -- Over a port that reads 1 to 16 sectors at a time as it should, a buffer for which at most 16
  -- sectors are asked, and which ends before the last sector of the disk does, is filled with the
  -- disk's bytes from the position on, if the cache has its size and is not valid before; the position
  -- moves on by the buffer's length, and the cache is valid and has its size.
  pub read_exact-range :
      (buf : List ℕ) (r : Reader)
      → Holds
      → r.max_sector ≡ sectors
      → length r.cache ≡ cache_size
      → r.cache_valid ≡ false
      → sectors_of (length buf) r ≤ 16
      → r.position + length buf < sectors * 512
      → (r' : Reader) × (read_exact port buf r d
          ≡ ok (some (range content r.position (length buf)), r'))
        × (r'.position ≡ r.position + length buf)
        × (r'.cache_valid ≡ true)
        × (length r'.cache ≡ cache_size)
  read_exact-range buf r holds m c v s l =
      let count = sectors_of (length buf) r in
      let wide = length-replicate {A = ℕ} (length r.cache) 0 in
      let f =
        holds (r.position / 512) count (replicate (length r.cache) 0) (omega arith) s (omega arith)
          (omega arith) in
      let (r', done, same, room) = read_round buf r count f c s (omega arith) in
      (
        record r' { position = r'.position + length buf; cache_valid = true },
        read_exact_once buf (range content r.position (length buf)) r r' v (omega arith) s done,
        ap (λ p. p + length buf) same,
        refl,
        room,
      )
