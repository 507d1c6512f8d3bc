-- ===== src/AtaBus/Addressing.antt =====
-- Which sector a command of src/syskrnl/io/ata.rs is about, how long a drive is waited for, and how
-- many blocks it has.
use tju_cinea_os.Prelude.{
  ℕ, zero, suc, ◌+◌, ◌*◌, ◌/◌, ◌%◌, ◌^◌, ◌≤◌, ◌<◌, ◌≡◌, refl, Bool, true, false, Option, none, some,
  List, [], ◌∷◌, ok, get_or, length, take, drop, ltb, if◌then◌else◌, arith, inl, inr, Bool-cases,
}
use tju_cinea_os.AtaBus.{
  Hardware, Register, write_command_params, poll_from, status, set_bit, get_bit, bool_eq,
}
use tju_cinea_os.AtaBus.Identify.{
  Drive, ata, opened, be_bytes, from_be_bytes, rotate_left_16, slice,
}

-- What the registers of a command hold. `HasLatches` says of the hardware that each holds what was
-- written last, whatever is written to the others.
pub record Latches : Type 0 where
  pub sector_count : ℕ
  pub lba0 : ℕ
  pub lba1 : ℕ
  pub lba2 : ℕ
  pub drive : ℕ

abbrev pub latched : Register → ℕ → Latches → Latches
latched Register.sector_count_register v l = record l { sector_count = v }
latched Register.lba0_register v l = record l { lba0 = v }
latched Register.lba1_register v l = record l { lba1 = v }
latched Register.lba2_register v l = record l { lba2 = v }
latched Register.drive_register v l = record l { drive = v }
latched Register.data_register v l = l
latched Register.error_register v l = l
latched Register.status_register v l = l
latched Register.command_register v l = l
latched Register.alternate_status_register v l = l
latched Register.control_register v l = l

pub record HasLatches {D : Type 0} (h : Hardware D) : Type 0 where
  pub latches : D → Latches
  pub writes :
      (r : Register) (v : ℕ) (d : D) → latches (h.write_port r v d) ≡ latched r v (latches d)

-- The sector that the registers stand for, with 28 bits.
abbrev pub sector : Latches → ℕ
sector l = l.lba0 + 256 * l.lba1 + 65536 * l.lba2 + 16777216 * (l.drive % 16)

-- The last byte with its high bits set.
abbrev top_byte : ℕ → Bool → ℕ
top_byte b v = set_bit (set_bit (set_bit (set_bit b 4 v) 5 true) 6 true) 7 true

top_byte_bits :
    (b : ℕ) (v : Bool)
    → b < 256
    → (top_byte b v % 16 ≡ b % 16)
      × (top_byte b v / 16 % 2 ≡ (if v then 1 else 0))
      × (top_byte b v / 64 % 2 ≡ 1)
top_byte_bits b true h = (omega arith, omega arith, omega arith)
top_byte_bits b false h = (omega arith, omega arith, omega arith)

-- The parameters of a command name one sector, by the low 28 bits of the block's number, so that two
-- blocks whose numbers differ by a multiple of 2 ^ 28 are the same sector; and bit 4 of the last
-- register says whether it is the second drive, bit 6 that the number is a linear one.
pub write_command_params-sector :
    {D : Type 0} (h : Hardware D) (w : HasLatches h) (drive block : ℕ) (d : D)
    → block < 2 ^ 32
    → (sector (w.latches (write_command_params h drive block d)) ≡ block % 2 ^ 28)
      × ((w.latches (write_command_params h drive block d)).sector_count ≡ 1)
      × ((w.latches (write_command_params h drive block d)).drive / 16 % 2
          ≡ (if ltb 0 drive then 1 else 0))
      × ((w.latches (write_command_params h drive block d)).drive / 64 % 2 ≡ 1)
unfolding write_command_params
write_command_params-sector h w drive block d b =
    let t = top_byte_bits (block / 16777216 % 256) (ltb 0 drive) (omega arith) in
    simp (w.writes) (omega (arith, t.0), refl, t.1, t.2)

-- The hardware's state after the status was read that often.
abbrev pub after_reads : {D : Type 0} → Hardware D → ℕ → D → D
after_reads h zero d = d
after_reads h (suc n) d = after_reads h n (status h d).1

-- Polling ends, with success or an error: if the clock says at some reading of the status that a second
-- has passed, as many rounds as there were readings up to then are enough.
pub poll_from_ends :
    {D : Type 0} (h : Hardware D) (start : D) (bit : ℕ) (val : Bool) (n : ℕ) (d : D)
    → h.second_passed start (after_reads h (suc n) d) ≡ true
    → (o : Option (Unit {0})) × (d' : D) × (poll_from h (suc n) start bit val d ≡ ok (o, d'))
unfolding poll_from
poll_from_ends h start bit val zero d t =
    elim (Bool-cases (bool_eq (get_bit (status h d).0 bit) val)) [
      | inl e ↦ (some tt, (status h d).1, rw e)
      | inr e ↦ (none, (status h d).1, rw (e, t))
    ]
poll_from_ends h start bit val (suc n) d t =
    elim (Bool-cases (bool_eq (get_bit (status h d).0 bit) val)) [
      | inl e ↦ (some tt, (status h d).1, rw e)
      | inr e ↦ elim (Bool-cases (h.second_passed start (status h d).1)) [
        | inl late ↦ (none, (status h d).1, rw (e, late))
        | inr early ↦ rw (e, early) (poll_from_ends h start bit val n (status h d).1 t)
      ]
    ]

abbrev double : ℕ → ℕ
double zero = 0
double (suc n) = suc (suc (double n))

drop-be_bytes : (k : ℕ) (res : List ℕ) → drop (double k) (be_bytes res) ≡ be_bytes (drop k res)
unfolding be_bytes
drop-be_bytes zero res = refl
drop-be_bytes (suc k) [] = refl
drop-be_bytes (suc k) (w ∷ res) = unfold be_bytes in drop-be_bytes k res

drop_two :
    (res : List ℕ) (k : ℕ)
    → k + 2 ≤ length res
    → drop k res ≡ get_or res k 0 ∷ get_or res (suc k) 0 ∷ drop (suc (suc k)) res
drop_two [] k h = absurd (omega arith)
drop_two (w ∷ []) k h = absurd (omega arith)
drop_two (w ∷ v ∷ res) zero h = refl
drop_two (w ∷ v ∷ res) (suc k) h = drop_two (v ∷ res) k (omega arith)

two_words :
    (x y : ℕ) (rest : List ℕ)
    → x < 65536
    → y < 65536
    → rotate_left_16 (from_be_bytes 0 (take 4 (be_bytes (x ∷ y ∷ rest)))) ≡ x + 65536 * y
unfolding be_bytes from_be_bytes rotate_left_16
two_words x y rest a b = omega arith

-- The number of blocks that `Drive::open` finds is that of words 60 and 61 of the answer, the low one
-- first, whatever the other words are.
pub opened-blocks :
    (text : List ℕ → List ℕ) (bus dsk : ℕ) (res : List ℕ)
    → 62 ≤ length res
    → get_or res 60 0 < 65536
    → get_or res 61 0 < 65536
    → (drive : Drive) × (opened text bus dsk (some (ata res)) ≡ some drive)
      × (drive.blocks ≡ get_or res 60 0 + 65536 * get_or res 61 0)
unfolding opened
opened-blocks text bus dsk res l a b =
    let e = drop-be_bytes 60 res in
    let f = drop_two res 60 l in
    (
      record {
        bus = bus;
        dsk = dsk;
        blocks = rotate_left_16 (from_be_bytes 0 (slice 120 124 (be_bytes res)));
        model = text (slice 54 94 (be_bytes res));
        serial = text (slice 20 40 (be_bytes res));
      },
      refl,
      rw (e, f) (two_words (get_or res 60 0) (get_or res 61 0) (drop 62 res) a b),
    )
