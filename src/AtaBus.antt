-- ===== src/AtaBus.antt =====
-- src/syskrnl/io/ata.rs: commands to the drives on an ATA bus. The bus itself is a parameter: its
-- registers are read and written by ports, and the clock says when a second has passed.
pub mod Identify
pub mod Addressing
use tju_cinea_os.Prelude.{
  ℕ, zero, suc, ◌+◌, ◌-◌, ◌*◌, ◌/◌, ◌%◌, ◌^◌, Bool, true, false, ◌||◌, ◌&&◌, not, Option, none,
  some, List, [], ◌∷◌, ◌++◌, Run, ok, panic, out_of_fuel, ◌>>=◌, length, take, drop, ltb, ◌==◌,
  if◌then◌else◌,
}

pub data Register : Type 0 where
  data_register : Register
  error_register : Register
  sector_count_register : Register
  lba0_register : Register
  lba1_register : Register
  lba2_register : Register
  drive_register : Register
  status_register : Register
  command_register : Register
  alternate_status_register : Register
  control_register : Register

-- The hardware in a state `D`. Reading a register may change its state.
pub record Hardware (D : Type 0) : Type 0 where
  pub read_port : Register → D → ℕ × D
  pub write_port : Register → ℕ → D → D
  pub wait : ℕ → D → D
  pub second_passed : D → D → Bool

-- The values of `Command` and the bits of `Status` that the code uses.
pub data Command : Type 0 where
  read_sector : Command
  write_sector : Command
  identify : Command

unfoldable pub command_byte : Command → ℕ
command_byte read_sector = 0x20
command_byte write_sector = 0x30
command_byte identify = 0xEC

abbrev pub err : ℕ
err = 0

abbrev pub drq : ℕ
drq = 3

abbrev pub bsy : ℕ
bsy = 7

abbrev pub block_size : ℕ
block_size = 512

-- `get_bit` and `set_bit` of a byte.
abbrev pub get_bit : ℕ → ℕ → Bool
get_bit b k = b / 2 ^ k % 2 == 1

abbrev pub set_bit : ℕ → ℕ → Bool → ℕ
set_bit b k v = b - b / 2 ^ k % 2 * 2 ^ k + (if v then 2 ^ k else 0)

abbrev pub bool_eq : Bool → Bool → Bool
bool_eq true b = b
bool_eq false b = not b

-- A step ends with the hardware's state, and a value or the error `Err(())`.
abbrev pub Io : Type 0 → Type 0 → Type 0
Io D A = Run (Option A × D)

abbrev pub then_io : {D A B : Type 0} → (A → D → Io D B) → Option A × D → Io D B
then_io f (none, d) = ok (none, d)
then_io f (some a, d) = f a d

infixl 5 ◌>>?◌
abbrev pub ◌>>?◌ : {D A B : Type 0} → Io D A → (A → D → Io D B) → Io D B
r >>? f = r >>= then_io f

module _ {D : Type 0} (h : Hardware D) where
  abbrev pub status : D → ℕ × D
  status d = h.read_port alternate_status_register d

  -- `check_floating_bus`: whether it is floating.
  unfoldable pub check_floating_bus : D → Bool × D
  check_floating_bus d = let (s, d') = status d in (s == 0xFF || s == 0x7F, d')

  unfoldable pub is_error : D → Bool × D
  is_error d = let (s, d') = status d in (get_bit s err, d')

  unfoldable pub reset : D → D
  reset d =
      let d = h.wait 5 (h.write_port control_register 4 d) in
      h.wait 2000 (h.write_port control_register 0 d)

  -- The loop of `poll`, from the state at which the polling started.
  unfoldable pub poll_from : ℕ → D → ℕ → Bool → D → Io D (Unit {0})
  poll_from zero start bit val d = out_of_fuel
  poll_from (suc fuel) start bit val d =
      let (s, d') = status d in
      let rest = poll_from fuel start bit val d' in
      if bool_eq (get_bit s bit) val
      then ok (some tt, d')
      else if h.second_passed start d'
      then ok (none, d')
      else rest

  -- The last byte of the block's number loses its high half.
  unfoldable pub write_command_params : ℕ → ℕ → D → D
  write_command_params drive block d =
      let top =
        set_bit (set_bit (set_bit (set_bit (block / 16777216 % 256) 4 (ltb 0 drive)) 5 true) 6 true)
          7 true in
      let d = h.write_port sector_count_register 1 d in
      let d = h.write_port lba0_register (block % 256) d in
      let d = h.write_port lba1_register (block / 256 % 256) d in
      let d = h.write_port lba2_register (block / 65536 % 256) d in
      h.write_port drive_register top d

  -- After the wait: the first reading of the status is ignored, and the interrupt is cleared.
  unfoldable pub settled : D → ℕ × D
  settled d =
      let (_, d) = status (h.wait 400 d) in let (_, d) = h.read_port status_register d in status d

  -- The words that `read` takes from the data register, as bytes; and the words that `write` puts
  -- there, of two bytes each.
  unfoldable pub read_words : ℕ → D → List ℕ × D
  read_words zero d = ([], d)
  read_words (suc n) d =
      let (w, d) = h.read_port data_register d in
      let (bytes, d) = read_words n d in (w % 256 ∷ w / 256 ∷ bytes, d)

  unfoldable pub write_words : List ℕ → D → Run D
  write_words [] d = ok d
  write_words (a ∷ []) d = panic
  write_words (a ∷ b ∷ bytes) d = write_words bytes (h.write_port data_register (a + 256 * b) d)

  unfoldable pub unless_error : {A : Type 0} → A → Bool × D → Io D A
  unless_error a (true, d) = ok (none, d)
  unless_error a (false, d) = ok (some a, d)

  unfoldable pub with_words : List ℕ × D → Io D (List ℕ)
  with_words (bytes, d) = unless_error bytes (is_error d)

  module _ (fuel : ℕ) where
    unfoldable pub poll : ℕ → Bool → D → Io D (Unit {0})
    poll bit val d = poll_from fuel d bit val d

    -- The byte 0xA0 | (drive << 4) has bits 5 and 7 set.
    unfoldable pub select_drive : ℕ → D → Io D (Unit {0})
    select_drive drive d =
        poll bsy false d
        >>? (λ _ d. poll drq false d)
        >>? (λ _ d. poll bsy false (
            h.wait 400
              (h.write_port drive_register (set_bit (set_bit (drive * 16 % 256) 5 true) 7 true) d)))
        >>? (λ _ d. poll drq false d)

    unfoldable pub after_error : Bool × D → Io D (Unit {0})
    after_error (true, d) = ok (none, d)
    after_error (false, d) = poll bsy false d >>? λ _ d. poll drq true d

    unfoldable pub after_status : ℕ × D → Io D (Unit {0})
    after_status (s, d) = if s == 0 then ok (none, d) else after_error (is_error d)

    unfoldable pub write_command : Command → D → Io D (Unit {0})
    write_command cmd d =
        after_status (settled (h.write_port command_register (command_byte cmd) d))

    unfoldable pub setup_pio : ℕ → ℕ → D → Io D (Unit {0})
    setup_pio drive block d =
        select_drive drive d >>? λ _ d. ok (some tt, write_command_params drive block d)

    -- `read`: the block's bytes, for a buffer of that length.
    unfoldable pub read : ℕ → ℕ → D → Io D (List ℕ)
    read drive block d =
        setup_pio drive block d
        >>? (λ _ d. write_command read_sector d)
        >>? (λ _ d. with_words (read_words (block_size / 2) d))

    unfoldable pub write : ℕ → ℕ → List ℕ → D → Io D (Unit {0})
    write drive block buf d =
        setup_pio drive block d
        >>? (λ _ d. write_command write_sector d)
        >>? (λ _ d. write_words buf d >>= λ d. unless_error tt (is_error d))
