-- ===== src/AtaBus/Identify.antt =====
-- Which drive there is: `identify_drive` and `Drive` of src/syskrnl/io/ata.rs.
use tju_cinea_os.Prelude.{
  ℕ, zero, suc, ◌+◌, ◌-◌, ◌*◌, ◌/◌, ◌%◌, ◌^◌, Bool, true, false, ◌&&◌, Option, none, some, List, [],
  ◌∷◌, Run, ok, ◌>>=◌, take, drop, ltb, ◌==◌, if◌then◌else◌,
}
use tju_cinea_os.AtaBus.{
  Hardware, data_register, lba1_register, lba2_register, identify, block_size, Io, ◌>>?◌, status,
  check_floating_bus, select_drive, write_command_params, write_command,
}

pub data IdentifyResponse : Type 0 where
  ata : List ℕ → IdentifyResponse
  atapi : IdentifyResponse
  sata : IdentifyResponse
  no_drive : IdentifyResponse

-- `Drive`; the library's reading of bytes as text is a parameter of `open`.
pub record Drive : Type 0 where
  pub bus : ℕ
  pub dsk : ℕ
  pub blocks : ℕ
  pub model : List ℕ
  pub serial : List ℕ

-- `u16::to_be_bytes` of each word.
unfoldable pub be_bytes : List ℕ → List ℕ
be_bytes [] = []
be_bytes (w ∷ words) = w / 256 ∷ w % 256 ∷ be_bytes words

-- `u32::from_be_bytes` and `rotate_left(16)`.
unfoldable pub from_be_bytes : ℕ → List ℕ → ℕ
from_be_bytes acc [] = acc
from_be_bytes acc (b ∷ bytes) = from_be_bytes (acc * 256 + b) bytes

unfoldable pub rotate_left_16 : ℕ → ℕ
rotate_left_16 x = x * 65536 % 4294967296 + x / 65536

abbrev pub slice : ℕ → ℕ → List ℕ → List ℕ
slice from to bytes = take (to - from) (drop from bytes)

-- What `Drive::open` makes of the answer.
unfoldable pub opened : (List ℕ → List ℕ) → ℕ → ℕ → Option IdentifyResponse → Option Drive
opened text bus dsk (some (ata res)) =
    let buf = be_bytes res in
    some (record {
      bus = bus;
      dsk = dsk;
      blocks = rotate_left_16 (from_be_bytes 0 (slice 120 124 buf));
      model = text (slice 54 94 buf);
      serial = text (slice 20 40 buf);
    })
opened text bus dsk (some atapi) = none
opened text bus dsk (some sata) = none
opened text bus dsk (some no_drive) = none
opened text bus dsk none = none

-- `humanized_size`: the size, and whether it is in gigabytes.
unfoldable pub humanized_size : Drive → ℕ × Bool
humanized_size drive =
    let bytes = block_size * drive.blocks in
    if ltb (bytes / 2 ^ 20) 1000 then (bytes / 2 ^ 20, false) else (bytes / 2 ^ 30, true)

module _ {D : Type 0} (h : Hardware D) where
  -- The words of the answer to `Identify`.
  unfoldable pub data_words : ℕ → D → List ℕ × D
  data_words zero d = ([], d)
  data_words (suc n) d =
      let (w, d) = h.read_port data_register d in let (words, d) = data_words n d in (w ∷ words, d)

  module _ (fuel : ℕ) where
    unfoldable pub from_lba : ℕ → ℕ → D → Io D IdentifyResponse
    from_lba lba1 lba2 d =
        if lba1 == 0 && lba2 == 0
        then (let (words, d) = data_words 256 d in ok (some (ata words), d))
        else if lba1 == 0x14 && lba2 == 0xEB
        then ok (some atapi, d)
        else if lba1 == 0x3C && lba2 == 0xC3
        then ok (some sata, d)
        else ok (none, d)

    unfoldable pub identified : Option (Unit {0}) × D → Io D IdentifyResponse
    identified (none, d) =
        let (s, d) = status h d in if s == 0 then ok (some no_drive, d) else ok (none, d)
    identified (some _, d) =
        let (lba1, d) = h.read_port lba1_register d in
        let (lba2, d) = h.read_port lba2_register d in from_lba lba1 lba2 d

    unfoldable pub identify_on : ℕ → Bool × D → Io D IdentifyResponse
    identify_on drive (true, d) = ok (some no_drive, d)
    identify_on drive (false, d) = select_drive h fuel drive d >>? λ _ d.
        write_command h fuel identify (write_command_params h drive 0 d) >>= identified

    -- `identify_drive`.
    unfoldable pub identify_drive : ℕ → D → Io D IdentifyResponse
    identify_drive drive d = identify_on drive (check_floating_bus h d)

    -- `Drive::open`: nothing, unless there is an ATA drive.
    unfoldable pub open_drive : (List ℕ → List ℕ) → ℕ → ℕ → D → Run (Option Drive × D)
    open_drive text bus dsk d = do (r, d) ← identify_drive dsk d; ok (opened text bus dsk r, d)
