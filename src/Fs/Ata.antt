-- ===== src/Fs/Ata.antt =====
-- Reading and writing a disk by bytes: src/syskrnl/fs/ata.rs. The drive itself
-- (src/syskrnl/io/ata.rs) is a parameter.
pub mod Content
use tju_cinea_os.Prelude.{
  ℕ, zero, suc, ◌+◌, ◌-◌, ◌*◌, ◌/◌, ◌%◌, min, Bool, true, false, not, Option, none, some, List, [],
  ◌∷◌, ◌++◌, Run, ok, panic, out_of_fuel, ◌>>=◌, take, drop, length, ◌==◌, ltb, if◌then◌else◌,
}

abbrev pub block_size : ℕ
block_size = 512

-- A drive with its state: reading a block over a buffer gives the buffer as it is then, and whether
-- reading succeeded; writing a block may fail.
pub record Drive (D : Type 0) : Type 0 where
  pub read : ℕ → List ℕ → D → List ℕ × Bool
  pub write : ℕ → List ℕ → D → Option D

-- `AtaDeviceReader`.
pub record Reader : Type 0 where
  pub max_block : ℕ
  pub position : ℕ
  pub cache : List ℕ
  pub writing : Bool

unfoldable pub set_position : ℕ → Reader → Option Reader
set_position pos r =
    if ltb (r.max_block * block_size) pos then none else some (record r { position = pos })

-- `SeekFrom`: `Start(pos)`, `End(n)`, `End(-n)`, `Current(n)`, `Current(-n)`. An offset from the end
-- is subtracted.
pub data SeekFrom : Type 0 where
  start : ℕ → SeekFrom
  before_end : ℕ → SeekFrom
  past_end : ℕ → SeekFrom
  forward : ℕ → SeekFrom
  backward : ℕ → SeekFrom

-- A position before the start is a huge `usize`, which `set_position` refuses.
unfoldable pub seek_back : ℕ → ℕ → Reader → Option Reader
seek_back from n r = if ltb from n then none else set_position (from - n) r

unfoldable pub seek : SeekFrom → Reader → Option Reader
seek (start pos) r = set_position pos r
seek (before_end n) r = seek_back (r.max_block * block_size) n r
seek (past_end n) r = set_position (r.max_block * block_size + n) r
seek (forward n) r = set_position (r.position + n) r
seek (backward n) r = seek_back r.position n r

module _ {D : Type 0} (drive : Drive D) where
  -- The reader afterwards, and whether the block was read.
  unfoldable pub read_block : Reader → D → Reader × Bool
  read_block r d =
      let block = r.position / block_size in
      let (cache, good) = drive.read block r.cache d in
      if ltb block r.max_block then (record r { cache = cache }, good) else (r, false)

  unfoldable pub write_block : Reader → D → Option D
  write_block r d =
      let block = r.position / block_size in
      if ltb block r.max_block then drive.write block r.cache d else none

  -- The second phase of `read`: the rest of the buffer, block by block.
  unfoldable pub read_blocks : ℕ → ℕ → List ℕ → Reader → D → Run (List ℕ × Reader)
  read_blocks zero left buf r d = out_of_fuel
  read_blocks (suc fuel) left buf r d =
      let (r', good) = read_block r d in
      let next_read = min block_size left in
      let rest =
        read_blocks fuel (left - next_read) (buf ++ take next_read r'.cache)
          (record r' { position = r'.position + next_read }) d in
      if left == 0 then ok (buf, r) else if good then rest else ok (buf, r')

  -- `read` of a buffer of `n` bytes, past the flush: the bytes that were read.
  unfoldable pub read_from : ℕ → Reader → D → Run (List ℕ × Reader)
  read_from n r d =
      let (r', good) = read_block r d in
      let block_offset = r.position % block_size in
      let next_read = min (block_size - block_offset) n in
      let rest =
        read_blocks (suc n) (n - next_read) (take next_read (drop block_offset r'.cache))
          (record r' { position = r'.position + next_read }) d in
      if good then rest else ok ([], r')

  unfoldable pub flushed : Reader → D → Run (Reader × D)
  flushed r d =
      if r.writing
      then elim (write_block r d) [ none ↦ panic | some d' ↦ ok (record r { writing = false }, d') ]
      else ok (r, d)

  unfoldable pub read : ℕ → Reader → D → Run (List ℕ × Reader × D)
  read n r d = do (r, d) ← flushed r d; (buf, r) ← read_from n r d; ok (buf, r, d)

  -- The cache with bytes written over it.
  unfoldable pub overwrite : ℕ → List ℕ → List ℕ → List ℕ
  overwrite offset bytes cache = take offset cache ++ bytes ++ drop (offset + length bytes) cache

  -- The second phase of `write`, with the number of bytes written before.
  unfoldable pub write_blocks : ℕ → ℕ → List ℕ → Reader → D → Run (ℕ × Reader × D)
  write_blocks zero done buf r d = out_of_fuel
  write_blocks (suc fuel) done buf r d =
      let next_write = min block_size (length buf) in
      let r' = record r { cache = overwrite 0 (take next_write buf) r.cache } in
      if length buf == 0 then ok (done, r, d) else elim (write_block r' d) [
        | none ↦ ok (done, r', d)
        | some d' ↦
            write_blocks fuel (done + next_write) (drop next_write buf)
              (record r' { position = r'.position + next_write }) d'
      ]

  unfoldable pub write_from : List ℕ → Reader → D → Run (ℕ × Reader × D)
  write_from buf r d =
      let block_offset = r.position % block_size in
      let next_write = min (block_size - block_offset) (length buf) in
      let r = record r { cache = overwrite block_offset (take next_write buf) r.cache } in
      elim (write_block r d) [
        | none ↦ ok (0, r, d)
        | some d' ↦
            write_blocks (suc (length buf)) next_write (drop next_write buf)
              (record r { position = r.position + next_write }) d'
      ]

  unfoldable pub write : List ℕ → Reader → D → Run (ℕ × Reader × D)
  write buf r d =
      let (r', good) = read_block r d in
      if r.writing
      then write_from buf r d
      else if good
      then write_from buf (record r' { writing = true }) d
      else panic
