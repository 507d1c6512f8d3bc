-- ===== src/Fs/Ahci.antt =====
-- Reading and writing a disk by bytes through a cache of 64 sectors: src/syskrnl/fs/ahci.rs. The port
-- (src/syskrnl/io/ahci.rs) is a parameter.
pub mod Transfers
use tju_cinea_os.Prelude.{
  ℕ, zero, suc, ◌+◌, ◌-◌, ◌*◌, ◌/◌, ◌%◌, min, Bool, true, false, not, Option, none, some, List, [],
  ◌++◌, Run, ok, panic, ◌>>=◌, ◌>>◌, assert, take, drop, length, replicate, ◌==◌, ◌&&◌, ltb, leb,
  if◌then◌else◌,
}
use tju_cinea_os.Fs.Ata.{SeekFrom, start, before_end, past_end, forward, backward}

abbrev pub sector_size : ℕ
sector_size = 512

abbrev pub cache_sectors : ℕ
cache_sectors = 64

abbrev pub cache_size : ℕ
cache_size = 32768

-- A port with the state of its disk: reading a number of sectors over a buffer gives the buffer as it
-- is then, and whether reading succeeded; writing may fail; both may panic.
pub record Port (D : Type 0) : Type 0 where
  pub read : ℕ → ℕ → List ℕ → D → Run (List ℕ × Bool)
  pub write : ℕ → ℕ → List ℕ → D → Run (Option D)

-- `AhciDeviceReader`, less the port.
pub record Reader : Type 0 where
  pub max_sector : ℕ
  pub position : ℕ
  pub cache : List ℕ
  pub cache_valid : Bool
  pub cache_start : ℕ

-- For a port that tells how many sectors there are.
unfoldable pub new : Option ℕ → Option Reader
new none = none
new (some max_sector) = some (record {
  max_sector = max_sector;
  position = 0;
  cache = replicate cache_size 0;
  cache_valid = false;
  cache_start = 0;
})

abbrev pub sector : ℕ → ℕ
sector position = position / sector_size

abbrev pub offset : ℕ → ℕ
offset position = position % sector_size

unfoldable pub set_position : ℕ → Reader → Option Reader
set_position pos r =
    if ltb (r.max_sector * sector_size) pos then none else some (record r { position = pos })

-- A position before the start is a huge `usize`, which `set_position` refuses.
unfoldable pub seek_back : ℕ → ℕ → Reader → Option Reader
seek_back from n r = if ltb from n then none else set_position (from - n) r

unfoldable pub seek : SeekFrom → Reader → Option Reader
seek (start pos) r = set_position pos r
seek (before_end n) r = seek_back (r.max_sector * sector_size) n r
seek (past_end n) r = set_position (r.max_sector * sector_size + n) r
seek (forward n) r = set_position (r.position + n) r
seek (backward n) r = seek_back r.position n r

-- `list[from..from + n]`.
unfoldable pub slice : ℕ → ℕ → List ℕ → Run (List ℕ)
slice from n list = if leb (from + n) (length list) then ok (take n (drop from list)) else panic

-- `copy_from_slice` panics unless the lengths are the same.
unfoldable pub copied : ℕ → List ℕ → Run (List ℕ)
copied room bytes = if room == length bytes then ok bytes else panic

-- How many sectors a transfer of `n` bytes covers.
abbrev pub sectors_of : ℕ → Reader → ℕ
sectors_of n r = (offset r.position + n) / sector_size + 1

-- The bytes of one round of reading that go into the buffer.
unfoldable pub take_round : ℕ → ℕ → List ℕ → ℕ → Reader → Run (List ℕ × ℕ)
take_round zero last_read buf buf_pos r =
    let off = offset r.position in
    let next_copy = min (last_read - off) (length buf - buf_pos) in
    do
      assert (leb off last_read)
      bytes ← slice off next_copy r.cache
      buf ← copied (length buf) bytes
      ok (buf, buf_pos + next_copy)
take_round (suc i) last_read buf buf_pos r =
    let next_copy = min last_read (length buf - buf_pos) in
    do
      bytes ← slice 0 next_copy r.cache
      rest ← copied (length buf - buf_pos) bytes
      ok (take buf_pos buf ++ rest, buf_pos + next_copy)

module _ {D : Type 0} (port : Port D) where
  -- The loop of `read_exact`, by the rounds that are left after this one; `i` rounds are done. Nothing
  -- stands for an error.
  unfoldable pub read_rounds :
      ℕ → ℕ → ℕ → ℕ → List ℕ → ℕ → Reader → D → Run (Option (List ℕ) × Reader)
  read_rounds zero i start_sector sectors buf buf_pos r d =
      let from = start_sector + i * cache_sectors in
      let count = sectors % cache_sectors in
      do
        (cache, good) ← port.read from count (replicate (length r.cache) 0) d
        let r' = record r { cache = cache; cache_start = from }
        if good
            then (take_round i (count * sector_size) buf buf_pos r' >>= λ b. ok (some b.0, r'))
            else ok (none, record r { cache = cache })
  read_rounds (suc rounds) i start_sector sectors buf buf_pos r d =
      let from = start_sector + i * cache_sectors in
      do
        (cache, good) ← port.read from cache_sectors (replicate (length r.cache) 0) d
        let r' = record r { cache = cache; cache_start = from }
        if good
            then (take_round i cache_size buf buf_pos r' >>= λ b.
                read_rounds rounds (i + 1) start_sector sectors b.0 b.1 r' d)
            else ok (none, record r { cache = cache })

  -- After the loop.
  unfoldable pub finished : ℕ → Option (List ℕ) × Reader → Option (List ℕ) × Reader
  finished n (none, r) = (none, r)
  finished n (some buf, r) = (some buf, record r { position = r.position + n; cache_valid = true })

  -- `read_exact`: the bytes that fill the buffer, or nothing for an error.
  unfoldable pub read_exact : List ℕ → Reader → D → Run (Option (List ℕ) × Reader)
  read_exact buf r d =
      let n = length buf in
      let sectors = sectors_of n r in
      let read_times = sectors / cache_sectors in
      let start_sector = sector r.position in
      if ltb (r.max_sector * sector_size) (r.position + n)
      then ok (none, r)
      else if r.cache_valid && start_sector == r.cache_start && read_times == 0
      then (slice (offset r.position) n r.cache >>= λ bytes.
          ok (some bytes, record r { position = r.position + n }))
      else (read_rounds read_times 0 start_sector sectors buf 0 r d >>= λ o. ok (finished n o))

  -- `read`: as many bytes as the disk still has. The position is never past its end.
  unfoldable pub read : List ℕ → Reader → D → Run (Option (List ℕ) × Reader)
  read buf r d = read_exact (take (r.max_sector * sector_size - r.position) buf) r d

-- The cache filled with the bytes of one round of writing, and the position in the buffer.
unfoldable pub fill_round : ℕ → ℕ → List ℕ → ℕ → Reader → Run (List ℕ × ℕ)
fill_round zero last_write buf buf_pos r =
    let off = offset r.position in
    let next_copy = min (last_write - off) (length buf - buf_pos) in
    do
      assert (leb off last_write)
      bytes ← slice off next_copy buf
      cache ← copied (length r.cache) bytes
      ok (cache, buf_pos + next_copy)
fill_round (suc i) last_write buf buf_pos r =
    let next_copy = min last_write (length buf - buf_pos) in
    do
      assert (leb buf_pos (length r.cache))
      bytes ← slice 0 next_copy buf
      rest ← copied (length r.cache - buf_pos) bytes
      ok (replicate buf_pos 0 ++ rest, buf_pos + next_copy)

module _ {D : Type 0} (port : Port D) where
  -- The loop of `write_all`, like that of `read_exact`.
  unfoldable pub write_rounds :
      ℕ → ℕ → ℕ → ℕ → ℕ → List ℕ → ℕ → Reader → D → Run (Option D × Reader)
  write_rounds zero i start_sector sectors last_write buf buf_pos r d = do
    (cache, buf_pos) ← fill_round i last_write buf buf_pos r
    o ← port.write (start_sector + i * cache_sectors) (sectors % cache_sectors) cache d
    ok (o, record r { cache = cache })
  write_rounds (suc rounds) i start_sector sectors last_write buf buf_pos r d = do
    (cache, buf_pos) ← fill_round i last_write buf buf_pos r
    let r' = record r { cache = cache }
    o ← port.write (start_sector + i * cache_sectors) cache_sectors cache d
    elim o [
      | none ↦ ok (none, r')
      | some d' ↦ write_rounds rounds (i + 1) start_sector sectors cache_size buf buf_pos r' d'
    ]

  -- After the loop.
  unfoldable pub advanced : ℕ → Option D × Reader → Option D × Reader
  advanced n (none, r) = (none, r)
  advanced n (some d, r) = (some d, record r { position = r.position + n })

  -- `write_all`: nothing for an error.
  unfoldable pub write_all : List ℕ → Reader → D → Run (Option D × Reader)
  write_all buf r d =
      let n = length buf in
      let sectors = sectors_of n r in
      if ltb (r.max_sector * sector_size) (r.position + n)
      then ok (none, r)
      else (write_rounds (sectors / cache_sectors) 0 (sector r.position) sectors 0 buf 0
            (record r { cache_valid = false }) d
          >>= λ o. ok (advanced n o))

  -- `write`: as many bytes as fit on the disk. The position is never past its end.
  unfoldable pub write : List ℕ → Reader → D → Run (Option D × Reader)
  write buf r d = write_all (take (r.max_sector * sector_size - r.position) buf) r d
