-- ===== src/Examples/Disks.antt =====
-- Four bytes over the border of two sectors, read through the cache of an AHCI disk.
use tju_cinea_os.Prelude.{
  ℕ, ◌*◌, ◌%◌, ◌≡◌, refl, true, false, some, List, [], ◌∷◌, ok, arith, length, replicate,
  length-replicate, leb, panic, if◌then◌else◌,
}
use tju_cinea_os.Fs.Ata.Content.{range, take-range}
use tju_cinea_os.Fs.Ahci.{Port, Reader, read_exact, cache_size}
use tju_cinea_os.Fs.Ahci.Transfers.{Holds, length-range, read_exact-range}

abbrev content : ℕ → ℕ
content a = a % 256

-- A port that fills the whole buffer, if it has room.
abbrev port : Port (Unit {0})
port = record {
  read = λ from count buf d.
      if leb (count * 512) (length buf)
      then ok (range content (from * 512) (length buf), true)
      else panic;
  write = λ from count buf d. ok (some tt);
}

port-Holds : Holds port content 100 tt
port-Holds from count buf pos most within room = record {
  out = range content (from * 512) (length buf);
  done = ground arith;
  bytes = take-range content (from * 512) (length buf) (count * 512) room;
  room = length-range content (from * 512) (length buf);
}

abbrev reader : Reader
reader = record {
  max_sector = 100;
  position = 510;
  cache = replicate cache_size 0;
  cache_valid = false;
  cache_start = 0;
}

abbrev four : List ℕ
four = 0 ∷ 0 ∷ 0 ∷ 0 ∷ []

read_exact-range_example :
    (r' : Reader) × (read_exact port four reader tt ≡ ok (some (254 ∷ 255 ∷ 0 ∷ 1 ∷ []), r'))
    × (r'.position ≡ 514)
    × (r'.cache_valid ≡ true)
    × (length r'.cache ≡ cache_size)
unfolding range
read_exact-range_example =
    read_exact-range port content 100 tt four reader port-Holds refl
      (length-replicate {A = ℕ} cache_size 0) refl (omega arith) (omega arith)
