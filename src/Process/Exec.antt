-- ===== src/Process/Exec.antt =====
-- `Process::exec` of src/syskrnl/proc.rs: the arguments are copied to the program's heap, and the
-- program starts.
use tju_cinea_os.Prelude.{
  ℕ, zero, suc, ◌+◌, ◌-◌, ◌*◌, ◌/◌, ◌%◌, Bool, true, Option, none, some, List, [], ◌∷◌, Run, ok,
  ◌>>=◌, ◌>>◌, assert, index,
}
use tju_cinea_os.Allocator
use tju_cinea_os.Fs.Path.{Bytes}
use tju_cinea_os.Scheduler
use tju_cinea_os.Process.{Processes, Process, current, with_heap}
use tju_cinea_os.Process.Create.{Machine, write_bytes}

-- A word of 64 bits in memory, its low byte first.
unfoldable pub read_word : ℕ → (ℕ → ℕ) → ℕ → ℕ
read_word zero memory addr = 0
read_word (suc n) memory addr = memory addr + 256 * read_word n memory (addr + 1)

unfoldable pub word_bytes : ℕ → ℕ → Bytes
word_bytes zero w = []
word_bytes (suc n) w = w % 256 ∷ word_bytes n (w / 256)

unfoldable pub read_bytes : ℕ → (ℕ → ℕ) → ℕ → Bytes
read_bytes zero memory addr = []
read_bytes (suc n) memory addr = memory addr ∷ read_bytes n memory (addr + 1)

-- `Vec<(usize, usize)>` at `addr`: the second word of a pair follows the first.
unfoldable pub read_pairs : ℕ → (ℕ → ℕ) → ℕ → List (ℕ × ℕ)
read_pairs zero memory addr = []
read_pairs (suc n) memory addr =
    (read_word 8 memory addr, read_word 8 memory (addr + 8)) ∷ read_pairs n memory (addr + 16)

-- `from_utf8(slice).expect(...)` of each argument.
unfoldable pub check_args : (Bytes → Bool) → (ℕ → ℕ) → List (ℕ × ℕ) → Run (Unit {0})
check_args is_utf8 memory [] = ok tt
check_args is_utf8 memory ((ptr, len) ∷ args) =
    assert (is_utf8 (read_bytes len memory ptr)) >> check_args is_utf8 memory args

-- The arguments' bytes one after the other from `addr` on: the memory, the copies, and the address
-- after them.
unfoldable pub copy_args : (ℕ → ℕ) → ℕ → List (ℕ × ℕ) → (ℕ → ℕ) × List (ℕ × ℕ) × ℕ
copy_args memory addr [] = (memory, [], addr)
copy_args memory addr ((ptr, len) ∷ args) =
    let (memory', copies, end) =
      copy_args (write_bytes memory addr (read_bytes len memory ptr)) (addr + len) args in
    (memory', (addr, len) ∷ copies, end)

-- `addr += align - (addr % align)`, with the alignment 8 of a slice.
unfoldable pub next_aligned : ℕ → ℕ
next_aligned addr = addr + (8 - addr % 8)

-- The array of slices.
unfoldable pub write_slices : (ℕ → ℕ) → ℕ → List (ℕ × ℕ) → ℕ → ℕ
write_slices memory addr [] = memory
write_slices memory addr ((ptr, len) ∷ slices) =
    write_slices
      (write_bytes (write_bytes memory addr (word_bytes 8 ptr)) (addr + 8) (word_bytes 8 len))
      (addr + 16) slices

-- The arguments at `addr`: the memory, and where the array of slices is.
unfoldable pub place_args : (ℕ → ℕ) → ℕ → List (ℕ × ℕ) → (ℕ → ℕ) × ℕ
place_args memory addr args =
    let (memory, slices, end) = copy_args memory addr args in
    (write_slices memory (next_aligned end) slices, next_aligned end)

-- The address that a pointer stands for, 0 for a null pointer.
abbrev pub address : Option ℕ → ℕ
address none = 0
address (some ptr) = ptr

-- The registers with which the processor enters the program.
pub record Launch : Type 0 where
  pub stack_pointer : ℕ
  pub instruction_pointer : ℕ
  pub rdi : ℕ
  pub rsi : ℕ

module _ {S : Type 0} (m : Machine S) where
  -- `Process::exec`, up to the jump.
  unfoldable pub exec : Process → ℕ → ℕ → Processes S → Run (Launch × Processes S)
  exec self args_ptr args_len p = do
    _ ← current p
    let args = read_pairs args_len p.memory args_ptr
    _ ← check_args m.is_utf8 p.memory args
    heap ← index p.heaps self.allocator
    (heap, ptr) ← Allocator.alloc (record { size = 1024; align = 1 }) heap
    p ← with_heap p self.allocator heap
    let (memory, rdi) = place_args p.memory (address ptr) args
    (_, scheduler) ← Scheduler.add_process p.scheduler self.id
    ok (
      record {
        stack_pointer = self.stack_addr;
        instruction_pointer = self.code_addr + self.entry_point;
        rdi = rdi;
        rsi = args_len;
      },
      record p {
        memory = memory;
        scheduler = scheduler;
        schedule = true;
        pid = self.id;
        cr3 = self.page_table_frame;
      },
    )
