-- ===== src/Process/Create.antt =====
-- `Process::create` of src/syskrnl/proc.rs: a new address space, the program's bytes, a heap, and a
-- free process id.
use tju_cinea_os.Prelude.{
  ℕ, ◌+◌, ◌-◌, ◌%◌, Bool, true, false, Option, none, some, List, [], ◌∷◌, ◌++◌, Run, ok, panic,
  ◌>>=◌, unwrap, set_index, length, take, drop, leb, ◌==◌, if◌then◌else◌,
}
use tju_cinea_os.Prelude.Map.{bytes_beq}
use tju_cinea_os.Allocator
use tju_cinea_os.Allocator.{Heap, usize_end}
use tju_cinea_os.Fs.Path.{Bytes}
use tju_cinea_os.Memory.{
  MemoryRegion, Mapper, expect_mapping, alloc_pages, heaped_allocate_frame, heaped_frame_allocator,
  fix_page_fault_in_userspace,
}
use tju_cinea_os.Process.{Processes, Process, current, max_proc_size, default_heap_size}

-- What the code reads of a parsed ELF file: where it starts, and the segments whose bytes are there.
pub record Elf : Type 0 where
  pub entry : ℕ
  pub segments : List (ℕ × Option Bytes)

-- The libraries and the processor: the page tables by the frame of their root, copying the entries
-- of one root to another, and reading an ELF file.
pub record Machine (S : Type 0) : Type 0 where
  pub mapper : ℕ → Mapper S
  pub copy_entries : ℕ → ℕ → S → S
  pub parse : Bytes → Option Elf
  pub is_utf8 : Bytes → Bool
  pub memory_map : List MemoryRegion
  pub boot_table : ℕ

abbrev pub elf_magic : Bytes
elf_magic = 0x7F ∷ b'E' ∷ b'L' ∷ b'F' ∷ []

abbrev pub bin_magic : Bytes
bin_magic = 0x7F ∷ b'B' ∷ b'I' ∷ b'N' ∷ []

-- Bytes written one after the other from `addr` on.
unfoldable pub write_bytes : (ℕ → ℕ) → ℕ → Bytes → ℕ → ℕ
write_bytes memory addr [] = memory
write_bytes memory addr (b ∷ bs) =
    write_bytes (λ a. if a == addr then b else memory a) (addr + 1) bs

unfoldable pub write_segments : (ℕ → ℕ) → ℕ → List (ℕ × Option Bytes) → ℕ → ℕ
write_segments memory code [] = memory
write_segments memory code ((addr, none) ∷ segments) = write_segments memory code segments
write_segments memory code ((addr, some bytes) ∷ segments) =
    write_segments (write_bytes memory (code + addr) bytes) code segments

-- `bin[0..4]`.
abbrev pub header : Bytes → Run Bytes
header bin = if leb 4 (length bin) then ok (take 4 bin) else panic

module _ {S : Type 0} (m : Machine S) where
  -- A new root page table with the entries of the running one.
  unfoldable pub new_page_table : Processes S → Run (ℕ × Processes S)
  new_page_table p =
      let (o, c) = heaped_allocate_frame (heaped_frame_allocator m.memory_map) p.allocated_frames in
      do
        frame ← unwrap o
        (tables, c) ←
            fix_page_fault_in_userspace (m.mapper frame) (m.copy_entries frame p.cr3 p.tables) c
        ok (frame, record p { tables = tables; allocated_frames = c })

  -- Pages of the process's own, or a panic.
  unfoldable pub expect_pages : ℕ → ℕ → ℕ → Processes S → Run (Processes S)
  expect_pages frame addr size p = do
    (tables, c) ←
        expect_mapping
          (alloc_pages (m.mapper frame) m.memory_map addr size p.tables p.allocated_frames)
    ok (record p { tables = tables; allocated_frames = c })

  -- A file that does not parse leaves the entry point 0 and no code.
  unfoldable pub load_elf : Option Elf → ℕ → ℕ → Processes S → Run (ℕ × Processes S)
  load_elf none frame code p = ok (0, p)
  load_elf (some elf) frame code p = do
    p ← expect_pages frame code max_proc_size p
    ok (elf.entry, record p { memory = write_segments p.memory code elf.segments })

  -- The entry point, or nothing for a header that is not known.
  unfoldable pub load : Bytes → Bool → Bool → ℕ → ℕ → Processes S → Run (Option ℕ × Processes S)
  load bin true is_bin frame code p = do
    (entry, p) ← load_elf (m.parse bin) frame code p
    ok (some entry, p)
  load bin false true frame code p =
      ok (some 0, record p { memory = write_bytes p.memory code (drop 4 bin) })
  load bin false false frame code p = ok (none, p)

  -- The heap of the new process, and where it lies in the store.
  unfoldable pub new_heap : ℕ → Processes S → Run (ℕ × Processes S)
  new_heap frame p =
      let heap_addr = p.heap_addr in
      do
        p ←
            expect_pages frame heap_addr default_heap_size
              (record p { heap_addr = (heap_addr + default_heap_size) % usize_end })
        heap ← Allocator.init heap_addr default_heap_size Allocator.new
        ok (length p.heaps, record p { heaps = p.heaps ++ heap ∷ [] })

  -- `PID_POOL.pop_first()`: the new process takes the place of its id in the table.
  unfoldable pub settle : List ℕ → (ℕ → Process) → Processes S → Run (Option ℕ × Processes S)
  settle [] process p = ok (none, p)
  settle (id ∷ pool) process p = do
    table ← set_index p.table id (process id)
    ok (some id, record p { pool = pool; table = table })

  -- After the program was written: the parent's data, a heap and an id.
  unfoldable pub finish : ℕ → ℕ → Option ℕ → Processes S → Run (Option ℕ × Processes S)
  finish frame code none p = ok (none, p)
  finish frame code (some entry_point) p = do
    parent ← current p
    (at, p) ← new_heap frame p
    settle p.pool
        (λ id. record {
          id = id;
          code_addr = code;
          stack_addr = code + max_proc_size - 4096;
          entry_point = entry_point;
          page_table_frame = frame;
          stack_frame = parent.stack_frame;
          registers = parent.registers;
          process_data = parent.process_data;
          parent = parent.id;
          allocator = at;
        })
        p

  -- `Process::create`: the new process's id, or nothing for an error.
  unfoldable pub create : Bytes → Processes S → Run (Option ℕ × Processes S)
  create bin p = do
    (frame, p) ← new_page_table p
    let code = p.next_code_addr
    let p = record p { next_code_addr = (code + max_proc_size) % usize_end }
    magic ← header bin
    (entry, p) ← load bin (bytes_beq magic elf_magic) (bytes_beq magic bin_magic) frame code p
    finish frame code entry p
