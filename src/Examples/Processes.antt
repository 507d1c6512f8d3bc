-- ===== src/Examples/Processes.antt =====
-- A program of eight bytes, started by the kernel on a machine with one region of memory, and its
-- arguments.
use tju_cinea_os.Prelude.{
  checked, ℕ, zero, suc, ◌+◌, ◌-◌, ◌/◌, ◌%◌, ◌≤◌, ◌<◌, ◌≡◌, refl, ap, ◌∙◌, Bool, true, false,
  Option, none, some, List, [], ◌∷◌, ◌++◌, Run, ok, panic, out_of_fuel, arith, get_elem?, replicate,
  drop, not, inl,
}
use tju_cinea_os.Prelude.Map
use tju_cinea_os.Prelude.Map.{nat_key}
use tju_cinea_os.Allocator
use tju_cinea_os.Scheduler
use tju_cinea_os.Memory.{
  mapped, steps, step_count, to_frames, region_frames, usable_frames, heaped_allocate_frame,
  heaped_frame_allocator, user_flags, map_page, map_pages, page_count, alloc_pages,
  fix_page_fault_in_userspace, remap_pages, remap_page,
}
use tju_cinea_os.Process.{
  Processes, Process, new_process, stdout_only, proc_heap_start, max_proc_size, current,
  default_heap_size,
}
use tju_cinea_os.Process.Create.{
  Machine, create, new_page_table, expect_pages, new_heap, load, finish, settle, write_bytes,
}
use tju_cinea_os.Process.Exec.{Launch, exec, check_args, place_args, read_pairs, read_bytes}
use tju_cinea_os.Process.Spawn.{spawn, launch}
use tju_cinea_os.Process.Pool.{IsPooled, spawn-IsPooled}
use tju_cinea_os.Process.Loaded.{text}
use tju_cinea_os.Process.Arguments.{texts, place_args-texts}
use tju_cinea_os.Scheduler.State.{rotation, new-IsRing}
use tju_cinea_os.Scheduler.Table.{node_at}
use tju_cinea_os.Scheduler.Ring.{mem}

-- A machine whose mapper always succeeds, with 8192 frames.
abbrev pub machine : Machine (Unit {0})
machine = record {
  mapper = λ frame. record {
    map_to = λ s page f flags c. mapped tt c;
    unmap = λ s page. some (page, tt);
    entry = λ s page. none;
  };
  copy_entries = λ to from s. s;
  parse = λ bin. none;
  is_utf8 = λ text. true;
  memory_map = record { start_addr = 0; end_addr = 33554432; usable = true } ∷ [];
  boot_table = 0;
}

abbrev pub free_ids : List ℕ
free_ids = 1 ∷ 2 ∷ 3 ∷ 4 ∷ 5 ∷ 6 ∷ 7 ∷ 8 ∷ 9 ∷ 10 ∷ 11 ∷ 12 ∷ 13 ∷ 14 ∷ 15 ∷ []

abbrev pub first_process : Process
first_process = new_process 0 0 0

-- The kernel before it starts a program.
abbrev booted : Processes (Unit {0})
booted = record {
  pid = 0;
  pool = free_ids;
  table = replicate 16 first_process;
  heap_addr = proc_heap_start;
  next_code_addr = 4336910336;
  scheduler = Scheduler.new;
  schedule = false;
  heaps = Allocator.new ∷ [];
  handles = stdout_only ∷ [];
  memory = λ a. 0;
  tables = tt;
  allocated_frames = 0;
  cr3 = 0;
}

abbrev program : List ℕ
program = 0x7F ∷ b'B' ∷ b'I' ∷ b'N' ∷ 0xEB ∷ 0xFE ∷ 0x90 ∷ 0x90 ∷ []

in_pool : (q : ℕ) → 1 ≤ q → q < 16 → mem q free_ids ≡ not (mem q (0 ∷ []))
in_pool q a b = ground arith

booted-IsPooled : IsPooled booted [] []
unfolding rotation Scheduler.new node_at new_process
booted-IsPooled = record {
  ring = new-IsRing;
  order = omega arith;
  free_below = λ q h. ground arith;
  live_below = λ q h. ground arith;
  split = in_pool;
  own = λ q proc h e. ground arith;
}

-- The machine has frames enough for a heap.
steps-some :
    (count addr i : ℕ) → i < count → (f : ℕ) × (get_elem? (to_frames (steps count addr)) i ≡ some f)
unfolding steps to_frames
steps-some zero addr i h = absurd (omega arith)
steps-some (suc count) addr zero h = (addr / 4096, refl)
steps-some (suc count) addr (suc i) h = steps-some count (addr + 4096) i (omega arith)

append_some :
    (xs ys : List ℕ) (i : ℕ) {f : ℕ} → get_elem? xs i ≡ some f → get_elem? (xs ++ ys) i ≡ some f
append_some [] ys i h = ground arith
append_some (x ∷ xs) ys zero h = h
append_some (x ∷ xs) ys (suc i) h = append_some xs ys i h

frame_of : (i : ℕ) → i < 8192 → (f : ℕ) × (get_elem? (usable_frames machine.memory_map) i ≡ some f)
unfolding usable_frames region_frames step_count
frame_of i h =
    let (f, e) = steps-some 8192 0 i h in (f, append_some (to_frames (steps 8192 0)) [] i e)

pages_of :
    (count page c : ℕ)
    → c + count ≤ 8192
    → map_pages
        (machine.mapper 0)
        (heaped_allocate_frame (heaped_frame_allocator machine.memory_map))
        user_flags
        count
        page
        tt
        c
      ≡ mapped tt (c + count)
unfolding map_pages map_page heaped_allocate_frame heaped_frame_allocator
pages_of zero page c h = ground arith
pages_of (suc count) page c h =
    let (f, e) = frame_of c (omega arith) in
    rw e (pages_of count (page + 1) (c + 1) (omega arith) ∙ ap (mapped tt) (omega arith))

heap_pages :
    (p : Processes (Unit {0}))
    → p.allocated_frames ≡ 1
    → expect_pages machine 0 proc_heap_start default_heap_size p
      ≡ ok (record p { allocated_frames = 4097 })
unfolding expect_pages alloc_pages page_count
heap_pages p h = rw (h, pages_of 4096 2097152 1 (omega arith))

-- The state before the new process's heap is made.
abbrev loaded : Processes (Unit {0})
loaded = record booted {
  next_code_addr = 4347396096;
  memory = write_bytes booted.memory 4336910336 (drop 4 program);
  allocated_frames = 1;
}

abbrev its_heap : Allocator.Heap
its_heap = record {
  free = record { start_addr = proc_heap_start; size = default_heap_size } ∷ [];
  size = default_heap_size;
  allocated = 0;
}

abbrev heaped : Processes (Unit {0})
heaped = record loaded {
  heap_addr = proc_heap_start + default_heap_size;
  heaps = Allocator.new ∷ its_heap ∷ [];
  allocated_frames = 4097;
}

heap_made : new_heap machine 0 loaded ≡ ok (1, heaped)
unfolding new_heap Allocator.init Allocator.add_free_region Allocator.absorb Allocator.insert_region
    Allocator.align_up Allocator.round_up checked
heap_made = rw (heap_pages (record loaded { heap_addr = proc_heap_start + default_heap_size }) refl)

abbrev pub its_process : Process
its_process = record first_process {
  id = 1;
  code_addr = 4336910336;
  stack_addr = 4336910336 + max_proc_size - 4096;
  allocator = 1;
}

abbrev pub created : Processes (Unit {0})
created = record heaped {
  pool = drop 1 free_ids;
  table = first_process ∷ its_process ∷ replicate 14 first_process;
}

page_table_made : new_page_table machine booted ≡ ok (0, record booted { allocated_frames = 1 })
unfolding new_page_table heaped_allocate_frame heaped_frame_allocator usable_frames region_frames
    step_count steps to_frames fix_page_fault_in_userspace remap_pages remap_page
page_table_made = refl

program-created : create machine program booted ≡ ok (some 1, created)
unfolding create load finish settle current new_process
program-created = rw page_table_made (rw heap_made)

is_launched : Run (Option Launch × Processes (Unit {0})) → Bool
is_launched (ok (some l, q)) = true
is_launched (ok (none, q)) = false
is_launched panic = false
is_launched out_of_fuel = false

launched_of :
    (r : Run (Option Launch × Processes (Unit {0})))
    → is_launched r ≡ true
    → (l : Launch) × (q : Processes (Unit {0})) × (r ≡ ok (some l, q))
unfolding is_launched
launched_of (ok (some l, q)) h = (l, q, refl)
launched_of (ok (none, q)) h = cc
launched_of panic h = cc
launched_of out_of_fuel h = cc

program_launched : is_launched (launch machine 0 0 (some 1, created)) ≡ true
unfolding is_launched launch exec current read_pairs place_args Allocator.alloc check_args
    Allocator.size_align Allocator.align_up Allocator.round_up Allocator.carve Allocator.find_region
    Allocator.choose Allocator.alloc_from_region Allocator.block_in Allocator.end_addr
    Allocator.booked checked Allocator.absorb Allocator.insert_region Allocator.add_free_region
    Scheduler.add_process Scheduler.add Scheduler.alloc Scheduler.new Scheduler.link Map.lookup
    Map.insert Scheduler.now
program_launched = refl

program_spawned :
    (l : Launch) × (q : Processes (Unit {0})) × (spawn machine program 0 0 booted ≡ ok (some l, q))
unfolding spawn
program_spawned =
    rw program-created (launched_of (launch machine 0 0 (some 1, created)) program_launched)

spawn-IsPooled_example :
    (xs : List ℕ) × (fs : List ℕ) × IsPooled program_spawned.1 xs fs
    × (free_ids ≡ program_spawned.1.pid ∷ program_spawned.1.pool)
    × (rotation program_spawned.1.scheduler xs
        ≡ rotation Scheduler.new [] ++ program_spawned.1.pid ∷ [])
spawn-IsPooled_example =
    spawn-IsPooled machine program 0 0 booted program_spawned.1 [] [] program_spawned.0
      booted-IsPooled program_spawned.2

-- Two texts of two and three bytes at 100 and 200.
abbrev some_memory : ℕ → ℕ
some_memory a = a

abbrev two_args : List (ℕ × ℕ)
two_args = (100, 2) ∷ (200, 3) ∷ []

place_args-texts_example :
    (texts (place_args some_memory 1000 two_args).0 (
        read_pairs 2
          (place_args some_memory 1000 two_args).0
          (place_args some_memory 1000 two_args).1)
      ≡ (100 ∷ 101 ∷ []) ∷ (200 ∷ 201 ∷ 202 ∷ []) ∷ [])
    × ((place_args some_memory 1000 two_args).1 % 8 ≡ 0)
    × ((place_args some_memory 1000 two_args).0 5 ≡ 5)
unfolding read_bytes
place_args-texts_example =
    place_args-texts some_memory 1000 2024 5 two_args (omega arith) (omega arith)
      (inl (omega arith), (inl (omega arith), tt)) (inl (omega arith))
