-- ===== src/Process/Made.antt =====
-- What `Process::create` of src/syskrnl/proc.rs leaves, if it comes to an end.
use tju_cinea_os.Prelude.{
  ℕ, ◌+◌, ◌%◌, ◌≡◌, ◌∙◌, refl, ap, Bool, true, false, Option, none, some, List, [], ◌∷◌, ◌++◌, Run,
  ok, ◌>>=◌, >>=-eq_ok, unwrap, set_index, arith,
}
use tju_cinea_os.Allocator.{usize_end}
use tju_cinea_os.Allocator
use tju_cinea_os.Fs.Path.{Bytes}
use tju_cinea_os.Scheduler.{Scheduler}
use tju_cinea_os.Memory.{
  alloc_pages, expect_mapping, heaped_allocate_frame, heaped_frame_allocator,
  fix_page_fault_in_userspace,
}
use tju_cinea_os.Process.{Processes, Process, current, max_proc_size, default_heap_size}
use tju_cinea_os.Process.Create.{
  Machine, Elf, header, new_page_table, expect_pages, load_elf, load, new_heap, settle, finish,
  create,
}

-- What only `settle` and the choice of the code's place change.
pub record Core : Type 0 where
  pub pid : ℕ
  pub pool : List ℕ
  pub table : List Process
  pub scheduler : Scheduler
  pub next_code : ℕ

module _ {S : Type 0} where
  abbrev pub core : Processes S → Core
  core p = record {
    pid = p.pid;
    pool = p.pool;
    table = p.table;
    scheduler = p.scheduler;
    next_code = p.next_code_addr;
  }

  abbrev pub ended : {A : Type 0} → A → Processes S → Run (A × Processes S)
  ended a p = ok (a, p)

  pub core_of_ok :
      {A : Type 0} {a b : A} (p q : Processes S) → ended a p ≡ ended b q → core q ≡ core p
  core_of_ok p q h = ground arith

  module _ (m : Machine S) where
    pub expect_pages-core :
        (frame addr size : ℕ) (p q : Processes S)
        → expect_pages m frame addr size p ≡ ok q
        → core q ≡ core p
    unfolding expect_pages
    expect_pages-core frame addr size p q h =
        let (a, _, e) =
          >>=-eq_ok
            (expect_mapping
              (alloc_pages (m.mapper frame) m.memory_map addr size p.tables p.allocated_frames))
            _ h in
        ground arith

    pub new_page_table-core :
        (p q : Processes S) {frame : ℕ} → new_page_table m p ≡ ok (frame, q) → core q ≡ core p
    unfolding new_page_table
    new_page_table-core p q {frame} h =
        let next = heaped_allocate_frame (heaped_frame_allocator m.memory_map) p.allocated_frames in
        let fixed = λ (f : ℕ).
          fix_page_fault_in_userspace (m.mapper f) (m.copy_entries f p.cr3 p.tables) next.1 in
        let done =
          λ (f : ℕ) (t : S × ℕ). ok (f, record p { tables = t.0; allocated_frames = t.1 }) in
        let (f, _, e) = >>=-eq_ok (unwrap next.0) (λ f. fixed f >>= done f) h in
        let (t, _, e') = >>=-eq_ok (fixed f) (done f) e in
        core_of_ok (record p { tables = t.0; allocated_frames = t.1 }) q e'

    load_elf-core :
        (o : Option Elf) (frame code : ℕ) (p q : Processes S) {entry : ℕ}
        → load_elf m o frame code p ≡ ok (entry, q)
        → core q ≡ core p
    unfolding load_elf
    load_elf-core none frame code p q h = core_of_ok p q h
    load_elf-core (some elf) frame code p q h =
        let (r, a, e) = >>=-eq_ok (expect_pages m frame code max_proc_size p) _ h in
        core_of_ok _ q e ∙ expect_pages-core frame code max_proc_size p r a

    pub load-core :
        (bin : Bytes) (a b : Bool) (frame code : ℕ) (p q : Processes S) {entry : Option ℕ}
        → load m bin a b frame code p ≡ ok (entry, q)
        → core q ≡ core p
    unfolding load
    load-core bin true b frame code p q h =
        let (r, a, e) = >>=-eq_ok (load_elf m (m.parse bin) frame code p) _ h in
        core_of_ok r.1 q e ∙ load_elf-core (m.parse bin) frame code p r.1 a
    load-core bin false true frame code p q h = core_of_ok _ q h
    load-core bin false false frame code p q h = core_of_ok p q h

    pub new_heap-core :
        (frame : ℕ) (p q : Processes S) {at : ℕ} → new_heap m frame p ≡ ok (at, q) → core q ≡ core p
    unfolding new_heap
    new_heap-core frame p q h =
        let p' = record p { heap_addr = (p.heap_addr + default_heap_size) % usize_end } in
        let (r, a, e) = >>=-eq_ok (expect_pages m frame p.heap_addr default_heap_size p') _ h in
        let (heap, _, e') =
          >>=-eq_ok (Allocator.init p.heap_addr default_heap_size Allocator.new) _ e in
        core_of_ok (record r { heaps = r.heaps ++ heap ∷ [] }) q e'
        ∙ expect_pages-core frame p.heap_addr default_heap_size p' r a

  -- A process that was made: it has the first id of the pool, and the place for code that was next.
  pub record Made (p : Processes S) (id place : ℕ) (q : Processes S) : Type 0 where
    pub proc : Process
    pub first : p.pool ≡ id ∷ q.pool
    pub stored : set_index p.table id proc ≡ ok q.table
    pub own_id : proc.id ≡ id
    pub own_code : proc.code_addr ≡ place
    pub pid : q.pid ≡ p.pid
    pub scheduler : q.scheduler ≡ p.scheduler
    pub next_code : q.next_code_addr ≡ (place + max_proc_size) % usize_end

  -- The state in which the place for code was taken.
  abbrev pub after_code : Processes S → Processes S
  after_code p = record p { next_code_addr = (p.next_code_addr + max_proc_size) % usize_end }

  settle-Made :
      (m : Machine S) (pool : List ℕ) (process : ℕ → Process) (p r q : Processes S) (id : ℕ)
      → core r ≡ core (after_code p)
      → r.pool ≡ pool
      → ((i : ℕ) → (process i).id ≡ i)
      → ((i : ℕ) → (process i).code_addr ≡ p.next_code_addr)
      → settle m pool process r ≡ ok (some id, q)
      → Made p id p.next_code_addr q
  unfolding settle
  settle-Made m [] process p r q id c l own place h = ground arith
  settle-Made m (i ∷ pool) process p r q id c l own place h =
      let (t, a, e) = >>=-eq_ok (set_index r.table i (process i)) _ h in
      let same : i ≡ id = ground arith in
      record {
        proc = process i;
        first = ground arith;
        stored = ground arith;
        own_id = own i ∙ same;
        own_code = place i;
        pid = ground arith;
        scheduler = ground arith;
        next_code = ground arith;
      }

  finish-Made :
      (m : Machine S) (frame place : ℕ) (entry : Option ℕ) (p r q : Processes S) (id : ℕ)
      → core r ≡ core (after_code p)
      → place ≡ p.next_code_addr
      → finish m frame place entry r ≡ ok (some id, q)
      → Made p id p.next_code_addr q
  unfolding finish
  finish-Made m frame place none p r q id c same h = ground arith
  finish-Made m frame place (some entry) p r q id c same h =
      let (parent, _, e) = >>=-eq_ok (current r) _ h in
      let (t, b, e') = >>=-eq_ok (new_heap m frame r) _ e in
      settle-Made m t.1.pool _ p t.1 q id (new_heap-core m frame r t.1 b ∙ c) refl (λ i. refl)
        (λ i. same) e'

  -- A process that was created has the lowest free id, which leaves the pool, stands in the table
  -- under that id, and has the next place for its code.
  pub create-Made :
      (m : Machine S) (bin : Bytes) (p q : Processes S) (id : ℕ)
      → create m bin p ≡ ok (some id, q)
      → Made p id p.next_code_addr q
  unfolding create
  create-Made m bin p q id h =
      let (f, a, e) = >>=-eq_ok (new_page_table m p) _ h in
      let (magic, _, e') = >>=-eq_ok (header bin) _ e in
      let (l, b, e'') = >>=-eq_ok (load m bin _ _ f.0 f.1.next_code_addr (after_code f.1)) _ e' in
      let c = new_page_table-core m p f.1 a in
      finish-Made m f.0 f.1.next_code_addr l.0 p l.1 q id
        (load-core m bin _ _ f.0 f.1.next_code_addr (after_code f.1) l.1 b
          ∙ ap (λ (k : Core). record k { next_code = (k.next_code + max_proc_size) % usize_end }) c)
        (ap (λ (k : Core). k.next_code) c) e''
