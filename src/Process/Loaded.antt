-- ===== src/Process/Loaded.antt =====
-- What `Process::create` of src/syskrnl/proc.rs writes into memory.
use tju_cinea_os.Prelude.{
  ℕ, ◌+◌, ◌%◌, ap, subst, sym, length-drop, not, ◌&&◌, if◌then◌else◌, ◌≤◌, ◌<◌, ◌≡◌, ◌∙◌, refl, ◌⊎◌,
  Bool, true, false, Option, none, some, List, [], ◌∷◌, ◌++◌, Run, ok, ◌>>=◌, >>=-eq_ok, unwrap,
  set_index, length, drop, take, arith,
}
use tju_cinea_os.Prelude.Map.{bytes_beq}
use tju_cinea_os.Allocator
use tju_cinea_os.Allocator.{usize_end}
use tju_cinea_os.Fs.Path.{Bytes}
use tju_cinea_os.Memory.{
  alloc_pages, expect_mapping, heaped_allocate_frame, heaped_frame_allocator,
  fix_page_fault_in_userspace,
}
use tju_cinea_os.Process.{Processes, Process, current, max_proc_size, default_heap_size}
use tju_cinea_os.Process.Create.{
  Machine, Elf, header, new_page_table, expect_pages, load_elf, load, new_heap, settle, finish,
  create, write_bytes, write_segments, elf_magic, bin_magic,
}
use tju_cinea_os.Process.Exec.{read_bytes}
use tju_cinea_os.Process.Made.{after_code}
use tju_cinea_os.Process.Words.{write_bytes_frame, read_bytes-write_bytes}

-- Each segment's bytes lie in the first 10 MB.
unfoldable pub SegmentsInside : List (ℕ × Option Bytes) → Type 0
SegmentsInside [] = Unit {0}
SegmentsInside ((addr, none) ∷ segments) = SegmentsInside segments
SegmentsInside ((addr, some bytes) ∷ segments) =
    (addr + length bytes ≤ max_proc_size) × SegmentsInside segments

-- A program whose bytes all lie in the memory reserved for it.
pub record IsContained {S : Type 0} (m : Machine S) (bin : Bytes) : Type 0 where
  pub small : length bin ≤ max_proc_size
  pub segments : (elf : Elf) → m.parse bin ≡ some elf → SegmentsInside elf.segments

-- The bytes that a flat program has in memory.
unfoldable pub flat : Bytes → Bool → Bool → Bytes
flat bin is_elf is_bin = if not is_elf && is_bin then drop 4 bin else []

-- The bytes of a program in the flat format; none for another one.
unfoldable pub text : Bytes → Bytes
text bin = flat bin (bytes_beq (take 4 bin) elf_magic) (bytes_beq (take 4 bin) bin_magic)

-- The address lies outside the memory reserved at `code`.
abbrev pub Away : ℕ → ℕ → Type 0
Away code a = (a < code) ⊎ (code + max_proc_size ≤ a)

write_segments_frame :
    (memory : ℕ → ℕ) (code a : ℕ) (segments : List (ℕ × Option Bytes))
    → SegmentsInside segments
    → Away code a
    → write_segments memory code segments a ≡ memory a
unfolding write_segments SegmentsInside
write_segments_frame memory code a [] s away = refl
write_segments_frame memory code a ((addr, none) ∷ segments) s away =
    write_segments_frame memory code a segments s away
write_segments_frame memory code a ((addr, some bytes) ∷ segments) (l, s) away =
    write_segments_frame (write_bytes memory (code + addr) bytes) code a segments s away
    ∙ write_bytes_frame memory (code + addr) bytes a (ground (arith, away))

module _ {S : Type 0} where
  abbrev ended : {A : Type 0} → A → Processes S → Run (A × Processes S)
  ended a p = ok (a, p)

  memory_of_ok :
      {A : Type 0} {a b : A} (p q : Processes S) → ended a p ≡ ended b q → q.memory ≡ p.memory
  memory_of_ok p q h = ground arith

  code_of_ok :
      {A : Type 0} {a b : A} (p q : Processes S)
      → ended a p ≡ ended b q
      → q.next_code_addr ≡ p.next_code_addr
  code_of_ok p q h = ground arith

  module _ (m : Machine S) where
    expect_pages-memory :
        (frame addr size : ℕ) (p q : Processes S)
        → expect_pages m frame addr size p ≡ ok q
        → q.memory ≡ p.memory
    unfolding expect_pages
    expect_pages-memory frame addr size p q h =
        let (a, _, e) =
          >>=-eq_ok
            (expect_mapping
              (alloc_pages (m.mapper frame) m.memory_map addr size p.tables p.allocated_frames))
            _ h in
        ground arith

    new_page_table-memory :
        (p q : Processes S) {frame : ℕ}
        → new_page_table m p ≡ ok (frame, q)
        → (q.memory ≡ p.memory) × (q.next_code_addr ≡ p.next_code_addr)
    unfolding new_page_table
    new_page_table-memory p q {frame} h =
        let next = heaped_allocate_frame (heaped_frame_allocator m.memory_map) p.allocated_frames in
        let fixed = λ (f : ℕ).
          fix_page_fault_in_userspace (m.mapper f) (m.copy_entries f p.cr3 p.tables) next.1 in
        let done =
          λ (f : ℕ) (t : S × ℕ). ok (f, record p { tables = t.0; allocated_frames = t.1 }) in
        let (f, _, e) = >>=-eq_ok (unwrap next.0) (λ f. fixed f >>= done f) h in
        let (t, _, e') = >>=-eq_ok (fixed f) (done f) e in
        (
          memory_of_ok (record p { tables = t.0; allocated_frames = t.1 }) q e',
          code_of_ok (record p { tables = t.0; allocated_frames = t.1 }) q e',
        )

    new_heap-memory :
        (frame : ℕ) (p q : Processes S) {at : ℕ}
        → new_heap m frame p ≡ ok (at, q)
        → q.memory ≡ p.memory
    unfolding new_heap
    new_heap-memory frame p q h =
        let p' = record p { heap_addr = (p.heap_addr + default_heap_size) % usize_end } in
        let (r, a, e) = >>=-eq_ok (expect_pages m frame p.heap_addr default_heap_size p') _ h in
        let (heap, _, e') =
          >>=-eq_ok (Allocator.init p.heap_addr default_heap_size Allocator.new) _ e in
        memory_of_ok (record r { heaps = r.heaps ++ heap ∷ [] }) q e'
        ∙ expect_pages-memory frame p.heap_addr default_heap_size p' r a

    settle-memory :
        (pool : List ℕ) (process : ℕ → Process) (p q : Processes S) (o : Option ℕ)
        → settle m pool process p ≡ ok (o, q)
        → q.memory ≡ p.memory
    unfolding settle
    settle-memory [] process p q o h = memory_of_ok p q h
    settle-memory (i ∷ pool) process p q o h =
        let (t, _, e) = >>=-eq_ok (set_index p.table i (process i)) _ h in
        memory_of_ok (record p { pool = pool; table = t }) q e

    finish-memory :
        (frame place : ℕ) (entry o : Option ℕ) (p q : Processes S)
        → finish m frame place entry p ≡ ok (o, q)
        → q.memory ≡ p.memory
    unfolding finish
    finish-memory frame place none o p q h = memory_of_ok p q h
    finish-memory frame place (some entry) o p q h =
        let (parent, _, e) = >>=-eq_ok (current p) _ h in
        let (t, b, e') = >>=-eq_ok (new_heap m frame p) _ e in
        settle-memory t.1.pool _ t.1 q o e' ∙ new_heap-memory frame p t.1 b

    load_elf_frame :
        (o : Option Elf) (frame code a : ℕ) (p q : Processes S) {entry : ℕ}
        → ((elf : Elf) → o ≡ some elf → SegmentsInside elf.segments)
        → Away code a
        → load_elf m o frame code p ≡ ok (entry, q)
        → q.memory a ≡ p.memory a
    unfolding load_elf
    load_elf_frame none frame code a p q s away h = ap (λ f. f a) (memory_of_ok p q h)
    load_elf_frame (some elf) frame code a p q s away h =
        let (r, done, e) = >>=-eq_ok (expect_pages m frame code max_proc_size p) _ h in
        ap (λ f. f a)
          (memory_of_ok (record r { memory = write_segments r.memory code elf.segments }) q e)
        ∙ write_segments_frame r.memory code a elf.segments (s elf refl) away
        ∙ ap (λ f. f a) (expect_pages-memory frame code max_proc_size p r done)

    load_frame :
        (bin : Bytes) (is_elf is_bin : Bool) (frame code a : ℕ) (p q : Processes S)
        {entry : Option ℕ}
        → IsContained m bin
        → Away code a
        → load m bin is_elf is_bin frame code p ≡ ok (entry, q)
        → q.memory a ≡ p.memory a
    unfolding load
    load_frame bin true is_bin frame code a p q c away h =
        let (r, done, e) = >>=-eq_ok (load_elf m (m.parse bin) frame code p) _ h in
        ap (λ f. f a) (memory_of_ok r.1 q e)
        ∙ load_elf_frame (m.parse bin) frame code a p r.1 c.segments away done
    load_frame bin false true frame code a p q c away h =
        let l : length (drop 4 bin) ≤ length bin = ground (arith, length-drop 4 bin) in
        ap (λ f. f a)
          (memory_of_ok (record p { memory = write_bytes p.memory code (drop 4 bin) }) q h)
        ∙ write_bytes_frame p.memory code (drop 4 bin) a (ground (arith, away, c.small))
    load_frame bin false false frame code a p q c away h = ap (λ f. f a) (memory_of_ok p q h)

    header-take : (bin magic : Bytes) → header bin ≡ ok magic → magic ≡ take 4 bin
    header-take bin magic h = ground arith

    load_text :
        (bin magic : Bytes) (frame code : ℕ) (p q : Processes S) {entry : Option ℕ}
        → load m bin (bytes_beq magic elf_magic) (bytes_beq magic bin_magic) frame code p
          ≡ ok (entry, q)
        → read_bytes
            (length (flat bin (bytes_beq magic elf_magic) (bytes_beq magic bin_magic)))
            q.memory
            code
          ≡ flat bin (bytes_beq magic elf_magic) (bytes_beq magic bin_magic)
    unfolding load flat read_bytes
    load_text bin magic frame code p q h =
        of_flags (bytes_beq magic elf_magic) (bytes_beq magic bin_magic) h
      where
        of_flags :
            (is_elf is_bin : Bool) {entry : Option ℕ}
            → load m bin is_elf is_bin frame code p ≡ ok (entry, q)
            → read_bytes (length (flat bin is_elf is_bin)) q.memory code ≡ flat bin is_elf is_bin
        of_flags true is_bin h = refl
        of_flags false true h =
            let e =
              memory_of_ok (record p { memory = write_bytes p.memory code (drop 4 bin) }) q h in
            rw e (read_bytes-write_bytes p.memory code (drop 4 bin))
        of_flags false false h = refl

    -- What `create` does to memory: nothing outside the reserved place, if the program is contained;
    -- and the bytes of a flat program lie from the start of the place on.
    pub create_memory :
        (bin : Bytes) (p q : Processes S) (o : Option ℕ) (a : ℕ)
        → IsContained m bin
        → Away p.next_code_addr a
        → create m bin p ≡ ok (o, q)
        → (q.memory a ≡ p.memory a)
          × (read_bytes (length (text bin)) q.memory p.next_code_addr ≡ text bin)
    unfolding create text
    create_memory bin p q o a c away h =
        let (f, da, e) = >>=-eq_ok (new_page_table m p) _ h in
        let (magic, dm, e') = >>=-eq_ok (header bin) _ e in
        let (l, dl, e'') =
          >>=-eq_ok (load m bin _ _ f.0 f.1.next_code_addr (after_code f.1)) _ e' in
        let (same, code) = new_page_table-memory p f.1 da in
        let rest = finish-memory f.0 f.1.next_code_addr l.0 o l.1 q e'' in
        let away' : Away f.1.next_code_addr a = subst (λ n. Away n a) (sym code) away in
        let flat_part = load_text bin magic f.0 f.1.next_code_addr (after_code f.1) l.1 dl in
        let first = header-take bin magic dm in
        (
          ap (λ g. g a) rest
              ∙ load_frame bin _ _ f.0 f.1.next_code_addr a (after_code f.1) l.1 c away' dl
              ∙ ap (λ g. g a) same,
          subst
              (λ z.
                read_bytes (length (flat bin (bytes_beq z elf_magic) (bytes_beq z bin_magic)))
                  q.memory p.next_code_addr
                ≡ flat bin (bytes_beq z elf_magic) (bytes_beq z bin_magic))
              first
              (subst
                (λ n.
                  read_bytes
                    (length (flat bin (bytes_beq magic elf_magic) (bytes_beq magic bin_magic)))
                    q.memory n
                  ≡ flat bin (bytes_beq magic elf_magic) (bytes_beq magic bin_magic))
                code
                (subst
                  (λ g.
                    read_bytes
                      (length (flat bin (bytes_beq magic elf_magic) (bytes_beq magic bin_magic))) g
                      f.1.next_code_addr
                    ≡ flat bin (bytes_beq magic elf_magic) (bytes_beq magic bin_magic))
                  (sym rest) flat_part)),
        )
