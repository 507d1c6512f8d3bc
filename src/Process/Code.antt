-- ===== src/Process/Code.antt =====
-- The places for the code of the processes of src/syskrnl/proc.rs.
use tju_cinea_os.Prelude.{
  ℕ, ◌+◌, ◌%◌, ◌≤◌, ◌≡◌, ◌≢◌, ap, ◌∙◌, ◌⊎◌, Option, none, some, List, [], ◌∷◌, arith, ok, >>=-eq_ok,
  get_elem?, set_index,
}
use tju_cinea_os.Allocator.{usize_end}
use tju_cinea_os.Fs.Path.{Bytes}
use tju_cinea_os.Process.{Processes, Process, max_proc_size, current}
use tju_cinea_os.Process.Create.{
  Machine, create, finish, settle, new_heap, new_page_table, load, header,
}
use tju_cinea_os.Process.Made.{
  Core, core, core_of_ok, after_code, Made, new_page_table-core, load-core, new_heap-core,
}

-- Two pieces of memory of the size of a process that do not meet; 0 stands for no code.
abbrev pub Apart : ℕ → ℕ → Type 0
Apart a b = (a ≡ 0) ⊎ ((b ≡ 0) ⊎ ((a + max_proc_size ≤ b) ⊎ (b + max_proc_size ≤ a)))

-- The place reserved for the code of each process lies below the one that is next, and no two
-- processes' places meet.
pub record IsPlaced {S : Type 0} (p : Processes S) : Type 0 where
  pub below :
      (i : ℕ) (a : Process)
      → get_elem? p.table i ≡ some a
      → (a.code_addr ≡ 0) ⊎ (a.code_addr + max_proc_size ≤ p.next_code_addr)
  pub apart :
      (i j : ℕ) (a b : Process)
      → i ≢ j
      → get_elem? p.table i ≡ some a
      → get_elem? p.table j ≡ some b
      → Apart a.code_addr b.code_addr

module _ {S : Type 0} (m : Machine S) where
  settle-none :
      (pool : List ℕ) (process : ℕ → Process) (p q : Processes S)
      → settle m pool process p ≡ ok (none, q)
      → core q ≡ core p
  unfolding settle
  settle-none [] process p q h = core_of_ok p q h
  settle-none (i ∷ pool) process p q h =
      let (t, _, e) = >>=-eq_ok (set_index p.table i (process i)) _ h in ground arith

  finish-none :
      (frame place : ℕ) (entry : Option ℕ) (p q : Processes S)
      → finish m frame place entry p ≡ ok (none, q)
      → core q ≡ core p
  unfolding finish
  finish-none frame place none p q h = core_of_ok p q h
  finish-none frame place (some entry) p q h =
      let (parent, _, e) = >>=-eq_ok (current p) _ h in
      let (t, b, e') = >>=-eq_ok (new_heap m frame p) _ e in
      settle-none t.1.pool _ t.1 q e' ∙ new_heap-core m frame p t.1 b

  -- After an error the place for code is used up all the same.
  pub create-none :
      (bin : Bytes) (p q : Processes S)
      → create m bin p ≡ ok (none, q)
      → core q ≡ core (after_code p)
  unfolding create
  create-none bin p q h =
      let (f, a, e) = >>=-eq_ok (new_page_table m p) _ h in
      let (magic, _, e') = >>=-eq_ok (header bin) _ e in
      let (l, b, e'') = >>=-eq_ok (load m bin _ _ f.0 f.1.next_code_addr (after_code f.1)) _ e' in
      finish-none f.0 f.1.next_code_addr l.0 l.1 q e''
      ∙ load-core m bin _ _ f.0 f.1.next_code_addr (after_code f.1) l.1 b
      ∙ ap (λ (k : Core). record k { next_code = (k.next_code + max_proc_size) % usize_end })
          (new_page_table-core m p f.1 a)
