-- ===== src/Fs/Handles/Sharing.antt =====
-- Who may open a file of src/syskrnl/fs/wrap.rs at the same time, and what closing gives back.
use tju_cinea_os.Prelude.{
  ℕ, ◌+◌, ◌-◌, ◌≡◌, refl, Bool, true, false, none, some, arith, ltb, Option-cases, subst, ◌⊎◌, inl,
  inr,
}
use tju_cinea_os.Prelude.Map.{
  nat_key, bytes_key, bytes_beq_iff, lookup, insert, remove, lookup-insert, lookup-remove,
}
use tju_cinea_os.Fs.{Result, ok, err, file_busy_error}
use tju_cinea_os.Fs.Path.{Bytes}
use tju_cinea_os.Fs.Handles.{
  OpenFileHandle, SystemFileEntry, Files, with_handle, register_opened_file, close, release,
}
use tju_cinea_os.Fs.Handles.Counts.{IsCounted, lookup_above}

-- While a file is open that was first opened for writing, every further attempt to open it is
-- refused, for reading too.
pub register_exclusive :
    (s : Files) (path : Bytes) (device write device' : Bool) {id : ℕ} {s' : Files}
    → lookup path s.table ≡ none
    → register_opened_file s path true device ≡ ok (id, s')
    → register_opened_file s' path write device' ≡ err file_busy_error
unfolding register_opened_file
register_exclusive s path device write device' {s'} n h =
    let t : SystemFileEntry = record { path = path; share = 1; mutex = true } in
    let e : with_handle s (insert path t s.table) path true device ≡ s' = ground arith in
    rw (← e) (ground (arith, lookup-insert path path t s.table, bytes_beq_iff path path))

-- A file that was first opened for reading can be opened for writing any number of times: the entry
-- does not become exclusive.
pub register_shared :
    (s : Files) (path : Bytes) (device write device' : Bool) {id : ℕ} {s' : Files}
    → lookup path s.table ≡ none
    → register_opened_file s path false device ≡ ok (id, s')
    → (s'' : Files) × (register_opened_file s' path write device' ≡ ok (s'.next_id, s''))
      × (lookup path s''.table ≡ some (record { path = path; share = 2; mutex = false }))
unfolding register_opened_file
register_shared s path device write device' {s'} n h =
    let t : SystemFileEntry = record { path = path; share = 1; mutex = false } in
    let u : SystemFileEntry = record { path = path; share = 2; mutex = false } in
    let e : with_handle s (insert path t s.table) path false device ≡ s' = ground arith in
    let at : lookup path s'.table ≡ some t =
      rw (← e) (ground (arith, lookup-insert path path t s.table, bytes_beq_iff path path)) in
    (
      with_handle s' (insert path u s'.table) path write device',
      ground (arith, at),
      ground (arith, lookup-insert path path u s'.table, bytes_beq_iff path path),
    )

-- The handle that was just given out, closed again.
abbrev pub Restored : Files → Files × Result (Unit {0}) → Type 0
Restored s (s'', r) =
    (r ≡ ok tt)
    × ((p : Bytes) → lookup p s''.table ≡ lookup p s.table)
    × ((i : ℕ) → lookup i s''.handles ≡ lookup i s.handles)

closed :
    (s : Files) (path : Bytes) (sft : SystemFileEntry) (write device : Bool)
    → IsCounted s
    → (lookup path s.table ≡ none) × (sft.share ≡ 1)
      ⊎ ((old : SystemFileEntry) × (lookup path s.table ≡ some old)
          × (sft ≡ record old { share = old.share + 1 }))
    → Restored s (close (with_handle s (insert path sft s.table) path write device) s.next_id)
unfolding close release
closed s path sft write device c w =
    let handle : OpenFileHandle = record {
      id = s.next_id;
      path = path;
      write = write;
      device = device;
    } in
    let small : ltb s.next_id 4 ≡ false = ground (arith, c.ids) in
    let given : lookup s.next_id (insert s.next_id handle s.handles) ≡ some handle =
      ground (arith, lookup-insert s.next_id s.next_id handle s.handles) in
    let entry : lookup path (insert path sft s.table) ≡ some sft =
      ground (arith, lookup-insert path path sft s.table, bytes_beq_iff path path) in
    let handles : (i : ℕ)
        → lookup i (remove s.next_id (insert s.next_id handle s.handles)) ≡ lookup i s.handles =
      λ i. ground (
        arith,
        lookup-remove s.next_id i (insert s.next_id handle s.handles),
        lookup-insert s.next_id i handle s.handles,
        lookup_above 0 s.next_id s.next_id s.handles c.rises,
      ) in
    rw (small, given, release, entry)
      (elim w [
        | inl (n, one) ↦ (
          ground arith,
          λ p. ground (
            arith,
            lookup-remove path p (insert path sft s.table),
            lookup-insert path p sft s.table,
            bytes_beq_iff p path,
          ),
          λ i. ground (arith, handles i),
        )
        | inr (old, o, two) ↦ (
          ground (arith, c.shared path old o),
          λ p. ground (
            arith,
            lookup-insert path p (record sft { share = sft.share - 1 }) (insert path sft s.table),
            lookup-insert path p sft s.table,
            bytes_beq_iff p path,
            c.shared path old o,
          ),
          λ i. ground (arith, handles i, c.shared path old o),
        )
      ])

moved :
    (s : Files) {t s' : Files} {i id : ℕ}
    → t ≡ s'
    → i ≡ id
    → Restored s (close t i)
    → Restored s (close s' id)
moved s {t} {id} e k r =
    subst (λ z. Restored s (close z id)) e (subst (λ j. Restored s (close t j)) k r)

-- Opening a file and closing the handle again leaves the table of open files and the handles as they
-- were, as far as looking anything up goes.
pub close-register :
    (s : Files) (path : Bytes) (write device : Bool) {id : ℕ} {s' : Files}
    → IsCounted s
    → register_opened_file s path write device ≡ ok (id, s')
    → Restored s (close s' id)
unfolding register_opened_file
close-register s path write device {id} {s'} c h = elim (Option-cases (lookup path s.table)) [
  | inl e ↦
      let t : SystemFileEntry = record { path = path; share = 1; mutex = write } in
      let i : s.next_id ≡ id = ground arith in
      let e' : with_handle s (insert path t s.table) path write device ≡ s' = ground arith in
      moved s e' i (closed s path t write device c (inl (e, refl)))
  | inr (sft, e) ↦
      let t : SystemFileEntry = record sft { share = sft.share + 1 } in
      let i : s.next_id ≡ id = ground arith in
      let e' : with_handle s (insert path t s.table) path write device ≡ s' = ground arith in
      moved s e' i (closed s path t write device c (inr (sft, e, refl)))
]
