-- ===== src/Fs/Handles/Counts.antt =====
-- The share counts of src/syskrnl/fs/wrap.rs: the entry of a path in the table of open files counts
-- the handles on it.
use tju_cinea_os.Prelude.{
  ℕ, suc, ◌+◌, ◌-◌, ◌≤◌, ◌<◌, ◌≡◌, refl, subst, inl, inr, Bool, false, none, some, [], ◌∷◌, arith,
  ltb, ◌==◌, if◌then◌else◌, Bool-cases, Option-cases,
}
use tju_cinea_os.Prelude.Map.{
  Map, nat_key, bytes_key, bytes_beq, bytes_beq_iff, lookup, insert, remove, lookup-insert,
  lookup-remove,
}
use tju_cinea_os.Fs.{ok}
use tju_cinea_os.Fs.Path.{Bytes}
use tju_cinea_os.Fs.Handles.{
  OpenFileHandle, SystemFileEntry, Files, with_handle, register_opened_file, close, release,
}

abbrev pub Handles : Type 0
Handles = Map ℕ OpenFileHandle

-- The handles on a path. The first four ids are the standard devices', which `close` refuses.
unfoldable pub count : Bytes → Handles → ℕ
count p [] = 0
count p ((j, h) ∷ m) = (if ltb j 4 then 0 else if bytes_beq p h.path then 1 else 0) + count p m

-- The keys rise from `lo` on and stay below `n`.
abbrev pub Rises : ℕ → ℕ → Handles → Type 0
Rises lo n [] = Unit {0}
Rises lo n ((j, h) ∷ m) = (lo ≤ j) × (j < n) × Rises (suc j) n m

Rises-lower : (lo lo' n : ℕ) (m : Handles) → lo' ≤ lo → Rises lo n m → Rises lo' n m
Rises-lower lo lo' n [] h r = tt
Rises-lower lo lo' n ((j, h') ∷ m) h r = (omega arith, r.1, r.2)

-- A new id goes to the end.
insert-Rises :
    (lo n : ℕ) (h : OpenFileHandle) (m : Handles)
    → lo ≤ n
    → Rises lo n m
    → Rises lo (n + 1) (insert n h m)
unfolding insert
insert-Rises lo n h [] l r = (l, omega arith, tt)
insert-Rises lo n h ((j, g) ∷ m) l r = ground (arith, insert-Rises (suc j) n h m (omega arith) r.2)

count-insert :
    (p : Bytes) (lo n : ℕ) (h : OpenFileHandle) (m : Handles)
    → 4 ≤ n
    → Rises lo n m
    → count p (insert n h m) ≡ count p m + (if bytes_beq p h.path then 1 else 0)
unfolding insert count
count-insert p lo n h [] l r = ground arith
count-insert p lo n h ((j, g) ∷ m) l r = ground (arith, count-insert p (suc j) n h m)

remove-Rises : (lo n id : ℕ) (m : Handles) → Rises lo n m → Rises lo n (remove id m)
unfolding remove
remove-Rises lo n id [] r = tt
remove-Rises lo n id ((j, h) ∷ m) r =
    ground (arith, remove-Rises (suc j) n id m r.2, Rises-lower (suc j) lo n (remove id m))

-- Ids below the first are not there.
lookup_below : (lo n id : ℕ) (m : Handles) → Rises lo n m → id < lo → lookup id m ≡ none
unfolding lookup
lookup_below lo n id [] r h = refl
lookup_below lo n id ((j, g) ∷ m) r h = ground (arith, lookup_below (suc j) n id m r.2)

-- An id that has not been given out is not there.
pub lookup_above : (lo n id : ℕ) (m : Handles) → Rises lo n m → n ≤ id → lookup id m ≡ none
unfolding lookup
lookup_above lo n id [] r h = refl
lookup_above lo n id ((j, g) ∷ m) r h = ground (arith, lookup_above (suc j) n id m r.2)

count-remove-none :
    (p : Bytes) (id : ℕ) (m : Handles) → lookup id m ≡ none → count p (remove id m) ≡ count p m
unfolding remove count lookup
count-remove-none p id [] e = refl
count-remove-none p id ((j, g) ∷ m) e = ground (arith, count-remove-none p id m)

count-remove :
    (p : Bytes) (lo n id : ℕ) (h : OpenFileHandle) (m : Handles)
    → 4 ≤ id
    → Rises lo n m
    → lookup id m ≡ some h
    → count p (remove id m) + (if bytes_beq p h.path then 1 else 0) ≡ count p m
unfolding remove count lookup
count-remove p lo n id h [] l r e = ground arith
count-remove p lo n id h ((j, g) ∷ m) l r e = ground (
  arith,
  count-remove p (suc j) n id h m l r.2,
  count-remove-none p id m,
  lookup_below (suc j) n id m r.2,
)

-- How many times a path is open, by the table.
abbrev pub share_of : Bytes → Map Bytes SystemFileEntry → ℕ
share_of p t = elim (lookup p t) [ none ↦ 0 | some sft ↦ sft.share ]

-- The table counts the handles of every path, and has no entry for a path without one.
pub record IsCounted (s : Files) : Type 0 where
  pub rises : Rises 0 s.next_id s.handles
  pub ids : 4 ≤ s.next_id
  pub shares : (p : Bytes) → share_of p s.table ≡ count p s.handles
  pub shared : (p : Bytes) (sft : SystemFileEntry) → lookup p s.table ≡ some sft → 1 ≤ sft.share

with_handle-IsCounted :
    (s : Files) (sft : SystemFileEntry) (path : Bytes) (write device : Bool)
    → IsCounted s
    → sft.share ≡ share_of path s.table + 1
    → IsCounted (with_handle s (insert path sft s.table) path write device)
with_handle-IsCounted s sft path write device c e = record {
  rises = insert-Rises 0 s.next_id _ s.handles (omega arith) c.rises;
  ids = omega (arith, c.ids);
  shares = λ p. ground (
    arith,
    lookup-insert path p sft s.table,
    count-insert p 0 s.next_id
        (record { id = s.next_id; path = path; write = write; device = device }) s.handles c.ids
        c.rises,
    c.shares p,
    bytes_beq_iff p path,
  );
  shared = λ p t h. ground (arith, lookup-insert path p sft s.table, c.shared p t);
}

-- Opening a file keeps the counts right.
pub register-IsCounted :
    (s : Files) (path : Bytes) (write device : Bool) {id : ℕ} {s' : Files}
    → IsCounted s
    → register_opened_file s path write device ≡ ok (id, s')
    → IsCounted s'
unfolding register_opened_file
register-IsCounted s path write device {id} {s'} c h = elim (Option-cases (lookup path s.table)) [
  | inl e ↦
      let t : SystemFileEntry = record { path = path; share = 1; mutex = write } in
      let e' : with_handle s (insert path t s.table) path write device ≡ s' = ground arith in
      subst IsCounted e' (with_handle-IsCounted s t path write device c (rw (e, share_of)))
  | inr (sft, e) ↦
      let t : SystemFileEntry = record sft { share = sft.share + 1 } in
      let e' : with_handle s (insert path t s.table) path write device ≡ s' = ground arith in
      subst IsCounted e' (with_handle-IsCounted s t path write device c (rw (e, share_of)))
]

-- Taking one handle `id` away.
module _ (s : Files) (id : ℕ) (h : OpenFileHandle) (c : IsCounted s) (device : (ltb id 4) ≡ false)
    (open' : lookup id s.handles ≡ some h) where
  -- The path of an open handle has an entry.
  entry : (sft : SystemFileEntry) × (lookup h.path s.table ≡ some sft) × (1 ≤ sft.share)
  entry = elim (Option-cases (lookup h.path s.table)) [
    | inl e ↦ absurd (
        ground (
          arith,
          c.shares h.path,
          count-remove h.path 0 s.next_id id h s.handles,
          c.rises,
          bytes_beq_iff h.path h.path,
        ))
    | inr (sft, e) ↦ (sft, e, c.shared h.path sft e)
  ]

  abbrev gone : Files
  gone = record s { handles = remove id s.handles }

  release-IsCounted : IsCounted (release gone h.path).0
  unfolding release
  release-IsCounted = elim (Bool-cases (entry.0.share == 1)) [
    | inl one ↦
        rw (entry.1, release, one)
          (record {
            rises = remove-Rises 0 s.next_id id s.handles c.rises;
            ids = c.ids;
            shares = λ p. ground (
              arith,
              lookup-remove h.path p s.table,
              count-remove p 0 s.next_id id h s.handles,
              c.rises,
              c.shares p,
              bytes_beq_iff p h.path,
              entry.1,
            );
            shared = λ p t l. ground (arith, lookup-remove h.path p s.table, c.shared p t);
          })
    | inr more ↦
        rw (entry.1, release, more)
          (record {
            rises = remove-Rises 0 s.next_id id s.handles c.rises;
            ids = c.ids;
            shares = λ p. ground (
              arith,
              lookup-insert h.path p (record entry.0 { share = entry.0.share - 1 }) s.table,
              count-remove p 0 s.next_id id h s.handles,
              c.rises,
              c.shares p,
              bytes_beq_iff p h.path,
              entry.1,
              entry.2,
            );
            shared = λ p t l. ground (
              arith,
              lookup-insert h.path p (record entry.0 { share = entry.0.share - 1 }) s.table,
              c.shared p t,
              entry.2,
            );
          })
  ]

  release-ok : (release gone h.path).1 ≡ ok tt
  unfolding release
  release-ok = ground (arith, entry.1)

-- Closing a file keeps the counts right, whatever the id.
pub close-IsCounted : (s : Files) (id : ℕ) → IsCounted s → IsCounted (close s id).0
unfolding close
close-IsCounted s id c = elim (Bool-cases (ltb id 4)) [
  | inl e ↦ rw (e, close) c
  | inr e ↦ elim (Option-cases (lookup id s.handles)) [
    | inl n ↦ rw (e, close, n) c
    | inr (h, l) ↦ rw (e, close, l) (release-IsCounted s id h c e l)
  ]
]

-- Closing a handle that is open succeeds: its path is in the table of open files. (So `OSError` is
-- never the answer.)
pub close-ok :
    (s : Files) (id : ℕ) {h : OpenFileHandle}
    → IsCounted s
    → 4 ≤ id
    → lookup id s.handles ≡ some h
    → (close s id).1 ≡ ok tt
unfolding close
close-ok s id {h} c l e =
    let d : ltb id 4 ≡ false = ground arith in rw (d, close, e) (release-ok s id h c d e)
