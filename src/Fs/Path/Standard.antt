-- ===== src/Fs/Path/Standard.antt =====
-- The paths that `path_standardize` of src/sysapi/src/fs.rs returns.
use mathlib.Core.List.{reverse, append-nil, reverse-cons, append_assoc}
use tju_cinea_os.Prelude.{
  ℕ, ◌≡◌, refl, ap, ◌∙◌, ◌≢◌, inl, inr, Bool, false, ◌||◌, List, [], ◌∷◌, ◌++◌, arith, ◌==◌,
  Bool-cases,
}
use tju_cinea_os.Prelude.Map.{bytes_beq}
use tju_cinea_os.Fs.{Result, ok, err, panics, loops, ◌>>=◌, bad_relate_path_error}
use tju_cinea_os.Fs.Path.{
  Bytes, slash, dot, dotdot, split, push_byte, filter_nonempty, join, path_standardize,
}
use tju_cinea_os.Fs.Path.Relative.{resolve, process_relative_path-resolve}

abbrev pub has_slash : Bytes → Bool
has_slash [] = false
has_slash (c ∷ cs) = (c == slash) || has_slash cs

-- A name: not empty, and without a slash.
abbrev pub Name : Bytes → Type 0
Name s = (has_slash s ≡ false) × (s ≢ [])

-- A name that is neither `.` nor `..`.
abbrev pub Plain : Bytes → Type 0
Plain s = Name s × (bytes_beq s dot ≡ false) × (bytes_beq s dotdot ≡ false)

abbrev pub All {ℓ κ} : {A : Type ℓ} → (A → Type κ) → List A → Type κ
All P [] = Unit
All P (x ∷ xs) = P x × All P xs

split-has_slash : (p : Bytes) → All (λ s. has_slash s ≡ false) (split p)
unfolding split
split-has_slash [] = (refl, tt)
split-has_slash (c ∷ cs) = elim (Bool-cases (c == slash)) [
  | inl e ↦ rw e (refl, split-has_slash cs)
  | inr e ↦ rw e (push_all c (split cs) e (split-has_slash cs))
]
  where
    push_all :
        (c : ℕ) (ss : List Bytes)
        → (c == slash) ≡ false
        → All (λ s. has_slash s ≡ false) ss
        → All (λ s. has_slash s ≡ false) (push_byte c ss)
    push_all c [] e h = (ground arith, tt)
    push_all c (s ∷ ss) e h = (ground arith, h.1)

filter-Name : (ss : List Bytes) → All (λ s. has_slash s ≡ false) ss → All Name (filter_nonempty ss)
unfolding filter_nonempty
filter-Name [] h = tt
filter-Name ([] ∷ ss) h = filter-Name ss h.1
filter-Name ((c ∷ s) ∷ ss) h = ((h.0, λ e. cc), filter-Name ss h.1)

All-append : (xs ys : List Bytes) → All Plain xs → All Plain ys → All Plain (xs ++ ys)
All-append [] ys h k = k
All-append (x ∷ xs) ys h k = (h.0, All-append xs ys h.1 k)

All-reverse : (xs : List Bytes) → All Plain xs → All Plain (reverse xs)
All-reverse [] h = tt
All-reverse (x ∷ xs) h =
    rw (reverse-cons x xs) (All-append (reverse xs) (x ∷ []) (All-reverse xs h.1) (h.0, tt))

abbrev OkPlain : Result (List Bytes) → Type 0
OkPlain (ok out) = All Plain out
OkPlain _ = Unit {0}

-- What `resolve` returns, it returns with plain names only.
resolve-Plain :
    (kept rest : List Bytes) → All Plain kept → All Name rest → OkPlain (resolve kept rest)
unfolding resolve
resolve-Plain kept [] hk hr = All-reverse kept hk
resolve-Plain kept (s ∷ rest) hk hr = elim (Bool-cases (bytes_beq s dot)) [
  | inl d ↦ rw (d, resolve) (resolve-Plain kept rest hk hr.1)
  | inr n ↦ elim (Bool-cases (bytes_beq s dotdot)) [
    | inl u ↦ rw (n, resolve, u) (up kept hk (λ ks h. resolve-Plain ks rest h hr.1))
    | inr m ↦ rw (n, resolve, m) (resolve-Plain (s ∷ kept) rest ((hr.0, n, m), hk) hr.1)
  ]
]
  where
    up :
        (kept : List Bytes)
        → All Plain kept
        → ((ks : List Bytes) → All Plain ks → OkPlain (resolve ks rest))
        → OkPlain (elim kept [ [] ↦ err bad_relate_path_error | k ∷ ks ↦ resolve ks rest ])
    up [] h ih = tt
    up (k ∷ ks) h ih = ih ks h.1

resolve-ok :
    (kept segs : List Bytes) → All Plain segs → resolve kept segs ≡ ok (reverse kept ++ segs)
unfolding resolve
resolve-ok kept [] h = rw append-nil
resolve-ok kept (s ∷ segs) h =
    rw (h.0.1, resolve, h.0.2)
      (resolve-ok (s ∷ kept) segs h.1 ∙ ap ok (rw (reverse-cons s kept, append_assoc)))

split-append : (s r : Bytes) → has_slash s ≡ false → split (s ++ slash ∷ r) ≡ s ∷ split r
unfolding split
split-append [] r h = refl
split-append (c ∷ s) r h = ground (arith, split-append s r)

split-name : (s : Bytes) → has_slash s ≡ false → split s ≡ s ∷ []
unfolding split
split-name [] h = refl
split-name (c ∷ s) h = ground (arith, split-name s)

filter-cons :
    (s : Bytes) (ss : List Bytes) → s ≢ [] → filter_nonempty (s ∷ ss) ≡ s ∷ filter_nonempty ss
unfolding filter_nonempty
filter-cons [] ss h = absurd (h refl)
filter-cons (c ∷ s) ss h = refl

-- Names that are joined and split again come back.
filter_split_join : (ss : List Bytes) → All Plain ss → filter_nonempty (split (join ([] ∷ ss))) ≡ ss
unfolding filter_nonempty join split
filter_split_join [] h = refl
filter_split_join (s ∷ ss) h = parts s ss h
  where
    parts :
        (s : Bytes) (ss : List Bytes)
        → All Plain (s ∷ ss)
        → filter_nonempty (split (join (s ∷ ss))) ≡ s ∷ ss
    parts s [] h = rw (split-name s h.0.0.0) (filter-cons s [] h.0.0.1)
    parts s (t ∷ ss) h =
        rw (split-append s (join (t ∷ ss)) h.0.0.0)
          (filter-cons s (split (join (t ∷ ss))) h.0.0.1 ∙ ap (◌∷◌ s) (parts t ss h.1))

-- The path of plain names is standard.
standard_join :
    (segs : List Bytes)
    → All Plain segs
    → path_standardize (join ([] ∷ segs)) ≡ ok (join ([] ∷ segs))
unfolding path_standardize
standard_join segs h =
    rw (filter_split_join segs h, process_relative_path-resolve segs, resolve-ok [] segs h)

-- A standardized path is standard: standardizing it again gives it back.
pub path_standardize-path_standardize :
    (p q : Bytes) → path_standardize p ≡ ok q → path_standardize q ≡ ok q
unfolding path_standardize
path_standardize-path_standardize p q h =
    go (resolve [] segs) (resolve-Plain [] segs tt (filter-Name (split p) (split-has_slash p)))
      (rw (process_relative_path-resolve segs) at h)
  where
    segs : List Bytes
    segs = filter_nonempty (split p)

    go :
        (r : Result (List Bytes))
        → OkPlain r
        → (r >>= λ ss. ok (join ([] ∷ ss))) ≡ ok q
        → path_standardize q ≡ ok q
    go (ok ss) plain e = let e' : join ([] ∷ ss) ≡ q = cc in rw (← e') (standard_join ss plain)
    go (err _) plain e = cc
    go panics plain e = cc
    go loops plain e = cc
