-- ===== src/Memory/Mapped.antt =====
-- What the loops that map pages leave in the page tables (src/syskrnl/allocator/mod.rs).
use tju_cinea_os.Prelude.{
  ℕ, zero, suc, ◌+◌, ◌-◌, ◌*◌, ◌/◌, ◌≤◌, ◌<◌, ◌≡◌, ◌≢◌, ◌⊎◌, inl, inr, refl, sym, subst, ◌∙◌,
  Option, none, some, List, get_elem?, arith, Bool-cases, ◌==◌, ltb,
}
use tju_cinea_os.Memory.{
  MemoryRegion, usable_frames, heaped_allocate_frame, heaped_frame_allocator, Flags, user_flags,
  Mapping, mapped, failed, and_then, Mapper, map_page, map_pages, page_count, alloc_pages,
}
use tju_cinea_os.Memory.Frames.{IsMemoryMap, InMap, usable_at, usable_injective}

-- What the library says of mapping: on success the page has the frame and the flags, every other
-- page has what it had, and no frame goes back to the allocator.
pub record IsMapper {S : Type 0} (m : Mapper S) : Type 0 where
  pub map_to_entry :
      (s : S) (page frame : ℕ) (flags : Flags) (c : ℕ) (s' : S) (c' : ℕ)
      → m.map_to s page frame flags c ≡ mapped s' c'
      → m.entry s' page ≡ some (frame, flags)
  pub map_to_other :
      (s : S) (page frame : ℕ) (flags : Flags) (c : ℕ) (s' : S) (c' q : ℕ)
      → m.map_to s page frame flags c ≡ mapped s' c'
      → q ≢ page
      → m.entry s' q ≡ m.entry s q
  pub map_to_count :
      (s : S) (page frame : ℕ) (flags : Flags) (c : ℕ) (s' : S) (c' : ℕ)
      → m.map_to s page frame flags c ≡ mapped s' c'
      → c ≤ c'

ℕ-cases : (a b : ℕ) → (a ≡ b) ⊎ (a ≢ b)
ℕ-cases a b = elim (Bool-cases (a == b)) [
  | inl e ↦ inl (ground arith)
  | inr ne ↦ inr (ground arith)
]

order : (a b : ℕ) → (a < b) ⊎ ((b < a) ⊎ (a ≡ b))
order a b = elim (ℕ-cases a b) [
  | inl e ↦ inr (inr e)
  | inr ne ↦ elim (Bool-cases (ltb a b)) [
    | inl l ↦ inl (ground arith)
    | inr l ↦ inr (inl (ground arith))
  ]
]

same_position :
    (rs : List MemoryRegion) (i j : ℕ) {f g : ℕ}
    → IsMemoryMap rs
    → get_elem? (usable_frames rs) i ≡ some f
    → get_elem? (usable_frames rs) j ≡ some g
    → f ≡ g
    → i ≢ j
    → ⊥
same_position rs i j {f} w a b e ne =
    ne
      (usable_injective rs i j w a (subst (λ z. get_elem? (usable_frames rs) j ≡ some z) (sym e) b))

and_then-eq_mapped :
    {S : Type 0} (r : Mapping S) (f : S → ℕ → Mapping S) {s : S} {c : ℕ}
    → and_then r f ≡ mapped s c
    → (t : S) × (d : ℕ) × (r ≡ mapped t d) × (f t d ≡ mapped s c)
and_then-eq_mapped (mapped t d) f h = (t, d, refl, h)
and_then-eq_mapped (failed e t d) f h = ground arith

module _ {S : Type 0} (m : Mapper S) (w : IsMapper m) (rs : List MemoryRegion) (flags : Flags) where
  abbrev pub loop : ℕ → ℕ → S → ℕ → Mapping S
  loop = map_pages m (heaped_allocate_frame (heaped_frame_allocator rs)) flags

  -- What one round leaves.
  record OneMapped (page : ℕ) (s : S) (c : ℕ) (t : S) (d : ℕ) : Type 0 where
    frame : ℕ
    at : get_elem? (usable_frames rs) c ≡ some frame
    entry : m.entry t page ≡ some (frame, flags)
    other : (q : ℕ) → q ≢ page → m.entry t q ≡ m.entry s q
    later : c < d

  map_page-OneMapped :
      (page : ℕ) (s : S) (c : ℕ) (t : S) (d : ℕ) (o : Option ℕ)
      → get_elem? (usable_frames rs) c ≡ o
      → map_page m (heaped_allocate_frame (heaped_frame_allocator rs)) flags page s (o, c + 1)
        ≡ mapped t d
      → OneMapped page s c t d
  unfolding map_page
  map_page-OneMapped page s c t d none e h = ground arith
  map_page-OneMapped page s c t d (some f) e h =
      let l = w.map_to_count s page f flags (c + 1) t d h in
      record {
        frame = f;
        at = e;
        entry = w.map_to_entry s page f flags (c + 1) t d h;
        other = λ q ne. w.map_to_other s page f flags (c + 1) t d q h ne;
        later = omega arith;
      }

  Round : (count page : ℕ) (s : S) (c : ℕ) (s' : S) (c' : ℕ) → Type 0
  Round count page s c s' c' =
      (t : S) × (d : ℕ) × OneMapped page s c t d × (loop count (page + 1) t d ≡ mapped s' c')

  round :
      (count page : ℕ) (s : S) (c : ℕ) {s' : S} {c' : ℕ}
      → loop (suc count) page s c ≡ mapped s' c'
      → Round count page s c s' c'
  unfolding Round map_pages heaped_allocate_frame heaped_frame_allocator
  round count page s c h =
      let o = get_elem? (usable_frames rs) c in
      let (t, d, p, q) =
        and_then-eq_mapped
          (map_page m (heaped_allocate_frame (heaped_frame_allocator rs)) flags page s (o, c + 1))
          (λ t d. loop count (page + 1) t d) h in
      (t, d, map_page-OneMapped page s c t d o refl p, q)

  -- A page outside the loop's has what it had, and the count of frames goes up.
  loop_outside :
      (count page : ℕ) (s : S) (c : ℕ) {s' : S} {c' : ℕ}
      → loop count page s c ≡ mapped s' c'
      → (c ≤ c') × ((q : ℕ) → (q < page) ⊎ (page + count ≤ q) → m.entry s' q ≡ m.entry s q)
  unfolding map_pages Round
  loop_outside zero page s c h = (ground arith, λ q a. ground arith)
  loop_outside (suc count) page s c h =
      let (t, d, one, rest) = round count page s c h in
      let r = loop_outside count (page + 1) t d rest in
      let l = one.later in
      (
        omega arith,
        λ q a.
            r.1 q (elim a [ inl b ↦ inl (omega arith) | inr b ↦ inr (omega arith) ])
            ∙ one.other q (elim a [ inl b ↦ omega arith | inr b ↦ omega arith ]),
      )

  -- A page of the loop has a frame at a position that was handed out by the loop.
  Placed : (s' : S) (q low high : ℕ) → Type 0
  Placed s' q low high =
      (i : ℕ) × (f : ℕ) × (low ≤ i)
      × (i < high)
      × (get_elem? (usable_frames rs) i ≡ some f)
      × (m.entry s' q ≡ some (f, flags))

  first_page :
      (count page : ℕ) (s : S) (c : ℕ) {s' : S} {c' : ℕ} (t : S) (d : ℕ)
      → OneMapped page s c t d
      → loop count (page + 1) t d ≡ mapped s' c'
      → Placed s' page c d
  unfolding Placed
  first_page count page s c t d one rest =
      let l = one.later in
      (
        c,
        one.frame,
        omega arith,
        l,
        one.at,
        (loop_outside count (page + 1) t d rest).1 page (inl (omega arith)) ∙ one.entry,
      )

  loop_inside :
      (count page : ℕ) (s : S) (c : ℕ) {s' : S} {c' : ℕ} (q : ℕ)
      → loop count page s c ≡ mapped s' c'
      → page ≤ q
      → q < page + count
      → Placed s' q c c'
  unfolding Placed Round
  loop_inside zero page s c q h a b = absurd (omega arith)
  loop_inside (suc count) page s c {s'} {c'} q h a b =
      let (t, d, one, rest) = round count page s c h in
      let l = one.later in
      let r = (loop_outside count (page + 1) t d rest).0 in
      elim (ℕ-cases q page) [
        | inl e ↦
            let (i, f, low, high, at, entry) = first_page count page s c t d one rest in
            (i, f, low, omega arith, at, subst (λ z. m.entry s' z ≡ some (f, flags)) (sym e) entry)
        | inr ne ↦
            let (i, f, low, high, at, entry) =
              loop_inside count (page + 1) t d q rest (omega arith) (omega arith) in
            (i, f, omega arith, high, at, entry)
      ]

  -- Of two pages the later one has the later frame.
  loop_pair :
      (count page : ℕ) (s : S) (c : ℕ) {s' : S} {c' : ℕ} (q q' : ℕ)
      → loop count page s c ≡ mapped s' c'
      → page ≤ q
      → q < q'
      → q' < page + count
      → (k : ℕ) × Placed s' q c k × Placed s' q' k c'
  unfolding Placed Round
  loop_pair zero page s c q q' h a l b = absurd (omega arith)
  loop_pair (suc count) page s c {s'} q q' h a l b =
      let (t, d, one, rest) = round count page s c h in
      let after = one.later in
      elim (ℕ-cases q page) [
        | inl e ↦ (
          d,
          subst (λ z. Placed s' z c d) (sym e) (first_page count page s c t d one rest),
          loop_inside count (page + 1) t d q' rest (omega arith) (omega arith),
        )
        | inr ne ↦
            let (k, (i, f, low, high, at, entry), second) =
              loop_pair count (page + 1) t d q q' rest (omega arith) l (omega arith) in
            (k, (i, f, omega arith, high, at, entry), second)
      ]

-- When `alloc_pages` succeeds, each page q from that of `addr` to that of the last byte has a frame in
-- a usable region and is open to the program; if two of these pages have the same frame, they are the
-- same page; and every page p outside has what it had.
pub alloc_pages-Mapped :
    {S : Type 0} (m : Mapper S) (rs : List MemoryRegion) (addr size : ℕ) (s : S) (c : ℕ) (s' : S)
    (c' q q' p : ℕ)
    → IsMapper m
    → IsMemoryMap rs
    → alloc_pages m rs addr size s c ≡ mapped s' c'
    → addr / 4096 ≤ q
    → q * 4096 < addr + size
    → addr / 4096 ≤ q'
    → q' * 4096 < addr + size
    → (p < addr / 4096) ⊎ (addr + size ≤ p * 4096)
    → (f : ℕ) × (g : ℕ) × (m.entry s' q ≡ some (f, user_flags))
      × (m.entry s' q' ≡ some (g, user_flags))
      × InMap f rs
      × InMap g rs
      × (f ≡ g → q ≡ q')
      × (m.entry s' p ≡ m.entry s p)
unfolding alloc_pages page_count Placed
alloc_pages-Mapped m rs addr size s c s' c' q q' p w map h a b a' b' o =
    let first = addr / 4096 in
    let count = (addr + size - 1) / 4096 + 1 - addr / 4096 in
    let u = user_flags in
    let rest =
      (loop_outside m w rs u count first s c h).1 p
        (elim o [ inl l ↦ inl l | inr l ↦ inr (omega arith) ]) in
    elim (order q q') [
      | inl l ↦
          let (k, (i, f, _, below, at, entry), (j, g, above, _, at', entry')) =
            loop_pair m w rs u count first s c q q' h a l (omega arith) in
          (
            f,
            g,
            entry,
            entry',
            usable_at rs i map at,
            usable_at rs j map at',
            λ e. absurd (same_position rs i j map at at' e (omega arith)),
            rest,
          )
      | inr (inl l) ↦
          let (k, (j, g, _, below, at', entry'), (i, f, above, _, at, entry)) =
            loop_pair m w rs u count first s c q' q h a' l (omega arith) in
          (
            f,
            g,
            entry,
            entry',
            usable_at rs i map at,
            usable_at rs j map at',
            λ e. absurd (same_position rs i j map at at' e (omega arith)),
            rest,
          )
      | inr (inr e) ↦
          let (i, f, _, _, at, entry) = loop_inside m w rs u count first s c q h a (omega arith) in
          (
            f,
            f,
            entry,
            subst (λ z. m.entry s' z ≡ some (f, u)) e entry,
            usable_at rs i map at,
            usable_at rs i map at,
            λ _. e,
            rest,
          )
    ]
