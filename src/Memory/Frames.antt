-- ===== src/Memory/Frames.antt =====
-- Each frame of memory is handed out once (src/syskrnl/memory/mod.rs).
use tju_cinea_os.Prelude.{
  ℕ, zero, suc, ◌+◌, ◌-◌, ◌*◌, ◌/◌, ◌%◌, ◌≤◌, ◌<◌, ◌≡◌, ◌≢◌, ◌⊎◌, inl, inr, refl, sym, subst, Bool,
  true, false, Option, some, List, [], ◌∷◌, ◌++◌, get_elem?, length, arith,
}
use tju_cinea_os.Memory.{
  MemoryRegion, steps, step_count, to_frames, region_frames, usable_frames, boot_allocate_frame,
  heaped_allocate_frame, heaped_frame_allocator,
}

-- A memory map as a boot loader gives it: usable regions start at a frame and do not meet.
abbrev pub Apart : MemoryRegion → List MemoryRegion → Type 0
Apart r [] = Unit {0}
Apart r (s ∷ rs) =
    (s.usable ≡ true → (r.end_addr ≤ s.start_addr) ⊎ (s.end_addr ≤ r.start_addr)) × Apart r rs

abbrev pub IsMemoryMap : List MemoryRegion → Type 0
IsMemoryMap [] = Unit {0}
IsMemoryMap (r ∷ rs) = (r.usable ≡ true → (r.start_addr % 4096 ≡ 0) × Apart r rs) × IsMemoryMap rs

-- The frame starts in the region.
abbrev pub InRegion : ℕ → MemoryRegion → Type 0
InRegion f r = (r.usable ≡ true) × (r.start_addr ≤ f * 4096) × (f * 4096 < r.end_addr)

abbrev pub InMap : ℕ → List MemoryRegion → Type 0
InMap f [] = ⊥
InMap f (r ∷ rs) = InRegion f r ⊎ InMap f rs

-- The frame at position i of a region that starts at a frame.
steps_at :
    (count addr i : ℕ) {f : ℕ}
    → get_elem? (to_frames (steps count addr)) i ≡ some f
    → (f ≡ (addr + i * 4096) / 4096) × (i < count)
unfolding steps to_frames
steps_at zero addr i h = ground arith
steps_at (suc count) addr zero h = ground arith
steps_at (suc count) addr (suc i) h =
    let (e, l) = steps_at count (addr + 4096) i h in (omega arith, omega arith)

append_at :
    (xs ys : List ℕ) (i : ℕ) {f : ℕ}
    → get_elem? (xs ++ ys) i ≡ some f
    → (get_elem? xs i ≡ some f) ⊎ ((length xs ≤ i) × (get_elem? ys (i - length xs) ≡ some f))
append_at [] ys i h = inr (omega arith, ground arith)
append_at (x ∷ xs) ys zero h = inl h
append_at (x ∷ xs) ys (suc i) h = elim (append_at xs ys i h) [
  | inl a ↦ inl a
  | inr b ↦ inr (omega arith, ground arith)
]

region_at :
    (u : Bool) (r : MemoryRegion) (i : ℕ) {f : ℕ}
    → (r.usable ≡ u)
    → (r.usable ≡ true → r.start_addr % 4096 ≡ 0)
    → get_elem? (region_frames u r) i ≡ some f
    → InRegion f r × (f ≡ r.start_addr / 4096 + i)
unfolding region_frames step_count
region_at false r i e a h = ground arith
region_at true r i e a h =
    let (p, l) = steps_at (step_count r) r.start_addr i h in
    let z = a e in ((e, omega arith, omega arith), omega arith)

pub usable_at :
    (rs : List MemoryRegion) (i : ℕ) {f : ℕ}
    → IsMemoryMap rs
    → get_elem? (usable_frames rs) i ≡ some f
    → InMap f rs
unfolding usable_frames
usable_at [] i w h = ground arith
usable_at (r ∷ rs) i w h = elim (append_at (region_frames r.usable r) (usable_frames rs) i h) [
  | inl a ↦ inl (region_at r.usable r i refl (λ u. (w.0 u).0) a).0
  | inr b ↦ inr (usable_at rs (i - length (region_frames r.usable r)) w.1 b.1)
]

-- A frame of one region is in no region apart from it.
InMap-Apart :
    (r : MemoryRegion) (rs : List MemoryRegion) (f : ℕ) → InRegion f r → Apart r rs → InMap f rs → ⊥
InMap-Apart r [] f a d m = m
InMap-Apart r (s ∷ rs) f a d (inr m) = InMap-Apart r rs f a d.1 m
InMap-Apart r (s ∷ rs) f a d (inl m) = elim (d.0 m.0) [ inl e ↦ omega arith | inr e ↦ omega arith ]

pub usable_injective :
    (rs : List MemoryRegion) (i j : ℕ) {f : ℕ}
    → IsMemoryMap rs
    → get_elem? (usable_frames rs) i ≡ some f
    → get_elem? (usable_frames rs) j ≡ some f
    → i ≡ j
unfolding usable_frames
usable_injective [] i j w h k = ground arith
usable_injective (r ∷ rs) i j w h k =
    let fs = region_frames r.usable r in
    let us = usable_frames rs in
    elim (append_at fs us i h) [
      | inl a ↦ elim (append_at fs us j k) [
        | inl b ↦
            let p = region_at r.usable r i refl (λ u. (w.0 u).0) a in
            let q = region_at r.usable r j refl (λ u. (w.0 u).0) b in omega arith
        | inr b ↦
            let p = region_at r.usable r i refl (λ u. (w.0 u).0) a in
            absurd (InMap-Apart r rs _ p.0 (w.0 p.0.0).1 (usable_at rs (j - length fs) w.1 b.1))
      ]
      | inr a ↦ elim (append_at fs us j k) [
        | inl b ↦
            let q = region_at r.usable r j refl (λ u. (w.0 u).0) b in
            absurd (InMap-Apart r rs _ q.0 (w.0 q.0.0).1 (usable_at rs (i - length fs) w.1 a.1))
        | inr b ↦
            let e = usable_injective rs (i - length fs) (j - length fs) w.1 a.1 b.1 in omega arith
      ]
    ]

-- Frames asked for one after the other, each of the boot allocator (`true`) or of one that was made
-- with the list of frames.
abbrev pub hand_out : List MemoryRegion → List Bool → ℕ → List (Option ℕ)
hand_out rs [] next = []
hand_out rs (true ∷ asks) next =
    (boot_allocate_frame rs next).0 ∷ hand_out rs asks (boot_allocate_frame rs next).1
hand_out rs (false ∷ asks) next =
    (heaped_allocate_frame (heaped_frame_allocator rs) next).0
    ∷ hand_out rs asks (heaped_allocate_frame (heaped_frame_allocator rs) next).1

hand_out_at :
    (rs : List MemoryRegion) (asks : List Bool) (next i : ℕ) {o : Option ℕ}
    → get_elem? (hand_out rs asks next) i ≡ some o
    → get_elem? (usable_frames rs) (next + i) ≡ o
unfolding boot_allocate_frame heaped_allocate_frame heaped_frame_allocator
hand_out_at rs [] next i h = ground arith
hand_out_at rs (true ∷ asks) next zero h = ground arith
hand_out_at rs (false ∷ asks) next zero h = ground arith
hand_out_at rs (true ∷ asks) next (suc i) {o} h =
    subst (λ n. get_elem? (usable_frames rs) n ≡ o) (omega arith)
      (hand_out_at rs asks (next + 1) i h)
hand_out_at rs (false ∷ asks) next (suc i) {o} h =
    subst (λ n. get_elem? (usable_frames rs) n ≡ o) (omega arith)
      (hand_out_at rs asks (next + 1) i h)

-- Whichever of the two allocators is asked, and in whatever order, each frame handed out starts in a
-- usable region of the memory map, and no frame is handed out twice.
pub hand_out_once :
    (rs : List MemoryRegion) (asks : List Bool) (next i j f g : ℕ)
    → IsMemoryMap rs
    → get_elem? (hand_out rs asks next) i ≡ some (some f)
    → get_elem? (hand_out rs asks next) j ≡ some (some g)
    → i ≢ j
    → InMap f rs × (f ≢ g)
hand_out_once rs asks next i j f g w h k ne =
    let a = hand_out_at rs asks next i h in
    let b = hand_out_at rs asks next j k in
    (
      usable_at rs (next + i) w a,
      λ e.
          let c =
            usable_injective rs (next + i) (next + j) w a
              (subst (λ z. get_elem? (usable_frames rs) (next + j) ≡ some z) (sym e) b) in
          ne (omega arith),
    )
