-- ===== src/Examples/Frames.antt =====
-- Frames handed out from a small memory map, and pages mapped to them.
use tju_cinea_os.Prelude.{
  ℕ, ◌≡◌, ◌≢◌, refl, true, false, Option, none, some, List, [], ◌∷◌, arith, ◌==◌, if◌then◌else◌,
  inl, inr,
}
use tju_cinea_os.Prelude.Map.{nat_key}
use tju_cinea_os.Memory.{
  MemoryRegion, Mapper, mapped, steps, step_count, to_frames, region_frames, usable_frames,
  boot_allocate_frame, heaped_allocate_frame, heaped_frame_allocator, Flags, user_flags, map_page,
  map_pages, page_count, alloc_pages,
}
use tju_cinea_os.Memory.Frames.{IsMemoryMap, InMap, hand_out_once}
use tju_cinea_os.Memory.Mapped.{IsMapper, alloc_pages-Mapped}

-- Eight frames from address 8192 on, and four behind them that are not usable.
abbrev small_map : List MemoryRegion
small_map =
    record { start_addr = 8192; end_addr = 40960; usable = true }
    ∷ record { start_addr = 40960; end_addr = 57344; usable = false }
    ∷ record { start_addr = 57344; end_addr = 65536; usable = true }
    ∷ []

small_map-IsMemoryMap : IsMemoryMap small_map
small_map-IsMemoryMap = (
  λ _. (refl, (λ _. inl (omega arith), (λ _. inl (omega arith), tt))),
  (λ h. ground arith, (λ _. (refl, tt), tt)),
)

hand_out_once_example : InMap 3 small_map × ◌≢◌ {A = ℕ} 3 14
unfolding boot_allocate_frame usable_frames region_frames step_count steps to_frames
    heaped_allocate_frame heaped_frame_allocator
hand_out_once_example =
    hand_out_once small_map (true ∷ false ∷ true ∷ true ∷ false ∷ true ∷ true ∷ true ∷ []) 1 0 7 3
      14 small_map-IsMemoryMap refl refl (omega arith)

-- Page tables as a function from pages to frames.
abbrev Tables : Type 0
Tables = ℕ → Option (ℕ × Flags)

abbrev plain : Mapper Tables
plain = record {
  map_to = λ s page frame flags c. mapped (λ q. if q == page then some (frame, flags) else s q) c;
  unmap = λ s page. some (page, s);
  entry = λ s. s;
}

plain-IsMapper : IsMapper plain
plain-IsMapper = record {
  map_to_entry = λ s page frame flags c s' c' h. ground arith;
  map_to_other = λ s page frame flags c s' c' q h ne. ground arith;
  map_to_count = λ s page frame flags c s' c' h. ground arith;
}

abbrev no_pages : Tables
no_pages = λ _. none

abbrev two_pages : Tables
two_pages =
    λ q. if q == 6 then some (3, user_flags) else if q == 5 then some (2, user_flags) else none

alloc_pages-Mapped_example :
    (f : ℕ) × (g : ℕ) × (two_pages 5 ≡ some (f, user_flags))
    × (two_pages 6 ≡ some (g, user_flags))
    × InMap f small_map
    × InMap g small_map
    × (f ≡ g → ◌≡◌ {A = ℕ} 5 6)
    × (two_pages 7 ≡ no_pages 7)
unfolding alloc_pages page_count map_pages map_page heaped_allocate_frame heaped_frame_allocator
    usable_frames region_frames step_count steps to_frames
alloc_pages-Mapped_example =
    alloc_pages-Mapped plain small_map 20480 8000 no_pages 0 two_pages 2 5 6 7 plain-IsMapper
      small_map-IsMemoryMap refl (omega arith) (omega arith) (omega arith) (omega arith)
      (inr (omega arith))
