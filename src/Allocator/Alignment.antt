-- ===== src/Allocator/Alignment.antt =====
-- Sizes and alignments of src/syskrnl/allocator/linked_list.rs and src/syskrnl/allocator/mod.rs.
use tju_cinea_os.Prelude.{
  ℕ, zero, suc, ◌+◌, ◌-◌, ◌*◌, ◌/◌, ◌%◌, ◌^◌, ◌≤◌, ◌<◌, max, ◌≡◌, ◌∙◌, refl, ap, subst, false, ok,
  checked, >>=-eq_ok, arith, ltb,
}
use tju_cinea_os.Allocator.{Layout, align_up, round_up, size_align, node_align, node_size}
use native.Mathlib.Nat.{mod-add-div', mod-lt, mul-mod_left, mul_assoc, pow-suc, one-le-pow}

-- Rounding up gives the least multiple of the alignment that is not below the address.
pub round_up_lem :
    (addr align : ℕ)
    → 1 ≤ align
    → (addr ≤ round_up addr align)
      × (round_up addr align < addr + align)
      × (round_up addr align % align ≡ 0)
unfolding round_up
round_up_lem addr align h =
    let e = mod-add-div' (addr + align - 1) align in
    let l = mod-lt (addr + align - 1) h in
    (omega arith, omega arith, mul-mod_left ((addr + align - 1) / align) align)

-- What comes out of the computation with `usize`s.
pub align_up-round_up :
    (addr align : ℕ) {out : ℕ} → align_up addr align ≡ ok out → out ≡ round_up addr align
unfolding align_up
align_up-round_up addr align h =
    let (_, _, e) = >>=-eq_ok (checked (addr + align)) (λ _. ok (round_up addr align)) h in
    ground arith

multiple : (c m : ℕ) → c * (m * 8) % 8 ≡ 0
multiple c m = subst (λ n. n % 8 ≡ 0) (mul_assoc c m 8) (mul-mod_left (c * m) 8)

-- A power of two, or 8 when that is larger, is a multiple of 8.
eights : (k : ℕ) → (m : ℕ) × (max (2 ^ k) 8 ≡ m * 8)
eights zero = (1, omega arith)
eights (suc zero) = (1, omega arith)
eights (suc (suc zero)) = (1, omega arith)
eights (suc (suc (suc k))) = (
  2 ^ k,
  omega (
    arith,
    pow-suc 2 (suc (suc k)),
    pow-suc 2 (suc k),
    pow-suc 2 k,
    one-le-pow k 2 (omega arith),
  ),
)

eights-multiple : (c n : ℕ) → n % 8 ≡ 0 → c * n % 8 ≡ 0
eights-multiple c n h = let e : n ≡ n / 8 * 8 = omega arith in rw e (multiple c (n / 8))

-- An address rounded up to a multiple of 8 is a multiple of 8.
pub up_eights : (addr align : ℕ) → align % 8 ≡ 0 → round_up addr align % 8 ≡ 0
unfolding round_up
up_eights addr align h = eights-multiple ((addr + align - 1) / align) align h

-- What the list asks of a block's size and alignment.
pub record Fits (size align : ℕ) : Type 0 where
  pub node : node_size ≤ size
  pub size_eights : size % 8 ≡ 0
  pub align_pos : 1 ≤ align
  pub align_eights : align % 8 ≡ 0

-- Every layout whose padded size does not overflow is adjusted to a size that is at least its own
-- and the larger of its alignment and 8, with which a node of the list fits the block.
pub size_align-Fits :
    (layout : Layout) (k : ℕ)
    → layout.align ≡ 2 ^ k
    → round_up layout.size (max layout.align 8) ≤ 9223372036854775807
    → (size : ℕ) × (align : ℕ) × (size_align layout ≡ ok (size, align))
      × (layout.size ≤ size)
      × (align ≡ max layout.align 8)
      × Fits size align
unfolding size_align
size_align-Fits layout k p l =
    let a : ℕ = max layout.align 8 in
    let (m, e) = eights k in
    let f : a ≡ m * 8 = ap (λ n. max n 8) p ∙ e in
    let g : a % 8 ≡ 0 = omega arith in
    let (above, near, exact) = round_up_lem layout.size a (omega arith) in
    let t : round_up layout.size a % 8 ≡ 0 = up_eights layout.size a g in
    let small : ltb 9223372036854775807 (round_up layout.size a) ≡ false = ground arith in
    (
      max (round_up layout.size a) 16,
      a,
      rw small refl,
      omega arith,
      refl,
      record {
        node = omega arith;
        size_eights = omega arith;
        align_pos = omega arith;
        align_eights = g;
      },
    )

pub still_eights : (addr : ℕ) → addr % 8 ≡ 0 → round_up addr node_align ≡ addr
unfolding round_up
still_eights addr h = omega arith
