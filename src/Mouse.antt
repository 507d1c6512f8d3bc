-- ===== src/Mouse.antt =====
-- The mouse: packets and clicks of src/syskrnl/task/mouse.rs.
pub mod Clicks
use tju_cinea_os.Prelude.{
  ℕ, zero, suc, ◌+◌, ◌-◌, ◌/◌, ◌%◌, Bool, true, false, ◌&&◌, ◌||◌, not, Option, none, some, List,
  [], ◌∷◌, ◌==◌, ltb, leb, if◌then◌else◌,
}
use tju_cinea_os.Prelude.Int.{ℤ, pos, negsuc}

-- `byte & 2 ^ n > 0`, for the power itself.
unfoldable pub has_bit : ℕ → ℕ → Bool
has_bit byte power = byte / power % 2 == 1

-- A byte as `i8`.
unfoldable pub as_i8 : ℕ → ℤ
as_i8 byte = if ltb byte 128 then pos byte else negsuc (255 - byte)

unfoldable pub negated : ℤ → ℤ
negated (pos zero) = pos zero
negated (pos (suc n)) = negsuc n
negated (negsuc n) = pos (suc n)

pub record MousePackage : Type 0 where
  pub middle_btn : Bool
  pub right_btn : Bool
  pub left_btn : Bool
  pub delta_x : ℤ
  pub delta_y : ℤ

-- `MousePackage::new`.
unfoldable pub new_package : ℕ → ℕ → ℕ → Option MousePackage
new_package byte_1 byte_2 byte_3 =
    if has_bit byte_1 128 || has_bit byte_1 64 || not (has_bit byte_1 8)
    then none
    else some (record {
      middle_btn = has_bit byte_1 4;
      right_btn = has_bit byte_1 2;
      left_btn = has_bit byte_1 1;
      delta_x = if has_bit byte_1 16 then as_i8 byte_2 else pos byte_2;
      delta_y = negated (if has_bit byte_1 32 then as_i8 byte_3 else pos byte_3);
    })

-- One turn of `mouse_handler`: whether the button is down, and whether that is a click.
unfoldable pub on_button : Bool → Bool → Bool × Bool
on_button btn_down left_btn =
    if btn_down && not left_btn
    then (false, true)
    else if not btn_down && left_btn
    then (true, false)
    else (btn_down, false)

-- The clicks of a run of packages, in the order of the packages.
unfoldable pub clicks : Bool → List MousePackage → List Bool
clicks btn_down [] = []
clicks btn_down (p ∷ ps) =
    let (down, click) = on_button btn_down p.left_btn in click ∷ clicks down ps
