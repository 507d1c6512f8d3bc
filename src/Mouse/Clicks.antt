-- ===== src/Mouse/Clicks.antt =====
-- When src/syskrnl/task/mouse.rs reports a click.
use tju_cinea_os.Prelude.{◌≡◌, refl, Bool, ◌&&◌, not, List, [], ◌∷◌, arith}
use tju_cinea_os.Mouse.{MousePackage, on_button, clicks}

-- A package releases the button when the one before it held it down.
unfoldable pub releases : Bool → List MousePackage → List Bool
releases before [] = []
releases before (p ∷ ps) = (before && not p.left_btn) ∷ releases p.left_btn ps

-- Exactly the packages that release the left button are clicks, one each.
pub clicks-releases :
    (before : Bool) (ps : List MousePackage) → clicks before ps ≡ releases before ps
unfolding clicks releases on_button
clicks-releases before [] = refl
clicks-releases before (p ∷ ps) = ground (arith, clicks-releases p.left_btn ps)
