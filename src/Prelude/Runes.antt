-- ===== src/Prelude/Runes.antt =====
-- Slices of a text, by runes.
use Prim.Native.Nat.{ℕ, zero, suc, ◌≤◌}
use Prim.Native.String as Text
use Prim.Native.String.{String, ◌++◌ as append}
use mathlib.Core.Path.{◌≡◌, ap, ◌∙◌}
use native.Mathlib.Omega.{arith}
use text.Mathlib.TextLemmas.{nil-append, cons-append}

-- the runes of a text up to a position, and those behind it
unfoldable pub take_runes : ℕ → String → String
take_runes zero s = ""
take_runes (suc n) Text.[] = ""
take_runes (suc n) (Text.◌∷◌ c s) = Text.◌∷◌ c (take_runes n s)

unfoldable pub drop_runes : ℕ → String → String
drop_runes zero s = s
drop_runes (suc n) Text.[] = ""
drop_runes (suc n) (Text.◌∷◌ c s) = drop_runes n s

pub take-drop : (n : ℕ) (s : String) → append (take_runes n s) (drop_runes n s) ≡ s
unfolding take_runes drop_runes
take-drop zero s = nil-append s
take-drop (suc n) Text.[] = nil-append ""
take-drop (suc n) (Text.◌∷◌ c s) =
    cons-append c (take_runes n s) (drop_runes n s) ∙ ap (Text.◌∷◌ c) (take-drop n s)

pub count-drop : (n : ℕ) (s : String) → Text.count (drop_runes n s) ≤ Text.count s
unfolding drop_runes
count-drop zero s = omega arith
count-drop (suc n) Text.[] = omega arith
count-drop (suc n) (Text.◌∷◌ c s) = omega (arith, count-drop n s, Text.count.cons c s)
