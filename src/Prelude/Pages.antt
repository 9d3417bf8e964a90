-- ===== src/Prelude/Pages.antt =====
-- Filters, and the pages of a list that LIMIT and OFFSET cut out.
use Prim.Native.Nat.{ℕ, zero, suc, ◌+◌, ◌-◌, ◌≤◌, min}
use mathlib.Core.Path.{◌≡◌, refl, ap, ◌∙◌}
use mathlib.Core.Bool.{Bool, true, false, not, ◌||◌}
use mathlib.Core.Option.{Option, none, some}
use mathlib.Core.List.{List, [], ◌∷◌, ◌++◌}
use native.Mathlib.Omega.{arith}
use x_beacon.Prelude.Tests.{if◌then◌else◌, ltb, ◌==◌}
use x_beacon.Prelude.Int.{ℤ, pos, negsuc, ltz, lez}
use x_beacon.Prelude.Lists.{length}

abbrev pub magnitude : ℤ → ℕ
magnitude (pos n) = n
magnitude (negsuc n) = 0

-- Why a window of time is refused: `false` for a missing or an empty one, `true` for one that is
-- wider than allowed.
unfoldable pub window_fault : ℕ → ℕ → ℕ → Option Bool
window_fault widest start end =
    if (start == 0) || ((end == 0) || not (ltb start end))
    then some false
    else if ltb widest (end - start)
    then some true
    else none

-- how the queries of the admin endpoints bound a page: at most 200 rows
unfoldable pub page_limit : ℤ → ℤ
page_limit limit = if lez limit (pos 0) || ltz (pos 200) limit then pos 50 else limit

unfoldable pub page_offset : ℤ → ℤ
page_offset offset = if ltz offset (pos 0) then pos 0 else offset

pub page_offset-pos : (n : ℕ) → page_offset (pos n) ≡ pos n
unfolding page_offset
page_offset-pos n = ground arith

pub limit_positive :
    (limit : ℤ) → (1 ≤ magnitude (page_limit limit)) × (magnitude (page_limit limit) ≤ 200)
unfolding page_limit
limit_positive (pos n) = ground arith
limit_positive (negsuc n) = ground arith

module _ {A : Type 0} where
  unfoldable pub filter_rows : (A → Bool) → List A → List A
  filter_rows p [] = []
  filter_rows p (r ∷ t) = let rest = filter_rows p t in if p r then r ∷ rest else rest

  -- LIMIT and OFFSET
  unfoldable pub page : ℕ → ℕ → List A → List A
  page zero offset t = []
  page (suc n) offset [] = []
  page (suc n) zero (r ∷ t) = r ∷ page n zero t
  page (suc n) (suc offset) (r ∷ t) = page (suc n) offset t

  abbrev pub drop : ℕ → List A → List A
  drop zero t = t
  drop (suc n) [] = []
  drop (suc n) (r ∷ t) = drop n t

  -- COUNT(*) OVER () stands in each row of the page, so an empty page has no total
  unfoldable pub page_total : ℕ → List A → ℕ
  page_total count [] = 0
  page_total count (r ∷ t) = count

  pub page-length :
      (n offset : ℕ) (t : List A) → length (page n offset t) ≡ min n (length t - offset)
  unfolding page
  page-length zero offset t = omega arith
  page-length (suc n) offset [] = omega arith
  page-length (suc n) zero (r ∷ t) = omega (arith, page-length n zero t)
  page-length (suc n) (suc offset) (r ∷ t) = omega (arith, page-length (suc n) offset t)

  pub total_cases :
      (count : ℕ) (rows : List A)
      → (1 ≤ length rows → page_total count rows ≡ count)
        × (length rows ≡ 0 → page_total count rows ≡ 0)
  unfolding page_total
  total_cases count [] = (λ h. absurd (omega arith), λ h. refl)
  total_cases count (r ∷ t) = (λ h. refl, λ h. absurd (omega arith))

  pub drop-past : (n : ℕ) (t : List A) → length t ≤ n → drop n t ≡ []
  drop-past zero [] h = refl
  drop-past zero (r ∷ t) h = absurd (omega arith)
  drop-past (suc n) [] h = refl
  drop-past (suc n) (r ∷ t) h = drop-past n t (omega arith)

  -- a page, and what comes after it
  pub page-drop :
      (n offset : ℕ) (t : List A)
      → page n offset t ++ drop (offset + length (page n offset t)) t ≡ drop offset t
  unfolding page
  page-drop zero offset t = let e : offset + 0 ≡ offset = omega arith in ap (λ k. drop k t) e
  page-drop (suc n) zero [] = refl
  page-drop (suc n) (suc offset) [] =
      let e : suc offset + 0 ≡ suc offset = omega arith in ap (λ k. drop k []) e
  page-drop (suc n) zero (r ∷ t) =
      let size = length (page n zero t) in
      let e : 0 + suc size ≡ suc (0 + size) = omega arith in
      ap (◌∷◌ r) (ap (λ k. page n zero t ++ drop k (r ∷ t)) e ∙ page-drop n zero t)
  page-drop (suc n) (suc offset) (r ∷ t) =
      let size = length (page (suc n) offset t) in
      let e : suc offset + size ≡ suc (offset + size) = omega arith in
      ap (λ k. page (suc n) offset t ++ drop k (r ∷ t)) e ∙ page-drop (suc n) offset t
