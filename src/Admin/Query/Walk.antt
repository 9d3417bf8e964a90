-- ===== src/Admin/Query/Walk.antt =====
-- A client that follows next_offset sees every row once.
use x_beacon.Prelude.{
  ℕ, zero, suc, ◌+◌, ◌≤◌, ◌<◌, ◌≡◌, refl, sym, ap, ◌∙◌, List, [], ◌++◌, length, arith, leb,
  Bool-cases, ◌⊎◌, leb→le, inl, inr,
}
use native.Mathlib.Decide.{dec_lt}
use x_beacon.Prelude.Int.{ℤ, pos, negsuc}
use x_beacon.Prelude.Pages.{page, page_total, drop, page-length, total_cases, drop-past, page-drop}
use x_beacon.Admin.Query.{next_offset}

abbrev pub rest_of : {A : Type 0} → ℤ → (ℕ → List A) → List A
rest_of (negsuc n) rest = []
rest_of (pos n) rest = rest n

-- the pages from an offset on, as a client asks for one after the other
abbrev pub walk : {A : Type 0} → (ℕ → List A × ℤ) → ℕ → ℕ → List A
walk serve zero offset = []
walk serve (suc fuel) offset = (serve offset).0 ++ rest_of (serve offset).1 (walk serve fuel)

next-cases :
    (offset items total : ℕ)
    → ((next_offset (pos offset) items total ≡ negsuc 0) × (total ≤ offset + items))
      ⊎ ((next_offset (pos offset) items total ≡ pos (offset + items)) × (offset + items < total))
unfolding next_offset
next-cases offset items total = elim (Bool-cases (leb total (offset + items))) [
  | inl y ↦ inl (rw y refl, leb→le _ _ y)
  | inr n ↦ inr (rw n refl, ground arith)
]

module _ {A : Type 0} (serve : ℕ → List A × ℤ) (limit : ℕ) (rows : List A) (some_rows : 1 ≤ limit)
    (pages : (offset : ℕ)
      → serve offset ≡ (
        page limit offset rows,
        next_offset
            (pos offset)
            (length (page limit offset rows))
            (page_total (length rows) (page limit offset rows)),
      )) where
  -- With fuel for every row and one more, the pages from an offset on are the rows from there on.
  pub walk-drop :
      (fuel offset : ℕ)
      → length rows < fuel + offset
      → offset ≤ length rows
      → walk serve fuel offset ≡ drop offset rows
  walk-drop zero offset h k = absurd (omega arith)
  walk-drop (suc fuel) offset h k =
      let p = page limit offset rows in
      let size = page-length limit offset rows in
      let (full, empty) = total_cases (length rows) p in
      rw (pages offset) (elim (next-cases offset (length p) (page_total (length rows) p)) [
        | inl (last, over) ↦
            let past : length rows ≤ offset + length p = elim (dec_lt 0 (length p)) [
              | yes some ↦ omega (arith, full (omega arith), over)
              | no none ↦ omega (arith, size)
            ] in
            rw last (
              ap (λ l. p ++ l) (sym (drop-past (offset + length p) rows past))
              ∙ page-drop limit offset rows)
        | inr (next, more) ↦
            let grows : 1 ≤ length p = elim (dec_lt 0 (length p)) [
              | yes some ↦ omega arith
              | no none ↦ absurd (omega (arith, empty (omega arith), more))
            ] in
            let total = full grows in
            rw next (
              ap (λ l. p ++ l)
                (walk-drop fuel (offset + length p) (omega arith) (omega (arith, total, more)))
              ∙ page-drop limit offset rows)
      ])
