-- ===== src/Auth/Keystore/Uses.antt =====
-- Uses of keys, as Authenticate records them, change nothing of what a key gives.
use x_beacon.Prelude.{
  ℕ, ◌≡◌, ◌⊎◌, refl, ap, ◌∙◌, Bool, ◌&&◌, Option, none, some, String, List, [], ◌∷◌, map, str_eq,
  inl, inr, Bool-cases,
}
use x_beacon.Auth.Keystore.{
  KeyRow, KeyTable, KeyTools, Fault, is_active, find_row, touch_row, decoded_principal,
  principal_row, queried, authenticate_row,
}

module _ (k : KeyTools) where
  abbrev wanted : String → KeyRow → Bool
  wanted hash r = str_eq r.key_hash hash && is_active r

  principal_row-touch :
      (hash other : String) (now : ℕ) (t : KeyTable)
      → principal_row k (find_row (wanted hash) (map (touch_row other now) t))
        ≡ principal_row k (find_row (wanted hash) t)
  unfolding find_row touch_row is_active principal_row decoded_principal
  principal_row-touch hash other now [] = refl
  principal_row-touch hash other now (r ∷ t) =
      let ih = principal_row-touch hash other now t in
      elim (Bool-cases (str_eq r.key_hash other && is_active r)) [
        | inr idle ↦ elim (Bool-cases (wanted hash r)) [
          | inl hit ↦ rw (idle, hit) refl
          | inr miss ↦ rw (idle, miss) ih
        ]
        | inl touched ↦ elim (Bool-cases (wanted hash r)) [
          | inl hit ↦ rw (touched, hit) refl
          | inr miss ↦ rw (touched, miss) ih
        ]
      ]

  authenticate-touch :
      (now now' : ℕ) (key other : String) (t : KeyTable)
      → (authenticate_row k none now key (map (touch_row other now') t)).0
        ≡ (authenticate_row k none now key t).0
  unfolding authenticate_row queried
  authenticate-touch now now' key other t = elim (Bool-cases (str_eq key "")) [
    | inl blank ↦ rw blank refl
    | inr filled ↦ rw filled (principal_row-touch (KeyTools.sha256 k key) other now' t)
  ]

  -- what is left of the rows
  rows_after :
      (fault : Option Fault) (now : ℕ) (key : String) (t : KeyTable)
      → ((authenticate_row k fault now key t).1 ≡ t)
        ⊎ ((authenticate_row k fault now key t).1 ≡ map (touch_row (KeyTools.sha256 k key) now) t)
  unfolding authenticate_row queried
  rows_after none now key t = elim (Bool-cases (str_eq key "")) [
    | inl blank ↦ rw blank (inl refl)
    | inr filled ↦ rw filled (inr refl)
  ]
  rows_after (some f) now key t = elim (Bool-cases (str_eq key "")) [
    | inl blank ↦ rw blank (inl refl)
    | inr filled ↦ elim (Bool-cases f.committed) [
      | inl done ↦ rw (filled, done) (inr refl)
      | inr undone ↦ rw (filled, undone) (inl refl)
    ]
  ]

  -- a use of any key, failed ones included
  pub record Use : Type 0 where
    pub fault : Option Fault
    pub at : ℕ
    pub key : String

  abbrev pub used : List Use → KeyTable → KeyTable
  used [] t = t
  used (u ∷ uses) t = used uses (authenticate_row k u.fault u.at u.key t).1

  authenticate-use :
      (now : ℕ) (key : String) (u : Use) (t : KeyTable)
      → (authenticate_row k none now key (authenticate_row k u.fault u.at u.key t).1).0
        ≡ (authenticate_row k none now key t).0
  authenticate-use now key u t = elim (rows_after u.fault u.at u.key t) [
    | inl same ↦ ap (λ x. (authenticate_row k none now key x).0) same
    | inr touched ↦
        ap (λ x. (authenticate_row k none now key x).0) touched
        ∙ authenticate-touch now u.at key (KeyTools.sha256 k u.key) t
  ]

  pub authenticate-used :
      (now : ℕ) (key : String) (uses : List Use) (t : KeyTable)
      → (authenticate_row k none now key (used uses t)).0 ≡ (authenticate_row k none now key t).0
  authenticate-used now key [] t = refl
  authenticate-used now key (u ∷ uses) t =
      authenticate-used now key uses (authenticate_row k u.fault u.at u.key t).1
      ∙ authenticate-use now key u t
