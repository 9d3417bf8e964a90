-- ===== src/Admin/Keys/Expand.antt =====
-- What the scopes of a request grant once they are expanded.
use Prim.Native.String.{◌++◌ as append}
use x_beacon.Prelude.{
  ◌≡◌, refl, ap, ◌∙◌, sym, Bool, true, false, ◌||◌, ◌&&◌, Result, ok, err, Option, none, some,
  String, List, [], ◌∷◌, ◌++◌, any, str_eq, str_eq_iff, if◌then◌else◌, inl, inr, Bool-cases, arith,
}
use x_beacon.Prelude.Maps.{lookup, put, remove, contains, lookup-put, lookup-remove}
use x_beacon.Auth.{grants, values, has_scope}
use x_beacon.Auth.Keystore.{Scopes}
use x_beacon.Admin.Keys.{split_tuple, add_value, expand_from, expand_scopes}

-- a value of a category is granted, by itself or by the value *
abbrev pub granted : String → String → Scopes → Bool
granted c v s = has_scope (some (record { id = ""; name = ""; scopes = s })) c v

-- a tuple is for a category and for a value, or for all values
abbrev pub is_for : String → String → Option (String × String) → Bool
is_for c v none = false
is_for c v (some (cat, val)) = str_eq cat c && (str_eq val "*" || str_eq val v)

abbrev pub asks : String → String → String → Bool
asks c v tuple = is_for c v (split_tuple tuple)

or_assoc : (a b c : Bool) → ((a || b) || c) ≡ (a || (b || c))
or_assoc a b c = ground arith

or_true : (a : Bool) → (a || true) ≡ true
or_true a = ground arith

or_false : (a : Bool) → a ≡ (a || false)
or_false a = ground arith

grants-append :
    (v b : String) (vs : List String)
    → grants v (vs ++ b ∷ []) ≡ (grants v vs || (str_eq b "*" || str_eq b v))
unfolding grants
grants-append v b [] = ground arith
grants-append v b (x ∷ vs) = ground (arith, grants-append v b vs)

add_value-granted :
    (c v cat val : String) (out : Scopes)
    → granted c v (add_value cat val out)
      ≡ (granted c v out || (str_eq cat c && (str_eq val "*" || str_eq val v)))
unfolding add_value has_scope
add_value-granted c v cat val out = elim (Bool-cases (str_eq cat c)) [
  | inl y ↦
      let same : cat ≡ c = (str_eq_iff cat c).0 y in
      let now = values (lookup cat out) ++ val ∷ [] in
      ap (λ o. grants v (values o)) (lookup-put cat c now (remove cat out))
      ∙ rw y (
          ap (λ b. grants v (values (lookup b out) ++ val ∷ [])) same
          ∙ grants-append v val (values (lookup c out)))
  | inr n ↦
      let now = values (lookup cat out) ++ val ∷ [] in
      let there : lookup c (put cat now (remove cat out)) ≡ lookup c out =
        lookup-put cat c now (remove cat out) ∙ rw n (lookup-remove cat c out ∙ rw n refl) in
      ap (λ o. grants v (values o)) there ∙ rw n (or_false (grants v (values (lookup c out))))
]

-- the tuples seen are granted
abbrev Kept : String → String → List String → Scopes → Type 0
Kept c v seen out =
    (tuple : String) → contains tuple seen ≡ true → asks c v tuple ≡ true → granted c v out ≡ true

expand_from-granted :
    (c v : String) (flat seen : List String) (out s : Scopes)
    → Kept c v seen out
    → expand_from flat seen out ≡ ok s
    → granted c v s ≡ (granted c v out || any (asks c v) flat)
unfolding expand_from contains
expand_from-granted c v [] seen out s kept h =
    let same : out ≡ s = cc in rw⁻¹ same (or_false (granted c v out))
expand_from-granted c v (tuple ∷ flat) seen out s kept h =
    go (split_tuple tuple) refl h
      (λ seen out kept h. expand_from-granted c v flat seen out s kept h)
  where
    kept_more :
        (out' : Scopes)
        → granted c v out' ≡ (granted c v out || asks c v tuple)
        → Kept c v (tuple ∷ seen) out'
    kept_more out' added other there asked = elim (Bool-cases (str_eq tuple other)) [
      | inl y ↦
          let same : tuple ≡ other = (str_eq_iff tuple other).0 y in
          let wanted : asks c v tuple ≡ true = ap (asks c v) same ∙ asked in
          added ∙ (ap (λ b. granted c v out || b) wanted ∙ or_true (granted c v out))
      | inr n ↦
          let old : granted c v out ≡ true = kept other (rw n at there) asked in
          added ∙ ap (λ b. b || asks c v tuple) old
    ]

    go :
        (o : Option (String × String))
        → split_tuple tuple ≡ o
        → elim o as (λ o. Result String Scopes) [
          | none ↦ err (append "scope " (append tuple " must be in `category:value` form"))
          | some (cat, val) ↦
              expand_from flat
                (if contains tuple seen then seen else tuple ∷ seen)
                (if contains tuple seen then out else add_value cat val out)
        ]
          ≡ ok s
        → ((seen : List String) (out : Scopes)
            → Kept c v seen out
            → expand_from flat seen out ≡ ok s
            → granted c v s ≡ (granted c v out || any (asks c v) flat))
        → granted c v s ≡ (granted c v out || (asks c v tuple || any (asks c v) flat))
    go none e h rest = cc
    go (some (cat, val)) e h rest = elim (Bool-cases (contains tuple seen)) [
      | inl y ↦
          let ih = rest seen out kept (rw y at h) in
          elim (Bool-cases (asks c v tuple)) [
            | inl a ↦ let known = kept tuple y a in ih ∙ rw (a, known) refl
            | inr b ↦ ih ∙ rw b refl
          ]
      | inr n ↦
          let out' = add_value cat val out in
          let named : asks c v tuple ≡ is_for c v (some (cat, val)) = ap (is_for c v) e in
          let added : granted c v out' ≡ (granted c v out || asks c v tuple) =
            add_value-granted c v cat val out ∙ ap (λ b. granted c v out || b) (sym named) in
          let ih = rest (tuple ∷ seen) out' (kept_more out' added) (rw n at h) in
          ih
          ∙ (ap (λ b. b || any (asks c v) flat) added
              ∙ or_assoc (granted c v out) (asks c v tuple) (any (asks c v) flat))
    ]

-- The scopes that a request lists grant, once they are expanded, just the values that one of its
-- tuples names for that category, or all values of a category that a tuple has with *.
pub expand_scopes-granted :
    (c v : String) (flat : List String) (s : Scopes)
    → expand_scopes flat ≡ ok s
    → granted c v s ≡ any (asks c v) flat
unfolding expand_scopes contains has_scope lookup
expand_scopes-granted c v flat s h = expand_from-granted c v flat [] [] s (λ tuple none_seen. cc) h
