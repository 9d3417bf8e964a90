-- ===== src/RateLimit/Keys.antt =====
-- When two contexts of a rule share a bucket.
use x_beacon.Prelude.{◌≡◌, ◌≢◌, refl, ap, ◌∙◌, sym, [], ◌∷◌, ◌++◌, append_assoc, append-nil, All}
use x_beacon.RateLimit.{Bytes, by_api_key, by_model, KeyContext, Rule, compose_key, namespace}

abbrev pub NoColon : Bytes → Type 0
NoColon s = All (λ b. b ≢ b':') s

-- the first colon separates
split_colon :
    (a b : Bytes) {m n : Bytes}
    → NoColon a
    → NoColon b
    → a ++ b':' ∷ m ≡ b ++ b':' ∷ n
    → (a ≡ b) × (m ≡ n)
split_colon [] [] ha hb e = (refl, cc)
split_colon [] (y ∷ b) ha hb e = absurd (hb.0 (cc))
split_colon (x ∷ a) [] ha hb e = absurd (ha.0 (cc))
split_colon (x ∷ a) (y ∷ b) {m} {n} ha hb e =
    let tails : a ++ b':' ∷ m ≡ b ++ b':' ∷ n = cc in
    let heads : x ≡ y = cc in
    let (same, rest) = split_colon a b ha.1 hb.1 tails in (cc (heads, same), rest)

append_cancel : (xs : Bytes) {a b : Bytes} → xs ++ a ≡ xs ++ b → a ≡ b
append_cancel [] e = e
append_cancel (x ∷ xs) {a} {b} e = let tails : xs ++ a ≡ xs ++ b = cc in append_cancel xs tails

module _ {S : Type 0} (r : Rule S) (pair : r.key_by ≡ by_api_key ∷ by_model ∷ []) where
  key_lem :
      (k : KeyContext)
      → compose_key r k
        ≡ namespace ++ (r.name ++ (b':' ∷ (k.api_key_id ++ (b':' ∷ (k.model ++ [])))))
  unfolding compose_key
  key_lem k = rw pair

  -- Under a rule that keys on the API key and the model, the composed key determines both, as long
  -- as the IDs of the API keys hold no colon: two clients then never share a bucket.
  pub compose_key_separates :
      (j k : KeyContext)
      → NoColon j.api_key_id
      → NoColon k.api_key_id
      → compose_key r j ≡ compose_key r k
      → (j.api_key_id ≡ k.api_key_id) × (j.model ≡ k.model)
  compose_key_separates j k hj hk e =
      let raw = sym (key_lem j) ∙ (e ∙ key_lem k) in
      let dims = append_cancel (b':' ∷ []) (append_cancel r.name (append_cancel namespace raw)) in
      let (ids, models) = split_colon j.api_key_id k.api_key_id hj hk dims in
      (ids, sym (append-nil j.model) ∙ (models ∙ append-nil k.model))

  -- With a colon in an ID they do share one: an ID `a:b` with model `m` has the key of the ID `a`
  -- with model `b:m`.
  pub compose_key_collides :
      (a b m : Bytes)
      → compose_key r (record { api_key_id = a ++ (b':' ∷ b); model = m })
        ≡ compose_key r (record { api_key_id = a; model = b ++ (b':' ∷ m) })
  compose_key_collides a b m =
      key_lem _
      ∙ (ap (λ l. namespace ++ (r.name ++ (b':' ∷ l)))
            (append_assoc a (b':' ∷ b) (b':' ∷ (m ++ []))
              ∙ ap (λ l. a ++ (b':' ∷ l)) (sym (append_assoc b (b':' ∷ m) [])))
          ∙ sym (key_lem _))
