-- ===== src/Auth/Keystore/Listing.antt =====
-- Keystore.List of internal/auth/keystore.go, and what its total is worth.
use Prim.Native.String.{◌++◌ as append}
use x_beacon.Prelude.{
  ℕ, suc, ◌-◌, min, ◌≤◌, ◌<◌, ◌≡◌, refl, ap, Bool, ◌||◌, ◌&&◌, String, List, [], ◌∷◌, map, length,
  str_eq, arith,
}
use x_beacon.Prelude.Int.{ℤ}
use x_beacon.Prelude.Pages.{
  magnitude, page_limit, page_offset, limit_positive, filter_rows, page, page_total, page-length,
  total_cases,
}
use x_beacon.Auth.Keystore.{KeyRow, KeyTable, KeyRecord, KeyTools, is_active, record_of}

pub record ListOpts : Type 0 where
  pub name_prefix : String
  pub include_revoked : Bool
  pub limit : ℤ
  pub offset : ℤ

module _ (k : KeyTools) where
  -- the WHERE clause
  unfoldable pub selected : ListOpts → KeyRow → Bool
  selected o r =
      (o.include_revoked || is_active r)
      && (str_eq o.name_prefix "" || k.like r.name (append o.name_prefix "%"))

  -- Keystore.List, without a failure of the driver
  unfoldable pub list_keys : ListOpts → KeyTable → List KeyRecord × ℕ
  unfolding page_limit page_offset selected filter_rows page page_total record_of
  list_keys o t =
      let matching = filter_rows (selected o) t in
      let rows =
        page (magnitude (page_limit o.limit)) (magnitude (page_offset o.offset))
          (k.newest_first matching) in
      (map (record_of k) rows, page_total (length matching) rows)

length-map : (f : KeyRow → KeyRecord) (t : KeyTable) → length (map f t) ≡ length t
length-map f [] = refl
length-map f (r ∷ t) = ap suc (length-map f t)

module _ (k : KeyTools)
    (same_length : (t : KeyTable) → length (KeyTools.newest_first k t) ≡ length t) where
  -- A page of the list has at most 200 records: as many as the limit allows, of the matching keys
  -- that come after the offset. Its total is the number of all matching keys as long as the offset
  -- is below that number, but 0 for an offset past the end. The order of rows drops none.
  list_keys_total :
      (o : ListOpts) (t : KeyTable)
      → (length (list_keys k o t).0
          ≡ min
              (magnitude (page_limit o.limit))
              (length (filter_rows (selected k o) t) - magnitude (page_offset o.offset)))
        × (length (list_keys k o t).0 ≤ 200)
        × (magnitude (page_offset o.offset) < length (filter_rows (selected k o) t)
            → (list_keys k o t).1 ≡ length (filter_rows (selected k o) t))
        × (length (filter_rows (selected k o) t) ≤ magnitude (page_offset o.offset)
            → (list_keys k o t).1 ≡ 0)
  unfolding list_keys
  list_keys_total o t =
      let matching = filter_rows (selected k o) t in
      let rows =
        page (magnitude (page_limit o.limit)) (magnitude (page_offset o.offset))
          (KeyTools.newest_first k matching) in
      let size =
        page-length (magnitude (page_limit o.limit)) (magnitude (page_offset o.offset))
          (KeyTools.newest_first k matching) in
      let counted = length-map (record_of k) rows in
      let ordered = same_length matching in
      let (least, most) = limit_positive o.limit in
      (
        omega (arith, size, counted, ordered),
        omega (arith, size, counted, ordered, most),
        λ h. (total_cases (length matching) rows).0 (omega (arith, size, ordered, least)),
        λ h. (total_cases (length matching) rows).1 (omega (arith, size, ordered)),
      )
