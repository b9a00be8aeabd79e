-- ===== src/DeviceId/Free.antt =====
-- src/lib/device-id.ts: the id that a device gets is free, so no other device has its tree.
use io_broker_govee_smart.Base.{
  false, ◌||◌, List, [], ◌∷◌, ◌++◌, Option, none, some, arith, ◌≡◌, refl, sym, ap, ◌∙◌, Bool-cases,
  inl, inr, if_cases,
}
use io_broker_govee_smart.Text.{Text, text_eq, after_prefix}
use io_broker_govee_smart.TextMap.{TextMap, find_key, text_eq_iff}
use io_broker_govee_smart.DeviceId.{
  reserved_device_ids, has_id, is_held, last_four, id_of_piece, model_part, id_piece, device_id_for,
  device_folder, Entry, DeviceIdRegistry, push_some, ids_in, fresh_prefix,
}
use io_broker_govee_smart.DeviceId.Counted.{counted_free}

has_id-append :
    (id : Text) (xs ys : List Text) → has_id id (xs ++ ys) ≡ (has_id id xs || has_id id ys)
has_id-append id [] ys = refl
has_id-append id (x ∷ xs) ys = ground (arith, has_id-append id xs ys)

pub device_id_for-free :
    (sku device_id : Text) (taken : List Text)
    → is_held taken (device_id_for sku device_id taken) ≡ false
unfolding device_id_for
device_id_for-free sku device_id taken = go (id_piece device_id)
  where
    go : (piece : Text) → is_held taken (id_of_piece (model_part sku) piece taken) ≡ false
    go [] = counted_free (model_part sku) taken
    go (c ∷ piece) =
        if_cases (λ id. is_held taken id ≡ false)
          (is_held taken (model_part sku ++ (b'-' ∷ last_four (c ∷ piece))))
          (λ _. counted_free (model_part sku ++ (b'-' ∷ c ∷ piece)) taken) (λ e. e)

after_prefix-append : (p s : Text) → after_prefix p (p ++ s) ≡ some s
unfolding after_prefix
after_prefix-append [] s = refl
after_prefix-append (c ∷ p) s = ground (arith, after_prefix-append p s)

-- A tree whose id is not among the ids of its folder is recorded for no device.
ids_in-find_key :
    (folder id : Text) (m : TextMap Entry)
    → has_id id (ids_in folder m) ≡ false
    → find_key ((folder ++ b'.' ∷ []) ++ id) m ≡ none
unfolding ids_in
ids_in-find_key folder id [] h = refl
ids_in-find_key folder id (e ∷ m) h =
    elim (Bool-cases (text_eq ((folder ++ b'.' ∷ []) ++ id) e.0)) [
      | inl same ↦
          let p = folder ++ b'.' ∷ [] in
          let q : after_prefix p e.0 ≡ some id =
            ap (after_prefix p) (sym ((text_eq_iff (p ++ id) e.0).0 same))
            ∙ after_prefix-append p id in
          ground (arith, text_eq_iff id id, q)
      | inr other ↦
          rw other (ids_in-find_key folder id m (rest (after_prefix (folder ++ b'.' ∷ []) e.0) h))
    ]
  where
    rest :
        (o : Option Text)
        → has_id id (push_some o (ids_in folder m)) ≡ false
        → has_id id (ids_in folder m) ≡ false
    rest none k = k
    rest (some other) k = ground arith

pub fresh_prefix-free :
    (r : DeviceIdRegistry) (sku device_id : Text)
    → find_key (fresh_prefix r sku device_id) r.by_prefix ≡ none
fresh_prefix-free r sku device_id =
    let ids = ids_in (device_folder sku) r.by_prefix in
    let id = device_id_for sku device_id ids in
    ids_in-find_key (device_folder sku) id r.by_prefix (
      ground
        (arith, device_id_for-free sku device_id ids, has_id-append id ids reserved_device_ids))
