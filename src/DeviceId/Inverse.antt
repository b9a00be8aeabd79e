-- ===== src/DeviceId/Inverse.antt =====
-- src/lib/device-id.ts (DeviceIdRegistry): the two maps name each other's entries.
use mathlib.Core.Path.{subst}
use io_broker_govee_smart.Base.{
  Bool, false, ◌||◌, Option, none, some, arith, ◌≡◌, refl, sym, ap, ◌∙◌, Bool-cases, inl, inr,
  if_cases, is_some,
}
use io_broker_govee_smart.Text.{Text, text_eq}
use io_broker_govee_smart.TextMap.{
  TextMap, find_key, append_key, delete_key, text_eq_iff, find_key-append_key, find_key-delete_key,
}
use io_broker_govee_smart.DeviceId.{
  map_key, Entry, DeviceIdRegistry, entry_key, seed, fresh_prefix, known_or_new, prefix_for,
  release_entry, release, release_assigned, keep_unmoved,
}

-- Every entry of `m` stands under its `f`, and `n` has it under its `g`.
abbrev pub Linked : (Entry → Text) → (Entry → Text) → TextMap Entry → TextMap Entry → Type 0
Linked f g m n =
    (k : Text) (e : Entry) → find_key k m ≡ some e → (f e ≡ k) × (find_key (g e) n ≡ some e)

pub record IsInverse (r : DeviceIdRegistry) : Type 0 where
  pub named : Linked entry_key (λ e. e.prefix) r.by_key r.by_prefix
  pub placed : Linked (λ e. e.prefix) entry_key r.by_prefix r.by_key

-- Both maps at once, so that one lemma serves both directions.
module _ (f g : Entry → Text) (m n : TextMap Entry) (link : Linked f g m n) where
  -- A new entry under an `f` and a `g` that are not recorded.
  add-Linked :
      (e : Entry)
      → find_key (f e) m ≡ none
      → find_key (g e) n ≡ none
      → Linked f g (append_key (f e) e m) (append_key (g e) e n)
  add-Linked e no_f no_g k d q = elim (Bool-cases (text_eq (f e) k)) [
    | inl same ↦
        let found = find_key-append_key (f e) k e m no_f in
        let e_is_d : e ≡ d = ground (arith, found) in
        subst (λ (x : Entry). (f x ≡ k) × (find_key (g x) (append_key (g e) e n) ≡ some x)) e_is_d
          (
            (text_eq_iff (f e) k).0 same,
            ground (arith, find_key-append_key (g e) (g e) e n no_g, text_eq_iff (g e) (g e)),
          )
    | inr other ↦
        let found = find_key-append_key (f e) k e m no_f in
        let old = link k d (ground (arith, found)) in
        (
          old.0,
          ground (arith, find_key-append_key (g e) (g d) e n no_g, text_eq_iff (g e) (g d), old.1),
        )
  ]

  -- An entry is deleted from both maps.
  delete-Linked :
      (e : Entry) → find_key (g e) n ≡ some e → Linked f g (delete_key (f e) m) (delete_key (g e) n)
  delete-Linked e at_g k d q = elim (Bool-cases (text_eq (f e) k)) [
    | inl same ↦ let gone = find_key-delete_key (f e) k m in absurd (ground (arith, gone))
    | inr other ↦
        let kept = find_key-delete_key (f e) k m in
        let old = link k d (ground (arith, kept)) in
        let apart : text_eq (g e) (g d) ≡ false = elim (Bool-cases (text_eq (g e) (g d))) [
          | inr no_more ↦ no_more
          | inl same_g ↦
              let here : find_key (g e) n ≡ some d =
                subst (λ (t : Text). find_key t n ≡ some d)
                  (sym ((text_eq_iff (g e) (g d)).0 same_g)) old.1 in
              let e_is_d : e ≡ d = cc in
              let f_is_k : f e ≡ k = ap f e_is_d ∙ old.0 in ground (arith, text_eq_iff (f e) k)
        ] in
        (old.0, ground (arith, find_key-delete_key (g e) (g d) n, old.1))
  ]

pub seed-IsInverse :
    (r : DeviceIdRegistry) (sku device_id prefix : Text)
    → IsInverse r
    → IsInverse (seed r sku device_id prefix).0
unfolding seed
seed-IsInverse r sku device_id prefix h =
    let e : Entry = record { sku = sku; device_id = device_id; prefix = prefix } in
    if_cases (λ (s : DeviceIdRegistry × Bool). IsInverse s.0)
      (is_some (find_key (map_key sku device_id) r.by_key) || is_some (find_key prefix r.by_prefix))
      (λ _. h)
      (λ q.
        let no_key : find_key (map_key sku device_id) r.by_key ≡ none = ground arith in
        let no_tree : find_key prefix r.by_prefix ≡ none = ground arith in
        record {
          named =
              add-Linked entry_key (λ d. d.prefix) r.by_key r.by_prefix h.named e no_key no_tree;
          placed =
              add-Linked (λ d. d.prefix) entry_key r.by_prefix r.by_key h.placed e no_tree no_key;
        })

release_entry-IsInverse :
    (r : DeviceIdRegistry) (prefix : Text) (o : Option Entry)
    → find_key prefix r.by_prefix ≡ o
    → IsInverse r
    → IsInverse (release_entry r prefix o)
release_entry-IsInverse r prefix none q h = h
release_entry-IsInverse r prefix (some e) q h =
    let p = h.placed prefix e q in
    let at : find_key e.prefix r.by_prefix ≡ some e =
      subst (λ (t : Text). find_key t r.by_prefix ≡ some e) (sym p.0) q in
    subst
      (λ (t : Text). IsInverse (record r {
        by_key = delete_key (entry_key e) r.by_key;
        by_prefix = delete_key t r.by_prefix;
      }))
      p.0
      (record {
        named = delete-Linked entry_key (λ d. d.prefix) r.by_key r.by_prefix h.named e at;
        placed = delete-Linked (λ d. d.prefix) entry_key r.by_prefix r.by_key h.placed e p.1;
      })

pub release-IsInverse :
    (r : DeviceIdRegistry) (prefix : Text) → IsInverse r → IsInverse (release r prefix)
unfolding release
release-IsInverse r prefix h = release_entry-IsInverse r prefix (find_key prefix r.by_prefix) refl h

release_assigned-IsInverse :
    (r : DeviceIdRegistry) (o : Option Entry) → IsInverse r → IsInverse (release_assigned r o)
release_assigned-IsInverse r none h = h
release_assigned-IsInverse r (some e) h = release-IsInverse r e.prefix h

pub keep_unmoved-IsInverse :
    (r : DeviceIdRegistry) (sku device_id prefix : Text)
    → IsInverse r
    → IsInverse (keep_unmoved r sku device_id prefix)
unfolding keep_unmoved
keep_unmoved-IsInverse r sku device_id prefix h =
    let o = find_key (map_key sku device_id) r.by_key in
    let s =
      seed-IsInverse (release_assigned r o) sku device_id prefix
        (release_assigned-IsInverse r o h) in
    record { named = s.named; placed = s.placed }

known_or_new-IsInverse :
    (r : DeviceIdRegistry) (sku device_id : Text) (o : Option Entry)
    → IsInverse r
    → IsInverse (known_or_new r sku device_id o).0
known_or_new-IsInverse r sku device_id (some e) h = h
known_or_new-IsInverse r sku device_id none h =
    seed-IsInverse r sku device_id (fresh_prefix r sku device_id) h

pub prefix_for-IsInverse :
    (r : DeviceIdRegistry) (sku device_id : Text)
    → IsInverse r
    → IsInverse (prefix_for r sku device_id).0
unfolding prefix_for
prefix_for-IsInverse r sku device_id h =
    known_or_new-IsInverse r sku device_id (find_key (map_key sku device_id) r.by_key) h
