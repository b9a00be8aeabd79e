-- ===== src/DeviceId/Distinct.antt =====
-- src/lib/device-id.ts (DeviceIdRegistry): a tree belongs to one device, and a device has one tree.
use mathlib.Core.Path.{subst}
use io_broker_govee_smart.Base.{
  List, [], ◌∷◌, Option, none, some, arith, ◌≡◌, refl, sym, ap, ◌∙◌, Bool-cases, inl, inr,
}
use io_broker_govee_smart.Text.{Text, text_eq}
use io_broker_govee_smart.TextMap.{find_key, text_eq_iff, find_key-append_key}
use io_broker_govee_smart.DeviceId.{
  map_key, Entry, DeviceIdRegistry, make_registry, entry_key, seed, fresh_prefix, known_or_new,
  prefix_for, release, keep_unmoved,
}
use io_broker_govee_smart.DeviceId.Free.{fresh_prefix-free}
use io_broker_govee_smart.DeviceId.Inverse.{
  IsInverse, seed-IsInverse, release-IsInverse, keep_unmoved-IsInverse, prefix_for-IsInverse,
}

-- What happens to a registry.
pub data Operation : Type 0 where
  seeds keeps_unmoved : Text → Text → Text → Operation
  asks : Text → Text → Operation
  releases : Text → Operation

unfoldable pub operate : DeviceIdRegistry → Operation → DeviceIdRegistry
unfolding seed prefix_for release keep_unmoved
operate r (seeds sku device_id prefix) = (seed r sku device_id prefix).0
operate r (keeps_unmoved sku device_id prefix) = keep_unmoved r sku device_id prefix
operate r (asks sku device_id) = (prefix_for r sku device_id).0
operate r (releases prefix) = release r prefix

unfoldable pub run_operations : DeviceIdRegistry → List Operation → DeviceIdRegistry
unfolding operate
run_operations r [] = r
run_operations r (o ∷ os) = run_operations (operate r o) os

operate-IsInverse : (r : DeviceIdRegistry) (o : Operation) → IsInverse r → IsInverse (operate r o)
unfolding operate
operate-IsInverse r (seeds sku device_id prefix) h = seed-IsInverse r sku device_id prefix h
operate-IsInverse r (keeps_unmoved sku device_id prefix) h =
    keep_unmoved-IsInverse r sku device_id prefix h
operate-IsInverse r (asks sku device_id) h = prefix_for-IsInverse r sku device_id h
operate-IsInverse r (releases prefix) h = release-IsInverse r prefix h

run_operations-IsInverse :
    (r : DeviceIdRegistry) (os : List Operation) → IsInverse r → IsInverse (run_operations r os)
unfolding run_operations
run_operations-IsInverse r [] h = h
run_operations-IsInverse r (o ∷ os) h =
    run_operations-IsInverse (operate r o) os (operate-IsInverse r o h)

-- A device that was asked for is recorded under the tree that was answered.
abbrev IsRecorded : DeviceIdRegistry → Text → Text → Type 0
IsRecorded r key prefix = (e : Entry) × (find_key key r.by_key ≡ some e) × (e.prefix ≡ prefix)

known_or_new-IsRecorded :
    (r : DeviceIdRegistry) (sku device_id : Text) (o : Option Entry)
    → find_key (map_key sku device_id) r.by_key ≡ o
    → (let a = known_or_new r sku device_id o in IsRecorded a.0 (map_key sku device_id) a.1)
unfolding seed
known_or_new-IsRecorded r sku device_id (some e) q = (e, q, refl)
known_or_new-IsRecorded r sku device_id none q =
    let key = map_key sku device_id in
    let prefix = fresh_prefix r sku device_id in
    let e : Entry = record { sku = sku; device_id = device_id; prefix = prefix } in
    (
      e,
      ground (
        arith,
        fresh_prefix-free r sku device_id,
        find_key-append_key key key e r.by_key q,
        text_eq_iff key key,
      ),
      refl,
    )

-- What is recorded stays recorded when another device is asked for.
known_or_new-keeps :
    (r : DeviceIdRegistry) (sku device_id : Text) (o : Option Entry) (k : Text) (e : Entry)
    → find_key (map_key sku device_id) r.by_key ≡ o
    → find_key k r.by_key ≡ some e
    → find_key k (known_or_new r sku device_id o).0.by_key ≡ some e
unfolding seed
known_or_new-keeps r sku device_id (some d) k e q h = h
known_or_new-keeps r sku device_id none k e q h =
    let key = map_key sku device_id in
    let prefix = fresh_prefix r sku device_id in
    let d : Entry = record { sku = sku; device_id = device_id; prefix = prefix } in
    ground (
      arith,
      fresh_prefix-free r sku device_id,
      find_key-append_key key k d r.by_key q,
      text_eq_iff key k,
    )

prefix_for-IsRecorded :
    (r : DeviceIdRegistry) (sku device_id : Text)
    → (let a = prefix_for r sku device_id in IsRecorded a.0 (map_key sku device_id) a.1)
unfolding prefix_for
prefix_for-IsRecorded r sku device_id =
    known_or_new-IsRecorded r sku device_id (find_key (map_key sku device_id) r.by_key) refl

prefix_for-keeps :
    (r : DeviceIdRegistry) (sku device_id k prefix : Text)
    → IsRecorded r k prefix
    → IsRecorded (prefix_for r sku device_id).0 k prefix
unfolding prefix_for
prefix_for-keeps r sku device_id k prefix (e, q, p) = (
  e,
  known_or_new-keeps r sku device_id (find_key (map_key sku device_id) r.by_key) k e refl q,
  p,
)

prefix_for-known :
    (r : DeviceIdRegistry) (sku device_id prefix : Text)
    → IsRecorded r (map_key sku device_id) prefix
    → (prefix_for r sku device_id).1 ≡ prefix
unfolding prefix_for
prefix_for-known r sku device_id prefix (e, q, p) =
    ap (λ (o : Option Entry). (known_or_new r sku device_id o).1) q ∙ p

-- Two devices with one tree are one device.
same_tree :
    (r : DeviceIdRegistry) (j k prefix : Text)
    → IsInverse r
    → IsRecorded r j prefix
    → IsRecorded r k prefix
    → j ≡ k
same_tree r j k prefix h (d, q, p) (e, q', p') =
    let at_d = h.named j d q in
    let at_e = h.named k e q' in
    let same : d.prefix ≡ e.prefix = p ∙ sym p' in
    let d_at_e : find_key e.prefix r.by_prefix ≡ some d =
      subst (λ (t : Text). find_key t r.by_prefix ≡ some d) same at_d.1 in
    let both : some d ≡ some e = sym d_at_e ∙ at_e.1 in
    let d_is_e : d ≡ e = cc in sym at_d.0 ∙ ap entry_key d_is_e ∙ at_e.0

text_eq-same : (s t u v : Text) → (s ≡ t → u ≡ v) → (u ≡ v → s ≡ t) → text_eq s t ≡ text_eq u v
text_eq-same s t u v there back = elim (Bool-cases (text_eq s t)) [
  | inl same ↦ let e = there ((text_eq_iff s t).0 same) in ground (arith, (text_eq_iff u v).1 e)
  | inr other ↦ elim (Bool-cases (text_eq u v)) [
    | inl same ↦ let e = back ((text_eq_iff u v).0 same) in ground (arith, (text_eq_iff s t).1 e)
    | inr apart ↦ other ∙ sym apart
  ]
]

-- Whatever was seeded, asked for, left unmoved or released before: two devices that are asked for
-- get the same tree exactly when their SKU and normalised id make the same key, and a device that
-- was asked for gets the same tree again.
pub prefix_for-distinct :
    (os : List Operation) (sku device_id sku' device_id' : Text)
    → (let r = run_operations make_registry os in
        let first = prefix_for r sku device_id in
        let second = prefix_for first.0 sku' device_id' in
        (text_eq first.1 second.1 ≡ text_eq (map_key sku device_id) (map_key sku' device_id'))
        × ((prefix_for second.0 sku device_id).1 ≡ first.1))
prefix_for-distinct os sku device_id sku' device_id' =
    let r = run_operations make_registry os in
    let first = prefix_for r sku device_id in
    let second = prefix_for first.0 sku' device_id' in
    let key = map_key sku device_id in
    let key' = map_key sku' device_id' in
    let empty : IsInverse make_registry = record { named = λ k e q. cc; placed = λ p e q. cc } in
    let h =
      prefix_for-IsInverse first.0 sku' device_id'
        (prefix_for-IsInverse r sku device_id (run_operations-IsInverse make_registry os empty)) in
    let recorded = prefix_for-IsRecorded r sku device_id in
    let kept = prefix_for-keeps first.0 sku' device_id' key first.1 recorded in
    let asked = prefix_for-IsRecorded first.0 sku' device_id' in
    (
      text_eq-same first.1 second.1 key key'
          (λ same. same_tree second.0 key key' second.1 h (kept.0, kept.1, kept.2 ∙ same) asked)
          (λ same. sym (
            prefix_for-known first.0 sku' device_id' first.1
              (subst (λ (k : Text). IsRecorded first.0 k first.1) same recorded))),
      prefix_for-known second.0 sku device_id first.1 kept,
    )
