-- ===== src/Reconciler/Evicted.antt =====
-- src/lib/device-manager/reconciler.ts: when a device is evicted.
use io_broker_govee_smart.Base.{
  ℕ, zero, suc, ◌+◌, ◌≤◌, Bool, true, false, not, ◌&&◌, ◌||◌, List, [], ◌∷◌, none, if◌then◌else◌,
  take, any, or_else, leb, arith, ◌≡◌, ◌↔◌, refl, ap, Bool-cases, inl, inr,
}
use io_broker_govee_smart.Reconciler.{
  AccountDevice, ReconcileInput, same_kind, authoritative_kind, source_of, is_owned,
  default_evict_threshold, reconcile_device,
}

-- One pass, as a device meets it: whether it answers on the LAN then.
pub record Pass : Type 0 where
  pub input : ReconcileInput
  pub lan : Bool

unfoldable pub over_pass : AccountDevice → Pass → AccountDevice × Bool
unfolding reconcile_device
over_pass d p = reconcile_device p.input (record d { lan = p.lan })

-- The device after its passes, the latest of which is the first of the list.
unfoldable pub after : AccountDevice → List Pass → AccountDevice
unfolding over_pass
after d [] = d
after d (p ∷ older) = (over_pass (after d older) p).0

-- The device answers on the LAN, or a list that answered has it.
unfoldable pub is_present : AccountDevice → Pass → Bool
is_present d p = p.lan || is_owned p.input d

-- The device is not present, and the list that has to have it was just fetched and answered.
unfoldable pub is_missed : AccountDevice → Pass → Bool
is_missed d p =
    not (is_present d p)
    && (same_kind (authoritative_kind d) p.input.refreshed_source
        && (source_of p.input.sources (authoritative_kind d)).ok)

-- How many of the passes missed the device.
unfoldable pub count_missed : AccountDevice → List Pass → ℕ
count_missed d [] = 0
count_missed d (p ∷ older) =
    let rest = count_missed d older in if is_missed d p then rest + 1 else rest

abbrev pub threshold_of : Pass → ℕ
threshold_of p = or_else p.input.evict_threshold default_evict_threshold

-- The misses since the device was last present.
unfoldable misses : AccountDevice → List Pass → ℕ
misses d [] = 0
misses d (p ∷ older) =
    let before = misses d older in
    if is_present d p then 0 else if is_missed d p then before + 1 else before

-- What the passes leave of a device: all but the LAN flag and the count, which holds the misses.
record IsCounted (d : AccountDevice) (passes : List Pass) (e : AccountDevice) : Type 0 where
  sku : e.sku ≡ d.sku
  device_id : e.device_id ≡ d.device_id
  type : e.type ≡ d.type
  tally : or_else e.account_miss_count 0 ≡ misses d passes

owned-IsCounted :
    (d e : AccountDevice) (input : ReconcileInput) (older : List Pass)
    → IsCounted d older e
    → is_owned input e ≡ is_owned input d
unfolding is_owned
owned-IsCounted d e input older h = rw (h.sku, h.device_id) refl

kind-IsCounted :
    (d e : AccountDevice) (older : List Pass)
    → IsCounted d older e
    → authoritative_kind e ≡ authoritative_kind d
unfolding authoritative_kind
kind-IsCounted d e older h = rw (h.sku, h.type) refl

with_lan :
    (d e : AccountDevice) (lan : Bool) (older : List Pass)
    → IsCounted d older e
    → IsCounted d older (record e { lan = lan })
with_lan d e lan older h = record {
  sku = h.sku;
  device_id = h.device_id;
  type = h.type;
  tally = h.tally;
}

pass-IsCounted :
    (d e : AccountDevice) (p : Pass) (older : List Pass)
    → IsCounted d older e
    → IsCounted d (p ∷ older) (over_pass e p).0
      × ((over_pass e p).1 ≡ (is_missed d p && leb (threshold_of p) (misses d (p ∷ older))))
unfolding over_pass is_missed is_present misses
pass-IsCounted d e p older h =
    let e' : AccountDevice = record e { lan = p.lan } in
    let h' = with_lan d e p.lan older h in
    let owned = owned-IsCounted d e' p.input older h' in
    let kind = kind-IsCounted d e' older h' in
    (
      record {
        sku = ground (arith, h.sku);
        device_id = ground (arith, h.device_id);
        type = ground (arith, h.type);
        tally = ground (arith, h.tally, owned, kind);
      },
      ground (arith, h.tally, owned, kind),
    )

-- The misses are those of a run of latest passes that did not have the device.
misses-window :
    (d : AccountDevice) (passes : List Pass)
    → (k : ℕ) × (any (is_present d) (take k passes) ≡ false)
      × (count_missed d (take k passes) ≡ misses d passes)
unfolding count_missed misses
misses-window d [] = (0, refl, refl)
misses-window d (p ∷ older) =
    let (k, gone, same) = misses-window d older in
    elim (Bool-cases (is_present d p)) [
      | inl here ↦ (0, refl, ground arith)
      | inr away ↦ (suc k, ground arith, ground arith)
    ]

count_missed-misses :
    (d : AccountDevice) (k : ℕ) (passes : List Pass)
    → any (is_present d) (take k passes) ≡ false
    → count_missed d (take k passes) ≤ misses d passes
unfolding count_missed misses
count_missed-misses d zero passes gone = omega arith
count_missed-misses d (suc k) [] gone = omega arith
count_missed-misses d (suc k) (p ∷ older) gone = ground (arith, count_missed-misses d k older)

after-IsCounted :
    (d : AccountDevice) (passes : List Pass)
    → d.account_miss_count ≡ none
    → IsCounted d passes (after d passes)
unfolding after misses
after-IsCounted d [] fresh = record {
  sku = refl;
  device_id = refl;
  type = refl;
  tally = ap (λ o. or_else o 0) fresh;
}
after-IsCounted d (p ∷ older) fresh =
    (pass-IsCounted d (after d older) p older (after-IsCounted d older fresh)).0

-- A device whose count is not started is evicted by a pass exactly when that pass misses it, and at
-- least as many as the threshold of the latest passes missed it while none of them had it.
pub evicted_iff :
    (d : AccountDevice) (p : Pass) (older : List Pass)
    → d.account_miss_count ≡ none
    → ((over_pass (after d older) p).1 ≡ true) ↔ (
        (is_missed d p ≡ true)
        × ((k : ℕ) × (any (is_present d) (take k (p ∷ older)) ≡ false)
            × (threshold_of p ≤ count_missed d (take k (p ∷ older)))))
evicted_iff d p older fresh =
    let decided = (pass-IsCounted d (after d older) p older (after-IsCounted d older fresh)).1 in
    let (k, gone, same) = misses-window d (p ∷ older) in
    (
      λ evicted. (ground (arith, decided), (k, gone, ground (arith, decided))),
      λ (missed, (j, away, enough)).
          ground (arith, decided, count_missed-misses d j (p ∷ older) away),
    )
