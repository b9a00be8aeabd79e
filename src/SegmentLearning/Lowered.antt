-- ===== src/SegmentLearning/Lowered.antt =====
-- src/lib/device-manager.ts: when the segment count of a device falls.
use io_broker_govee_smart.Base.{
  ℕ, ◌+◌, ◌≤◌, ◌<◌, max, Bool, true, false, not, ◌&&◌, ◌||◌, List, [], ◌∷◌, Option, none, some,
  arith, ◌≡◌, refl, ap, ◌∙◌, leb, ltb, ◌==◌, is_some, if_cases,
}
use io_broker_govee_smart.Device.{GoveeDevice}
use io_broker_govee_smart.Device.SegmentCount.{plausible_segment_count, resolve_segment_count}
use io_broker_govee_smart.SegmentList.{holds_index}
use io_broker_govee_smart.SegmentWizard.Restore.{segment_count_max}
use io_broker_govee_smart.SegmentPush.{MqttSegmentData}
use io_broker_govee_smart.SnapshotFrames.{segment_count_from_snapshot_frames}
use io_broker_govee_smart.SegmentLearning.{
  Strip, Action, current_count, with_count, adopt_segment_count, is_count, judge,
  may_lower_segment_count, count_seen, is_empty, confirm_count, finish_push,
}

-- A count that waits is one of the ends.
unfoldable pub held : List ℕ → Option ℕ → Bool
held ends none = true
held ends (some n) = leb 1 n && (leb n segment_count_max && holds_index n ends)

-- What a step leaves: a count that waits is one of the ends, and so is the count of the device, where
-- it fell.
abbrev pub IsHeld : Option ℕ → List ℕ → Strip → Strip → Type 0
IsHeld quirk ends s t =
    (held ends t.deferred ≡ true)
    × ((leb (current_count quirk s) (current_count quirk t)
          || holds_index (current_count quirk t) ends)
        ≡ true)

pub resolve-with_count :
    (quirk : Option ℕ) (d : GoveeDevice) (n : ℕ)
    → is_some (plausible_segment_count quirk) ≡ false
    → 1 ≤ n
    → n ≤ segment_count_max
    → (resolve_segment_count quirk (record d { segment_count = some n })).0 ≡ n
unfolding resolve_segment_count plausible_segment_count
resolve-with_count none d n free lo hi = ground arith
resolve-with_count (some k) d n free lo hi = ground arith

-- With a quirk a count that is adopted changes nothing.
pub resolve_locked :
    (quirk : Option ℕ) (d : GoveeDevice) (n : ℕ)
    → is_some (plausible_segment_count quirk) ≡ true
    → (resolve_segment_count quirk (record d { segment_count = some n })).0
      ≡ (resolve_segment_count quirk d).0
unfolding resolve_segment_count plausible_segment_count
resolve_locked none d n locked = ground arith
resolve_locked (some k) d n locked = ground arith

count_seen-from : (count : ℕ) (ss : List MqttSegmentData) → count ≤ count_seen count ss
count_seen-from count [] = omega arith
count_seen-from count (s ∷ ss) = omega (arith, count_seen-from (max count (s.index + 1)) ss)

pub count_seen_positive : (ss : List MqttSegmentData) → is_empty ss ≡ false → 1 ≤ count_seen 0 ss
count_seen_positive [] h = absurd (ground arith)
count_seen_positive (s ∷ ss) h = omega (arith, count_seen-from (max 0 (s.index + 1)) ss)

judge-held :
    (s : Strip) (seen : ℕ) (ends : List ℕ) (o : Option ℕ)
    → held ends s.deferred ≡ true
    → held ends (some seen) ≡ true
    → held ends (judge s seen o).0.deferred ≡ true
unfolding held
judge-held s seen ends none h k = k
judge-held s seen ends (some reference) h k = h

judge-device : (s : Strip) (seen : ℕ) (o : Option ℕ) → (judge s seen o).0.device ≡ s.device
judge-device s seen none = refl
judge-device s seen (some reference) = refl

-- Judging a lower count leaves the device, and lets a count through, or wait, only at the end of a
-- complete push.
pub record IsJudged (s : Strip) (ends : List ℕ) (seen : ℕ) (m : Strip × Bool) : Type 0 where
  pub device : m.0.device ≡ s.device
  pub waits : held ends m.0.deferred ≡ true
  pub lowers : (not m.1 || holds_index seen ends) ≡ true

pub may_lower-IsJudged :
    (s : Strip) (seen : ℕ) (complete trail_guess : Bool) (ends : List ℕ)
    → held ends s.deferred ≡ true
    → (not complete || held ends (some seen)) ≡ true
    → IsJudged s ends seen (may_lower_segment_count s seen complete trail_guess)
unfolding may_lower_segment_count
may_lower-IsJudged s seen false guess ends h k = record { device = refl; waits = h; lowers = refl }
may_lower-IsJudged s seen true false ends h k = record {
  device = refl;
  waits = h;
  lowers = unfold held in ground arith;
}
may_lower-IsJudged s seen true true ends h k =
    let o = segment_count_from_snapshot_frames s.masks in
    record {
      device = judge-device s seen o;
      waits = judge-held s seen ends o h k;
      lowers = unfold held in ground arith;
    }

pub with_count-IsHeld :
    (quirk : Option ℕ) (s t : Strip) (seen : ℕ) (ends : List ℕ)
    → t.device ≡ s.device
    → is_some (plausible_segment_count quirk) ≡ false
    → 1 ≤ seen
    → seen ≤ segment_count_max
    → held ends t.deferred ≡ true
    → (leb (current_count quirk s) seen || holds_index seen ends) ≡ true
    → IsHeld quirk ends s (with_count t seen)
with_count-IsHeld quirk s t seen ends same free lo hi h k =
    (h, ground (arith, resolve-with_count quirk t.device seen free lo hi))

confirm_count-IsHeld :
    (quirk : Option ℕ) (s t : Strip) (locked : Bool) (seen current : ℕ) (ends : List ℕ)
    (segments : List MqttSegmentData)
    → t.device ≡ s.device
    → is_some (plausible_segment_count quirk) ≡ locked
    → current_count quirk s ≡ current
    → 1 ≤ seen
    → seen ≤ segment_count_max
    → held ends t.deferred ≡ true
    → IsHeld quirk ends s (confirm_count t locked seen current segments).0
unfolding confirm_count
confirm_count-IsHeld quirk s t locked seen current ends segments same q c lo hi h =
    if_cases (λ (r : Strip × List Action). IsHeld quirk ends s r.0)
      (not locked && ((seen == current) && not (is_count seen t.device.segment_count)))
      (λ e. with_count-IsHeld quirk s t seen ends same (q ∙ ground arith) lo hi h (ground arith))
      (λ e. (h, ground (arith, ap (λ (d : GoveeDevice). (resolve_segment_count quirk d).0) same)))

pub finish_push-IsHeld :
    (quirk : Option ℕ) (s : Strip) (segments : List MqttSegmentData) (seen : ℕ) (ends : List ℕ)
    (m : Strip × Bool)
    → 1 ≤ seen
    → seen ≤ segment_count_max
    → IsJudged s ends seen m
    → IsHeld quirk ends s (finish_push quirk s segments seen m).0
unfolding adopt_segment_count
finish_push-IsHeld quirk s segments seen ends (t, lower) lo hi j =
    let locked = is_some (plausible_segment_count quirk) in
    let current = current_count quirk s in
    let small : ltb segment_count_max seen ≡ false = ground arith in
    rw small (
      if_cases (λ (r : Strip × List Action). IsHeld quirk ends s r.0)
        (not locked && (ltb current seen || lower))
        (λ e.
          with_count-IsHeld quirk s t seen ends j.device (ground arith) lo hi j.waits
            (ground (arith, j.lowers)))
        (λ e.
          confirm_count-IsHeld quirk s t locked seen current ends segments j.device refl refl lo hi
            j.waits))

-- A push whose count is past the protocol leaves the device.
pub finish_push_big :
    (quirk : Option ℕ) (s : Strip) (segments : List MqttSegmentData) (seen : ℕ) (m : Strip × Bool)
    → segment_count_max < seen
    → (finish_push quirk s segments seen m).0 ≡ s
finish_push_big quirk s segments seen (t, lower) h = ground arith
