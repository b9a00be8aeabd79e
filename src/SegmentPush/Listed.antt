-- ===== src/SegmentPush/Listed.antt =====
-- src/lib/device-manager/lookups.ts (parseMqttSegmentData): the list of segments that is read.
use io_broker_govee_smart.Base.{
  ℕ, ◌+◌, ◌-◌, ◌*◌, ◌≤◌, Bool, true, false, not, ◌&&◌, ◌||◌, List, [], ◌∷◌, Option, none, some,
  arith, ◌≡◌, refl, leb, ltb, ◌==◌, take,
}
use io_broker_govee_smart.SegmentPush.{
  MqttSegmentData, ParsedMqttSegments, Packet, Scan, max_scan, has_three_slots, slots_per_packet,
  read_packets, is_empty_slot, repeats, end_at, trim_slots, is_gapless, sort_packets, scan_commands,
  parse_scan, parse_mqtt_segment_data,
}
use io_broker_govee_smart.SegmentPush.Scanned.{
  are_readable, ascend, scan_commands-are_readable, sort_packets-ascend,
}

-- The indices ascend, from `least` on, below 76.
unfoldable pub indices_ascend : ℕ → List MqttSegmentData → Bool
indices_ascend least [] = true
indices_ascend least (s ∷ ss) =
    leb least s.index && (ltb s.index 76 && indices_ascend (s.index + 1) ss)

-- The indices are `i`, `i + 1` and on.
unfoldable pub indices_count : ℕ → List MqttSegmentData → Bool
indices_count i [] = true
indices_count i (s ∷ ss) = (s.index == i) && indices_count (i + 1) ss

-- The last segment is no filler.
unfoldable pub ends_lit : Option MqttSegmentData → List MqttSegmentData → Bool
ends_lit before [] = true
ends_lit before (s ∷ []) = not (is_empty_slot s || repeats before s)
ends_lit before (s ∷ t ∷ ts) = ends_lit (some s) (t ∷ ts)

read_packets-ascend :
    (three : Bool) (least : ℕ) (ps : List Packet)
    → 1 ≤ least
    → ascend least ps ≡ true
    → indices_ascend ((least - 1) * slots_per_packet three) (read_packets three ps) ≡ true
unfolding ascend read_packets indices_ascend
read_packets-ascend three least [] lo h = refl
read_packets-ascend true least (p ∷ ps) lo h =
    ground (arith, read_packets-ascend true (p.number + 1) ps)
read_packets-ascend false least (p ∷ ps) lo h =
    ground (arith, read_packets-ascend false (p.number + 1) ps)

read_packets-count :
    (three : Bool) (i : ℕ) (ps : List Packet)
    → is_gapless i ps ≡ true
    → indices_count (i * slots_per_packet three) (read_packets three ps) ≡ true
unfolding is_gapless read_packets indices_count
read_packets-count three i [] h = refl
read_packets-count true i (p ∷ ps) h = ground (arith, read_packets-count true (i + 1) ps)
read_packets-count false i (p ∷ ps) h = ground (arith, read_packets-count false (i + 1) ps)

trim_slots-ascend :
    (before : Option MqttSegmentData) (least : ℕ) (ss : List MqttSegmentData)
    → indices_ascend least ss ≡ true
    → indices_ascend least (trim_slots before ss).0 ≡ true
unfolding trim_slots indices_ascend
trim_slots-ascend before least [] h = refl
trim_slots-ascend before least (s ∷ ss) h =
    go (trim_slots (some s) ss) (trim_slots-ascend (some s) (s.index + 1) ss (ground arith))
  where
    go :
        (r : List MqttSegmentData × Bool)
        → indices_ascend (s.index + 1) r.0 ≡ true
        → indices_ascend least (end_at before s r).0 ≡ true
    go ([], guess) k = ground arith
    go (t ∷ ts, guess) k = ground arith

trim_slots-count :
    (before : Option MqttSegmentData) (i : ℕ) (ss : List MqttSegmentData)
    → indices_count i ss ≡ true
    → indices_count i (trim_slots before ss).0 ≡ true
unfolding trim_slots indices_count
trim_slots-count before i [] h = refl
trim_slots-count before i (s ∷ ss) h =
    go (trim_slots (some s) ss) (trim_slots-count (some s) (i + 1) ss (ground arith))
  where
    go :
        (r : List MqttSegmentData × Bool)
        → indices_count (i + 1) r.0 ≡ true
        → indices_count i (end_at before s r).0 ≡ true
    go ([], guess) k = ground arith
    go (t ∷ ts, guess) k = ground arith

trim_slots-lit :
    (before : Option MqttSegmentData) (ss : List MqttSegmentData)
    → ends_lit before (trim_slots before ss).0 ≡ true
unfolding trim_slots ends_lit
trim_slots-lit before [] = refl
trim_slots-lit before (s ∷ ss) = go (trim_slots (some s) ss) (trim_slots-lit (some s) ss)
  where
    go :
        (r : List MqttSegmentData × Bool)
        → ends_lit (some s) r.0 ≡ true
        → ends_lit before (end_at before s r).0 ≡ true
    go ([], guess) k = ground arith
    go (t ∷ ts, guess) k = k

-- What is promised of a push that is read.
pub record IsListed (r : ParsedMqttSegments) : Type 0 where
  pub ascending : indices_ascend 0 r.segments ≡ true
  pub lit : ends_lit none r.segments ≡ true
  pub contiguous : (not r.complete || indices_count 0 r.segments) ≡ true

parse_scan-IsListed : (s : Scan) → are_readable s.packets ≡ true → IsListed (parse_scan s)
unfolding parse_scan
parse_scan-IsListed s h =
    let packets = sort_packets s.packets in
    let three = has_three_slots packets in
    let segments = read_packets three packets in
    record {
      ascending = trim_slots-ascend none 0 segments (
          ground (
            arith,
            sort_packets-ascend s.packets h,
            read_packets-ascend three 1 packets (omega arith),
          ));
      lit = trim_slots-lit none segments;
      contiguous =
          ground (arith, read_packets-count three 0 packets, trim_slots-count none 0 segments);
    }

-- Whatever commands a push carries: the segments that are read have ascending indices below 76, the
-- last of them is no filler, and those of a push that counts as complete are numbered from 0 without
-- a gap.
pub parse_mqtt_segment_data-IsListed :
    (commands : List (Option (List ℕ))) → IsListed (parse_mqtt_segment_data commands)
unfolding parse_mqtt_segment_data are_readable
parse_mqtt_segment_data-IsListed commands =
    let start : Scan = record { frames = []; packets = [] } in
    parse_scan-IsListed (scan_commands (take max_scan commands) start)
      (scan_commands-are_readable (take max_scan commands) start refl)
