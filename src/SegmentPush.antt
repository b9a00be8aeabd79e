-- ===== src/SegmentPush.antt =====
-- src/lib/device-manager/lookups.ts (parseMqttSegmentData): the segments that a push of the account
-- broker carries. A command is the bytes that its base64 text stands for; `none` where it is no text.
pub mod Scanned
pub mod Listed
use io_broker_govee_smart.Base.{
  ℕ, zero, suc, ◌+◌, ◌-◌, ◌*◌, Bool, true, false, not, ◌&&◌, ◌||◌, List, [], ◌∷◌, ◌++◌, Option,
  none, some, if◌then◌else◌, leb, ltb, ◌==◌, length, get_or, take, drop, any, all, map,
}
use io_broker_govee_smart.BleFrame.{decode_ble_frame}

pub record MqttSegmentData : Type 0 where
  pub index : ℕ
  pub brightness : ℕ
  pub r : ℕ
  pub g : ℕ
  pub b : ℕ

pub record ParsedMqttSegments : Type 0 where
  pub segments : List MqttSegmentData
  pub complete : Bool
  pub trail_guess : Bool

abbrev pub max_aa_a5_packets : ℕ
max_aa_a5_packets = 19

abbrev pub max_scan : ℕ
max_scan = 512

-- An entry of `packets`, with its entry of `packetPos`.
pub record Packet : Type 0 where
  pub number : ℕ
  pub bytes : List ℕ
  pub position : ℕ

pub record Scan : Type 0 where
  pub frames : List (List ℕ)
  pub packets : List Packet

abbrev pub byte_at : List ℕ → ℕ → ℕ
byte_at bytes i = get_or bytes i 0

abbrev pub has_number : ℕ → List Packet → Bool
has_number n packets = any (λ p. p.number == n) packets

abbrev pub is_segment_frame : List ℕ → Bool
is_segment_frame bytes = (byte_at bytes 0 == 170) && (byte_at bytes 1 == 165)

-- `packetNum < 1 || packetNum > MAX_AA_A5_PACKETS || packets.has(packetNum)`
abbrev pub is_unread : ℕ → List Packet → Bool
is_unread n packets = ltb n 1 || (ltb max_aa_a5_packets n || has_number n packets)

abbrev pub see_frame : Scan → Option (List ℕ) → Scan
see_frame s none = s
see_frame s (some bytes) =
    let frames = s.frames ++ bytes ∷ [] in
    let number = byte_at bytes 2 in
    let packet : Packet = record { number = number; bytes = bytes; position = length s.frames } in
    if not (is_segment_frame bytes) || is_unread number s.packets
    then record { frames = frames; packets = s.packets }
    else record { frames = frames; packets = s.packets ++ packet ∷ [] }

unfoldable pub scan_commands : List (Option (List ℕ)) → Scan → Scan
unfolding decode_ble_frame
scan_commands [] s = s
scan_commands (c ∷ cs) s = scan_commands cs (see_frame s (decode_ble_frame c))

-- `sort((x, y) => x - y)` of numbers that are all different.
abbrev pub insert_packet : Packet → List Packet → List Packet
insert_packet p [] = p ∷ []
insert_packet p (q ∷ qs) =
    let rest = insert_packet p qs in if ltb p.number q.number then p ∷ q ∷ qs else q ∷ rest

unfoldable pub sort_packets : List Packet → List Packet
sort_packets [] = []
sort_packets (p ∷ ps) = insert_packet p (sort_packets ps)

abbrev pub empty_fourth : Packet → Bool
empty_fourth p =
    (byte_at p.bytes 15 == 0)
    && ((byte_at p.bytes 16 == 0) && ((byte_at p.bytes 17 == 0) && (byte_at p.bytes 18 == 0)))

abbrev pub has_three_slots : List Packet → Bool
has_three_slots packets = leb 2 (length packets) && all empty_fourth packets

abbrev pub slots_per_packet : Bool → ℕ
slots_per_packet three = if three then 3 else 4

abbrev pub read_slot : Bool → Packet → ℕ → MqttSegmentData
read_slot three p slot = record {
  index = (p.number - 1) * slots_per_packet three + slot;
  brightness = byte_at p.bytes (3 + slot * 4);
  r = byte_at p.bytes (3 + slot * 4 + 1);
  g = byte_at p.bytes (3 + slot * 4 + 2);
  b = byte_at p.bytes (3 + slot * 4 + 3);
}

abbrev pub slots_of : Bool → List ℕ
slots_of three = if three then 0 ∷ 1 ∷ 2 ∷ [] else 0 ∷ 1 ∷ 2 ∷ 3 ∷ []

unfoldable pub read_packets : Bool → List Packet → List MqttSegmentData
read_packets three [] = []
read_packets three (p ∷ ps) = map (read_slot three p) (slots_of three) ++ read_packets three ps

abbrev pub is_empty_slot : MqttSegmentData → Bool
is_empty_slot s =
    ((s.brightness == 0) && ((s.r == 0) && ((s.g == 0) && (s.b == 0)))) || ltb 100 s.brightness

abbrev pub repeats : Option MqttSegmentData → MqttSegmentData → Bool
repeats none s = false
repeats (some before) s =
    (s.r == s.g)
    && ((s.g == s.b) && ((s.r == before.brightness) && not (s.brightness == before.brightness)))

-- The round for the slot `s` behind the slot `before`, with what is left of the slots behind it.
abbrev pub end_at :
    Option MqttSegmentData
    → MqttSegmentData
    → List MqttSegmentData × Bool
    → List MqttSegmentData × Bool
end_at before s (t ∷ ts, guess) = (s ∷ t ∷ ts, guess)
end_at before s ([], guess) =
    if is_empty_slot s
    then ([], guess)
    else if repeats before s
    then ([], true)
    else (s ∷ [], guess)

-- The loop that pops the last slot while it is filler, and whether one was popped as a repeat. The
-- first argument is the slot in front of the list.
unfoldable pub trim_slots :
    Option MqttSegmentData → List MqttSegmentData → List MqttSegmentData × Bool
trim_slots before [] = ([], false)
trim_slots before (s ∷ segments) = end_at before s (trim_slots (some s) segments)

-- `numbers.every((n, i) => n === i + 1)` from the index `i` on
unfoldable pub is_gapless : ℕ → List Packet → Bool
is_gapless i [] = true
is_gapless i (p ∷ ps) = (p.number == i + 1) && is_gapless (i + 1) ps

abbrev pub first_position : ℕ → List Packet → ℕ
first_position least [] = least
first_position least (p ∷ ps) =
    first_position (if ltb p.position least then p.position else least) ps

abbrev pub last_position : ℕ → List Packet → ℕ
last_position most [] = most
last_position most (p ∷ ps) = last_position (if ltb most p.position then p.position else most) ps

abbrev pub is_status : List ℕ → Bool
is_status f = (byte_at f 0 == 170) && (byte_at f 1 == 5)

abbrev pub is_tail_status : List ℕ → Bool
is_tail_status f = (byte_at f 0 == 170) && ((byte_at f 1 == 17) || (byte_at f 1 == 65))

abbrev pub in_report : Scan → Bool
in_report s =
    any is_status (take (first_position (length s.frames) s.packets) s.frames)
    && any is_tail_status (drop (last_position 0 s.packets + 1) s.frames)

unfoldable pub parse_scan : Scan → ParsedMqttSegments
unfolding sort_packets read_packets trim_slots is_gapless
parse_scan s =
    let packets = sort_packets s.packets in
    let (segments, guess) = trim_slots none (read_packets (has_three_slots packets) packets) in
    record {
      segments = segments;
      complete = not (length s.packets == 0) && (is_gapless 0 packets && in_report s);
      trail_guess = guess;
    }

unfoldable pub parse_mqtt_segment_data : List (Option (List ℕ)) → ParsedMqttSegments
unfolding scan_commands parse_scan
parse_mqtt_segment_data commands =
    parse_scan (scan_commands (take max_scan commands) (record { frames = []; packets = [] }))
