-- ===== src/SegmentPush/Scanned.antt =====
-- src/lib/device-manager/lookups.ts (parseMqttSegmentData): the packets that are read.
use io_broker_govee_smart.Base.{
  ℕ, ◌+◌, ◌≤◌, Bool, true, false, not, ◌&&◌, ◌||◌, List, [], ◌∷◌, ◌++◌, Option, none, some, arith,
  ◌≡◌, refl, leb, ◌==◌, length,
}
use io_broker_govee_smart.BleFrame.{decode_ble_frame}
use io_broker_govee_smart.SegmentPush.{
  Packet, Scan, max_aa_a5_packets, byte_at, has_number, see_frame, scan_commands, insert_packet,
  sort_packets,
}

-- All numbers are those of the protocol, and no two are the same.
unfoldable pub are_readable : List Packet → Bool
are_readable [] = true
are_readable (p ∷ ps) =
    leb 1 p.number
    && (leb p.number max_aa_a5_packets && (not (has_number p.number ps) && are_readable ps))

-- The numbers ascend, from `least` on, and do not pass the highest.
unfoldable pub ascend : ℕ → List Packet → Bool
ascend least [] = true
ascend least (p ∷ ps) =
    leb least p.number && (leb p.number max_aa_a5_packets && ascend (p.number + 1) ps)

has_number-append :
    (n : ℕ) (ps qs : List Packet) → has_number n (ps ++ qs) ≡ (has_number n ps || has_number n qs)
has_number-append n [] qs = refl
has_number-append n (p ∷ ps) qs = ground (arith, has_number-append n ps qs)

are_readable-append :
    (ps : List Packet) (q : Packet)
    → are_readable ps ≡ true
    → 1 ≤ q.number
    → q.number ≤ max_aa_a5_packets
    → has_number q.number ps ≡ false
    → are_readable (ps ++ q ∷ []) ≡ true
unfolding are_readable
are_readable-append [] q h lo hi new = ground arith
are_readable-append (p ∷ ps) q h lo hi new =
    ground (arith, are_readable-append ps q, has_number-append p.number ps (q ∷ []))

see_frame-are_readable :
    (s : Scan) (o : Option (List ℕ))
    → are_readable s.packets ≡ true
    → are_readable (see_frame s o).packets ≡ true
see_frame-are_readable s none h = h
see_frame-are_readable s (some bytes) h =
    let packet : Packet = record {
      number = byte_at bytes 2;
      bytes = bytes;
      position = length s.frames;
    } in
    ground (arith, are_readable-append s.packets packet)

pub scan_commands-are_readable :
    (cs : List (Option (List ℕ))) (s : Scan)
    → are_readable s.packets ≡ true
    → are_readable (scan_commands cs s).packets ≡ true
unfolding scan_commands
scan_commands-are_readable [] s h = h
scan_commands-are_readable (c ∷ cs) s h =
    scan_commands-are_readable cs (see_frame s (decode_ble_frame c))
      (see_frame-are_readable s (decode_ble_frame c) h)

has_number-insert_packet :
    (n : ℕ) (p : Packet) (qs : List Packet)
    → has_number n (insert_packet p qs) ≡ ((p.number == n) || has_number n qs)
has_number-insert_packet n p [] = refl
has_number-insert_packet n p (q ∷ qs) = ground (arith, has_number-insert_packet n p qs)

has_number-sort_packets :
    (n : ℕ) (ps : List Packet) → has_number n (sort_packets ps) ≡ has_number n ps
unfolding sort_packets
has_number-sort_packets n [] = refl
has_number-sort_packets n (p ∷ ps) =
    ground (arith, has_number-insert_packet n p (sort_packets ps), has_number-sort_packets n ps)

insert_packet-ascend :
    (least : ℕ) (p : Packet) (qs : List Packet)
    → ascend least qs ≡ true
    → least ≤ p.number
    → p.number ≤ max_aa_a5_packets
    → has_number p.number qs ≡ false
    → ascend least (insert_packet p qs) ≡ true
unfolding ascend
insert_packet-ascend least p [] h lo hi new = ground arith
insert_packet-ascend least p (q ∷ qs) h lo hi new =
    ground (arith, insert_packet-ascend (q.number + 1) p qs)

pub sort_packets-ascend :
    (ps : List Packet) → are_readable ps ≡ true → ascend 1 (sort_packets ps) ≡ true
unfolding sort_packets are_readable ascend
sort_packets-ascend [] h = refl
sort_packets-ascend (p ∷ ps) h =
    insert_packet-ascend 1 p (sort_packets ps) (ground (arith, sort_packets-ascend ps))
      (ground arith) (ground arith) (ground (arith, has_number-sort_packets p.number ps))
