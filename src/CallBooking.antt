-- ===== src/CallBooking.antt =====
-- src/lib/call-booking.ts: whether a call reached Govee. Which booking a request runs under
-- (`AsyncLocalStorage`) is Node's; here a booking is passed.
use io_broker_govee_smart.Base.{
  Bool, true, false, not, ◌&&◌, String, List, [], ◌∷◌, if◌then◌else◌, member,
}

pub record Booking : Type 0 where
  pub delivered : Bool
  pub not_delivered : Bool

abbrev pub make_booking : Booking
make_booking = record { delivered = false; not_delivered = false }

unfoldable pub attempt : Booking → Bool → Booking
attempt b true = record b { delivered = true }
attempt b false = record b { not_delivered = true }

unfoldable pub seal : Booking → Bool
seal b = b.not_delivered && not b.delivered

abbrev pub never_connected_codes : List String
never_connected_codes =
    "ENOTFOUND" ∷ "EAI_AGAIN" ∷ "ECONNREFUSED" ∷ "EHOSTUNREACH" ∷ "ENETUNREACH" ∷ []

-- The code of an error that is no text is never in the set.
unfoldable pub is_never_sent : String → Bool → Bool
is_never_sent code connected = if connected then false else member code never_connected_codes
