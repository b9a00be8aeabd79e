-- ===== src/CommandRouter/BatchSent.antt =====
-- src/lib/command-router.ts: what a batch that is confirmed has left with.
use io_broker_govee_smart.Base.{
  ℕ, Bool, true, false, ◌&&◌, ◌||◌, List, [], ◌∷◌, Option, none, some, any, arith, ◌≡◌, refl,
  if_cases, is_some, ◌⊎◌, or_else, inl, inr,
}
use io_broker_govee_smart.Text.{Text, plus}
use io_broker_govee_smart.Device.{Capability, GoveeDevice}
use io_broker_govee_smart.Command.{
  Value, number, Command, segment_batch, segment_color, segment_brightness,
}
use io_broker_govee_smart.BrokerCommands.{has_datapoint}
use io_broker_govee_smart.CommandRouter.{
  TransportDecision, lan, broker, cloud, skip, Channel, over_lan, over_cloud, channel_of,
}
use io_broker_govee_smart.CommandRouter.Cloud.{
  send_batch_color, send_batch_brightness, send_batch_through, send_segment_batch_parsed,
  find_capability_for_command, request_to,
}
use io_broker_govee_smart.Color.{rgb_of_int}
use io_broker_govee_smart.LanClient.{set_segment_color, set_segment_brightness}
use mathlib.Core.Path.{subst}
use io_broker_govee_smart.CommandRouter.Lan.{force_color_mode}
use io_broker_govee_smart.CommandRouter.Segments.{by_decision, color_datagrams, dispatch_parsed}
use io_broker_govee_smart.CommandRouter.Batch.{ParsedBatch, read_batch}
use io_broker_govee_smart.CommandRouter.Batch.Accepted.{read_batch-sets}
use io_broker_govee_smart.CommandRouter.World.{
  CloudOutcome, accepted, unconfirmed, never_left, segment_rgb, segment_level, control_device,
  datagram, call_ends, refused, no_cloud, no_segment_capability, Act, World, Run, Request, Failure,
  went, after, batch_update,
}
use io_broker_govee_smart.TextMap.{text_eq_refl}
use io_broker_govee_smart.CommandRouter.Own.{
  carries_color, carries_brightness, batch_left, is_given, has_left, datagram_eq, datagram_eq_refl,
}
use io_broker_govee_smart.CommandRouter.Accounted.{sends_datagram_to}
use io_broker_govee_smart.CommandRouter.Send.{sent, ends_with, kind_of}
use io_broker_govee_smart.CommandRouter.Fits.{Fits}
use io_broker_govee_smart.CommandRouter.Ways.{Accounts, any-append}

-- Of a batch: what went well sent something of this kind.
abbrev SentSome : (Act → Bool) → List Act → Option Failure → Type 0
SentSome p acts none = any p acts ≡ true
SentSome p acts (some f) = Unit

abbrev Delivers : (Act → Bool) → Run → Type 0
Delivers p r = SentSome p r.acts r.failure

-- The same of a part of the batch that may be missing.
abbrev SentGiven : (ℕ → Act → Bool) → Option ℕ → Run → Type 0
SentGiven p none r = Unit
SentGiven p (some n) r = Delivers (p n) r

call_ends-Delivers :
    (p : Act → Bool) (request : Request) (o : CloudOutcome)
    → p (control_device request) ≡ true
    → Delivers p (call_ends request o)
call_ends-Delivers p request accepted h = ground arith
call_ends-Delivers p request unconfirmed h = tt
call_ends-Delivers p request never_left h = tt

after-Delivers :
    (p : Act → Bool) (r next : Run) → Delivers p r ⊎ Delivers p next → Delivers p (after r next)
after-Delivers p r next h = go r.acts r.failure next.acts next.failure h
  where
    go :
        (xs : List Act) (f : Option Failure) (ys : List Act) (g : Option Failure)
        → SentSome p xs f ⊎ SentSome p ys g
        → Delivers p (after (record { acts = xs; failure = f }) (record { acts = ys; failure = g }))
    go xs (some f) ys g h = tt
    go xs none ys (some g) h = tt
    go xs none ys none (inl h) = ground (arith, any-append p xs ys)
    go xs none ys none (inr h) = ground (arith, any-append p xs ys)

-- The calls of a batch.
module _ (world : World) (device : GoveeDevice) (segments : List ℕ) where
  color_call :
      (cap : Capability) (color : Option ℕ) (next : Run)
      → SentGiven
          (λ n. carries_color device segments n over_cloud)
          color
          (after (send_batch_color world cap segments color) next)
  color_call cap none next = tt
  color_call cap (some rgb) next =
      let request = request_to cap (segment_rgb segments rgb) in
      after-Delivers (carries_color device segments rgb over_cloud)
        (send_batch_color world cap segments (some rgb)) next
        (inl (
          call_ends-Delivers (carries_color device segments rgb over_cloud) request
            (world.outcome_of request) (ground (arith, text_eq_refl segments))))

  brightness_call :
      (cap : Capability) (brightness : Option ℕ) (first : Run)
      → SentGiven
          (λ n. carries_brightness device segments n over_cloud)
          brightness
          (after first (send_batch_brightness world cap segments brightness))
  brightness_call cap none first = tt
  brightness_call cap (some percent) first =
      let request = request_to cap (segment_level segments (number (plus percent))) in
      after-Delivers (carries_brightness device segments percent over_cloud) first
        (send_batch_brightness world cap segments (some percent))
        (inr (
          call_ends-Delivers (carries_brightness device segments percent over_cloud) request
            (world.outcome_of request) (ground (arith, text_eq_refl segments))))

-- What throws has given all that it owes.
refused-SentGiven : (p : ℕ → Act → Bool) (o : Option ℕ) (f : Failure) → SentGiven p o (refused f)
refused-SentGiven p none f = tt
refused-SentGiven p (some n) f = tt

module _ (world : World) (device : GoveeDevice) (parsed : ParsedBatch) where
  color_through :
      (cap bright_cap : Option Capability)
      → SentGiven
          (λ n. carries_color device parsed.segments n over_cloud)
          parsed.color
          (send_batch_through world cap bright_cap parsed)
  color_through none bright_cap =
      refused-SentGiven (λ n. carries_color device parsed.segments n over_cloud) parsed.color
        no_segment_capability
  color_through (some cap) bright_cap =
      color_call world device parsed.segments cap parsed.color
        (send_batch_brightness world (or_else bright_cap cap) parsed.segments parsed.brightness)

  brightness_through :
      (cap bright_cap : Option Capability)
      → SentGiven
          (λ n. carries_brightness device parsed.segments n over_cloud)
          parsed.brightness
          (send_batch_through world cap bright_cap parsed)
  brightness_through none bright_cap =
      refused-SentGiven (λ n. carries_brightness device parsed.segments n over_cloud)
        parsed.brightness no_segment_capability
  brightness_through (some cap) bright_cap =
      brightness_call world device parsed.segments (or_else bright_cap cap) parsed.brightness
        (send_batch_color world cap parsed.segments parsed.color)

  color_sent :
      SentGiven
        (λ n. carries_color device parsed.segments n over_cloud)
        parsed.color
        (send_segment_batch_parsed world device parsed)
  unfolding send_segment_batch_parsed
  color_sent =
      if_cases (SentGiven (λ n. carries_color device parsed.segments n over_cloud) parsed.color)
        world.clients.cloud
        (λ _.
          color_through (find_capability_for_command device.capabilities (segment_color (some 0)))
            (find_capability_for_command device.capabilities (segment_brightness (some 0))))
        (λ _.
          refused-SentGiven (λ n. carries_color device parsed.segments n over_cloud) parsed.color
            no_cloud)

  brightness_sent :
      SentGiven
        (λ n. carries_brightness device parsed.segments n over_cloud)
        parsed.brightness
        (send_segment_batch_parsed world device parsed)
  unfolding send_segment_batch_parsed
  brightness_sent =
      if_cases
        (SentGiven (λ n. carries_brightness device parsed.segments n over_cloud) parsed.brightness)
        world.clients.cloud
        (λ _.
          brightness_through
            (find_capability_for_command device.capabilities (segment_color (some 0)))
            (find_capability_for_command device.capabilities (segment_brightness (some 0))))
        (λ _.
          refused-SentGiven (λ n. carries_brightness device parsed.segments n over_cloud)
            parsed.brightness no_cloud)

-- A segment command or a batch takes the LAN's branch with an address and a client, or the cloud's.
module _ (P : (Act → Bool) → Run → Type 0) (q : Channel → Act → Bool) (world : World)
    (device : GoveeDevice) (command : Command) (on_lan : Text → Run) (on_cloud : Run) where
  pub by_decision-sends :
      (decision : TransportDecision)
      → has_datapoint command ≡ false
      → (channel_of decision ≡ none → ⊥)
      → Fits world.clients device command decision
      → ((ip : Text) → device.lan_ip ≡ some ip → P (q over_lan) (on_lan ip))
      → P (q over_cloud) on_cloud
      → P
          (q (kind_of decision))
          (by_decision world.clients.lan decision device.lan_ip on_lan on_cloud)
  by_decision-sends lan no_row taken fits l c = go device.lan_ip refl world.clients.lan fits
    where
      go :
          (ip : Option Text)
          → device.lan_ip ≡ ip
          → (client : Bool) → (is_some ip && client) ≡ true
          → P (q over_lan) (by_decision client lan ip on_lan on_cloud)
      go none e client h = cc
      go (some a) e true h = l a e
      go (some a) e false h = cc
  by_decision-sends broker no_row taken fits l c = cc
  by_decision-sends (cloud reason) no_row taken fits l c = c
  by_decision-sends (skip reason) no_row taken fits l c = absurd (taken refl)

-- What the update adds takes nothing away.
after_batch-Delivers :
    (p : Act → Bool) (r : Run) (parsed : ParsedBatch)
    → Delivers p r
    → Delivers p (after r (went (batch_update parsed ∷ [])))
after_batch-Delivers p r parsed h = after-Delivers p r (went (batch_update parsed ∷ [])) (inl h)

-- What is given of a part of the batch.
given :
    (p : ℕ → Channel → Act → Bool) (via : Channel) (o : Option ℕ) (acts : List Act)
    → SentGiven (λ n. p n via) o (record { acts = acts; failure = none })
    → is_given p via o acts ≡ true
given p via none acts h = refl
given p via (some n) acts h = h

-- What a batch that went well leaves.
abbrev pub IsBatchLeft :
    GoveeDevice → Channel → Option ParsedBatch → List Act → Option Failure → Type 0
IsBatchLeft device via o acts none = batch_left device via o acts ≡ true
IsBatchLeft device via o acts (some f) = Unit

batch_given :
    (device : GoveeDevice) (via : Channel) (parsed : ParsedBatch) (r : Run)
    → (is_some parsed.color || is_some parsed.brightness) ≡ true
    → SentGiven (λ n. carries_color device parsed.segments n via) parsed.color r
    → SentGiven (λ n. carries_brightness device parsed.segments n via) parsed.brightness r
    → IsBatchLeft device via (some parsed) r.acts r.failure
batch_given device via parsed r sets c b = go r.acts r.failure c b
  where
    go :
        (acts : List Act) (f : Option Failure)
        → SentGiven
            (λ n. carries_color device parsed.segments n via)
            parsed.color
            (record { acts = acts; failure = f })
        → SentGiven
            (λ n. carries_brightness device parsed.segments n via)
            parsed.brightness
            (record { acts = acts; failure = f })
        → IsBatchLeft device via (some parsed) acts f
    go acts none c b =
        let color = given (carries_color device parsed.segments) via parsed.color acts c in
        let level =
          given (carries_brightness device parsed.segments) via parsed.brightness acts b in
        rw (sets, color, level) refl
    go acts (some f) c b = tt

module _ (world : World) (device : GoveeDevice) (value : Value) (decision : TransportDecision)
    (parsed : ParsedBatch) (taken : channel_of decision ≡ none → ⊥)
    (fits : Fits world.clients device segment_batch decision) where
  parsed_color :
      SentGiven
        (λ n. carries_color device parsed.segments n (kind_of decision))
        parsed.color
        (dispatch_parsed world device value decision (some parsed))
  parsed_color = go parsed.color refl
    where
      go :
          (color : Option ℕ)
          → parsed.color ≡ color
          → SentGiven
              (λ n. carries_color device parsed.segments n (kind_of decision))
              color
              (dispatch_parsed world device value decision (some parsed))
      go none q = tt
      go (some rgb) q =
          let p = carries_color device parsed.segments rgb in
          let d = set_segment_color (rgb_of_int rgb) parsed.segments in
          by_decision-sends Delivers p world device segment_batch _ _ decision refl taken fits
            (λ ip e.
              let own = sends_datagram_to device ip (datagram_eq d) d e (datagram_eq_refl d) in
              unfold force_color_mode in rw q (ground arith))
            (after_batch-Delivers (p over_cloud) (send_segment_batch_parsed world device parsed)
              parsed
              (subst
                (λ c.
                  SentGiven (λ n. carries_color device parsed.segments n over_cloud) c
                    (send_segment_batch_parsed world device parsed))
                q (color_sent world device parsed)))

  parsed_brightness :
      SentGiven
        (λ n. carries_brightness device parsed.segments n (kind_of decision))
        parsed.brightness
        (dispatch_parsed world device value decision (some parsed))
  parsed_brightness = go parsed.brightness refl
    where
      go :
          (brightness : Option ℕ)
          → parsed.brightness ≡ brightness
          → SentGiven
              (λ n. carries_brightness device parsed.segments n (kind_of decision))
              brightness
              (dispatch_parsed world device value decision (some parsed))
      go none q = tt
      go (some percent) q =
          let p = carries_brightness device parsed.segments percent in
          let d = set_segment_brightness percent parsed.segments in
          by_decision-sends Delivers p world device segment_batch _ _ decision refl taken fits
            (λ ip e.
              let own = sends_datagram_to device ip (datagram_eq d) d e (datagram_eq_refl d) in
              let split =
                any-append (p over_lan) (color_datagrams ip parsed parsed.color)
                  (datagram ip d ∷ batch_update parsed ∷ []) in
              unfold force_color_mode in rw q (ground arith))
            (after_batch-Delivers (p over_cloud) (send_segment_batch_parsed world device parsed)
              parsed
              (subst
                (λ b.
                  SentGiven (λ n. carries_brightness device parsed.segments n over_cloud) b
                    (send_segment_batch_parsed world device parsed))
                q (brightness_sent world device parsed)))

pub dispatch_parsed-IsBatchLeft :
    (world : World) (device : GoveeDevice) (value : Value) (decision : TransportDecision)
    (o : Option ParsedBatch)
    → read_batch world.quirks device value ≡ o
    → (channel_of decision ≡ none → ⊥)
    → Fits world.clients device segment_batch decision
    → (let r = dispatch_parsed world device value decision o in
        IsBatchLeft device (kind_of decision) o r.acts r.failure)
dispatch_parsed-IsBatchLeft world device value decision none e taken fits = tt
dispatch_parsed-IsBatchLeft world device value decision (some parsed) e taken fits =
    batch_given device (kind_of decision) parsed
      (dispatch_parsed world device value decision (some parsed))
      (read_batch-sets world.quirks device value e)
      (parsed_color world device value decision parsed taken fits)
      (parsed_brightness world device value decision parsed taken fits)

pub ends_with-batch :
    (world : World) (device : GoveeDevice) (value : Value) (r : Run) (out : Value) (via : Channel)
    → IsBatchLeft device via (read_batch world.quirks device value) r.acts r.failure
    → Accounts world device segment_batch value (ends_with r (sent out via))
unfolding has_left
ends_with-batch world device value r out via h = go r.acts r.failure h
  where
    go :
        (acts : List Act) (f : Option Failure)
        → IsBatchLeft device via (read_batch world.quirks device value) acts f
        → Accounts world device segment_batch value
            (ends_with (record { acts = acts; failure = f }) (sent out via))
    go acts none h = h
    go acts (some f) h = ground arith
