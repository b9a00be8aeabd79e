-- ===== src/CommandRouter/Accounted.antt =====
-- src/lib/command-router.ts: a command is confirmed only when something went out (principle 5).
use io_broker_govee_smart.Base.{
  ℕ, ◌≤◌, Bool, true, false, List, [], ◌∷◌, Option, none, some, any, All, find, if◌then◌else◌, ap,
  ◌∙◌, arith, ◌≡◌, refl, if_cases,
}
use io_broker_govee_smart.Text.{Text, text_eq}
use io_broker_govee_smart.Device.{
  Capability, CloudScene, LibraryScene, LibraryDiy, SnapshotPackets, GoveeDevice, ControlKind,
}
use io_broker_govee_smart.LanClient.{
  set_scene, set_power, set_brightness, set_color, set_color_temperature, set_gradient,
  set_diy_scene,
}
use io_broker_govee_smart.Command.{
  Value, Command, control, light_scene, diy_scene, snapshot, gradient_toggle, scene, other,
  segment_batch, segment_color, segment_brightness, rgb_of_value,
}
use io_broker_govee_smart.CommandRouter.World.{
  CloudValue, Request, CloudOutcome, accepted, unconfirmed, never_left, Act, datagram, publish,
  control_device, Failure, Run, World, call_ends,
}
use io_broker_govee_smart.CommandRouter.Cloud.{
  scene_at, request_to, send_value, send_through, send_cloud_command, to_cloud_value,
  find_capability_for_command,
}
use io_broker_govee_smart.TextMap.{text_eq_refl}
use io_broker_govee_smart.LanClient.{Datagram, pt_real}
use io_broker_govee_smart.CommandRouter.{over_lan}
use io_broker_govee_smart.CommandRouter.Own.{
  is_control, is_out, datagram_eq, datagram_eq_refl, is_datagram, plays_scene, plays_diy,
  plays_snapshot, own_datagram, sends_datagram, may_fall_back, carries,
}
use io_broker_govee_smart.CommandRouter.Lan.{
  flat, speeded, or_find, library_entry, base_name, send_datagram, play_scene, send_light_scene,
  play_diy, send_diy_scene, packets_of, play_packets, send_snapshot, send_to_ip, to_ip,
  send_lan_command,
}

-- What went well sent something of this kind; what threw sent nothing.
abbrev pub Served : (Act → Bool) → List Act → Option Failure → Type 0
Served p acts none = any p acts ≡ true
Served p acts (some f) = any is_out acts ≡ false

abbrev pub Serves : (Act → Bool) → Run → Type 0
Serves p r = Served p r.acts r.failure

call_ends-Serves :
    (p : Act → Bool) (request : Request) (o : CloudOutcome)
    → p (control_device request) ≡ true
    → Serves p (call_ends request o)
call_ends-Serves p request accepted h = ground arith
call_ends-Serves p request unconfirmed h = refl
call_ends-Serves p request never_left h = refl

any-more :
    (p : Act → Bool)
    → ((request : Request) → p (control_device request) ≡ true)
    → (acts : List Act) → any is_control acts ≡ true
    → any p acts ≡ true
any-more p f [] h = absurd (ground arith)
any-more p f (control_device request ∷ acts) h = let q = f request in ground arith
any-more p f (Act.unconfirmed_call request ∷ acts) h = let q = any-more p f acts h in ground arith
any-more p f (datagram ip d ∷ acts) h = let q = any-more p f acts h in ground arith
any-more p f (publish topic payload ∷ acts) h = let q = any-more p f acts h in ground arith
any-more p f (Act.delay ms ∷ acts) h = let q = any-more p f acts h in ground arith
any-more p f (Act.read_back_lan ip ∷ acts) h = let q = any-more p f acts h in ground arith
any-more p f (Act.read_back_broker id ∷ acts) h = let q = any-more p f acts h in ground arith
any-more p f (Act.batch_update b ∷ acts) h = let q = any-more p f acts h in ground arith

-- Where an accepted call will do, a run that serves by calls serves.
pub Serves-more :
    (p : Act → Bool) (r : Run)
    → ((request : Request) → p (control_device request) ≡ true)
    → Serves is_control r
    → Serves p r
Serves-more p r f h = go r.acts r.failure h
  where
    go : (acts : List Act) (o : Option Failure) → Served is_control acts o → Served p acts o
    go acts none h = any-more p f acts h
    go acts (some e) h = h

send_value-Serves :
    (world : World) (cap : Capability) (value : Option CloudValue)
    → Serves is_control (send_value world cap value)
send_value-Serves world cap none = refl
send_value-Serves world cap (some value) =
    call_ends-Serves is_control (request_to cap value) (world.outcome_of (request_to cap value))
      refl

send_through-Serves :
    (world : World) (device : GoveeDevice) (command : Command) (value : Value)
    (cap : Option Capability)
    → Serves is_control (send_through world device command value cap)
send_through-Serves world device command value none = refl
send_through-Serves world device command value (some cap) =
    send_value-Serves world cap (to_cloud_value world device command value)

pub send_cloud_command-Serves :
    (world : World) (device : GoveeDevice) (command : Command) (value : Value)
    → Serves is_control (send_cloud_command world device command value)
unfolding send_cloud_command
send_cloud_command-Serves world device command value =
    if_cases (Serves is_control) world.clients.cloud
      (λ _.
        send_through-Serves world device command value
          (find_capability_for_command device.capabilities command))
      (λ _. refl)

abbrev pub IsCoded : LibraryScene → Type 0
IsCoded s = 1 ≤ s.scene_code

abbrev IsCoded? : Option LibraryScene → Type 0
IsCoded? none = Unit
IsCoded? (some s) = IsCoded s

find-IsCoded :
    (p : LibraryScene → Bool) (library : List LibraryScene)
    → All IsCoded library
    → IsCoded? (find p library)
find-IsCoded p [] h = tt
find-IsCoded p (s ∷ library) (c, h) =
    if_cases IsCoded? (p s) (λ _. c) (λ _. find-IsCoded p library h)

-- What is found passes a test, so one of the list does.
find-any {ℓ} :
    {A : Type ℓ} (p q : A → Bool) (xs : List A) (x : A)
    → find p xs ≡ some x
    → q x ≡ true
    → any q xs ≡ true
find-any p q [] x e h = absurd cc
find-any {A = A} p q (y ∷ ys) x e h = go (λ found. find-any p q ys x found h) (p y) e
  where
    go :
        (find p ys ≡ some x → any q ys ≡ true)
        → (b : Bool) → (if b then some y else find p ys) ≡ some x
        → any q (y ∷ ys) ≡ true
    go rest true found = let same : y ≡ x = cc in let also : q y ≡ q x = ap q same in ground arith
    go rest false found = let r = rest found in ground arith

library_entry-any :
    (q : LibraryScene → Bool) (library : List LibraryScene) (name : Text) (s : LibraryScene)
    → library_entry library name ≡ some s
    → q s ≡ true
    → any q library ≡ true
unfolding library_entry
library_entry-any q library name s e h =
    go (find (λ t. text_eq t.name name) library)
      (find (λ t. text_eq t.name (base_name name)) library) refl refl e
  where
    go :
        (o u : Option LibraryScene)
        → find (λ t. text_eq t.name name) library ≡ o
        → find (λ t. text_eq t.name (base_name name)) library ≡ u
        → or_find o u ≡ some s
        → any q library ≡ true
    go none u f g e = find-any (λ t. text_eq t.name (base_name name)) q library s (g ∙ e) h
    go (some t) u f g e = find-any (λ t. text_eq t.name name) q library s (f ∙ e) h

library_entry-IsCoded :
    (library : List LibraryScene) (name : Text)
    → All IsCoded library
    → IsCoded? (library_entry library name)
unfolding library_entry
library_entry-IsCoded library name h =
    go (find (λ s. text_eq s.name name) library)
      (find (λ s. text_eq s.name (base_name name)) library)
      (find-IsCoded (λ s. text_eq s.name name) library h)
      (find-IsCoded (λ s. text_eq s.name (base_name name)) library h)
  where
    go : (o q : Option LibraryScene) → IsCoded? o → IsCoded? q → IsCoded? (or_find o q)
    go none q h k = k
    go (some s) q h k = h

set_scene_some : (code : ℕ) (param : List ℕ) → 1 ≤ code → set_scene code param ≡ none → ⊥
unfolding set_scene
set_scene_some code param h e = ground arith

-- A datagram to the device's address.
pub sends_datagram_to :
    (device : GoveeDevice) (ip : Text) (p : Datagram → Bool) (d : Datagram)
    → device.lan_ip ≡ some ip
    → p d ≡ true
    → sends_datagram device p (datagram ip d) ≡ true
sends_datagram_to device ip p d e h = rw e (ground (arith, text_eq_refl ip))

send_own :
    (ip : Text) (device : GoveeDevice) (command : Command) (value : Value)
    → device.lan_ip ≡ some ip
    → (d : Datagram) → own_datagram device command value d ≡ true
    → Serves (carries device command value over_lan) (send_datagram ip (some d))
send_own ip device command value address d h =
    let own = sends_datagram_to device ip (own_datagram device command value) d address h in
    ground arith

-- The commands of the generic part: neither a segment's nor a batch.
abbrev pub is_generic : Command → Bool
is_generic (segment_color index) = false
is_generic (segment_brightness index) = false
is_generic segment_batch = false
is_generic _ = true

module _ (ip : Text) (device : GoveeDevice) (value : Value) (fallback : Run)
    (address : device.lan_ip ≡ some ip) where
  called :
      (command : Command)
      → may_fall_back command ≡ true
      → Serves is_control fallback
      → Serves (carries device command value over_lan) fallback
  called command may served =
      Serves-more (carries device command value over_lan) fallback (λ request. ground arith) served

  play_scene-Serves :
      (name : Text) (entry : Option LibraryScene)
      → library_entry device.scene_library name ≡ entry
      → IsCoded? entry
      → Serves (carries device light_scene value over_lan) fallback
      → Serves (carries device light_scene value over_lan) (play_scene ip device entry fallback)
  unfolding own_datagram
  play_scene-Serves name none e h served = served
  play_scene-Serves name (some entry) e h served =
      go
        (set_scene entry.scene_code
          (speeded entry.scence_param device.scene_speed entry.speed_info))
        refl
    where
      go :
          (o : Option Datagram)
          → set_scene entry.scene_code
              (speeded entry.scence_param device.scene_speed entry.speed_info)
            ≡ o
          → Serves (carries device light_scene value over_lan) (send_datagram ip o)
      go none q = absurd (
          set_scene_some entry.scene_code
            (speeded entry.scence_param device.scene_speed entry.speed_info) h q)
      go (some d) q = send_own ip device light_scene value address d (
          library_entry-any (plays_scene device d) device.scene_library name entry e
            (ap (is_datagram d) q ∙ datagram_eq_refl d))

  send_light_scene-Serves :
      (s : Option CloudScene)
      → All IsCoded device.scene_library
      → Serves (carries device light_scene value over_lan) fallback
      → Serves (carries device light_scene value over_lan) (send_light_scene ip device s fallback)
  send_light_scene-Serves none h served = refl
  send_light_scene-Serves (some s) h served =
      play_scene-Serves s.name (library_entry device.scene_library s.name) refl
        (library_entry-IsCoded device.scene_library s.name h) served

  play_diy-Serves :
      (name : Text) (entry : Option LibraryDiy)
      → find (λ d. text_eq d.name name) device.diy_library ≡ entry
      → Serves (carries device diy_scene value over_lan) fallback
      → Serves (carries device diy_scene value over_lan) (play_diy ip entry fallback)
  unfolding own_datagram
  play_diy-Serves name none e served = served
  play_diy-Serves name (some entry) e served =
      let d = set_diy_scene entry.scence_param in
      send_own ip device diy_scene value address d (
        find-any (λ t. text_eq t.name name) (plays_diy d) device.diy_library entry e
          (datagram_eq_refl d))

  send_diy_scene-Serves :
      (s : Option CloudScene)
      → Serves (carries device diy_scene value over_lan) fallback
      → Serves (carries device diy_scene value over_lan) (send_diy_scene ip device s fallback)
  send_diy_scene-Serves none served = refl
  send_diy_scene-Serves (some s) served =
      play_diy-Serves s.name (find (λ d. text_eq d.name s.name) device.diy_library) refl served

  -- The packets of what was found, where there are any.
  play_packets-Serves :
      (name : Text) (entry : Option SnapshotPackets)
      → find (λ p. text_eq p.name name) device.snapshot_ble_cmds ≡ entry
      → Serves (carries device snapshot value over_lan) fallback
      → Serves
          (carries device snapshot value over_lan)
          (play_packets ip (packets_of entry) fallback)
  unfolding own_datagram
  play_packets-Serves name none e served = served
  play_packets-Serves name (some entry) e served = go (flat entry.cmds) refl
    where
      go :
          (packets : List (List ℕ))
          → flat entry.cmds ≡ packets
          → Serves (carries device snapshot value over_lan) (play_packets ip packets fallback)
      go [] q = served
      go (p ∷ packets) q = send_own ip device snapshot value address (pt_real (p ∷ packets)) (
          find-any (λ t. text_eq t.name name) (plays_snapshot (pt_real (p ∷ packets)))
            device.snapshot_ble_cmds entry e
            (ap (λ ps. datagram_eq (pt_real (p ∷ packets)) (pt_real ps)) q
              ∙ datagram_eq_refl (pt_real (p ∷ packets))))

  send_snapshot-Serves :
      (s : Option CloudScene)
      → Serves (carries device snapshot value over_lan) fallback
      → Serves (carries device snapshot value over_lan) (send_snapshot ip device s fallback)
  send_snapshot-Serves none served = refl
  send_snapshot-Serves (some s) served =
      play_packets-Serves s.name (find (λ p. text_eq p.name s.name) device.snapshot_ble_cmds) refl
        served

  -- `served` is about the fallback, which is a call.
  send_to_ip-Serves :
      (command : Command)
      → All IsCoded device.scene_library
      → Serves is_control fallback
      → is_generic command ≡ true
      → Serves (carries device command value over_lan) (send_to_ip ip device command value fallback)
  unfolding send_to_ip own_datagram
  send_to_ip-Serves (control ControlKind.power) h served g =
      send_own ip device (control ControlKind.power) value address (set_power value)
        (datagram_eq_refl (set_power value))
  send_to_ip-Serves (control ControlKind.brightness) h served g =
      send_own ip device (control ControlKind.brightness) value address (set_brightness value)
        (datagram_eq_refl (set_brightness value))
  send_to_ip-Serves (control ControlKind.color_rgb) h served g =
      send_own ip device (control ControlKind.color_rgb) value address
        (set_color (rgb_of_value value)) (datagram_eq_refl (set_color (rgb_of_value value)))
  send_to_ip-Serves (control ControlKind.color_temperature) h served g =
      send_own ip device (control ControlKind.color_temperature) value address
        (set_color_temperature value) (datagram_eq_refl (set_color_temperature value))
  send_to_ip-Serves gradient_toggle h served g =
      send_own ip device gradient_toggle value address (set_gradient value)
        (datagram_eq_refl (set_gradient value))
  send_to_ip-Serves diy_scene h served g =
      send_diy_scene-Serves (scene_at device.diy_scenes value) (called diy_scene refl served)
  send_to_ip-Serves light_scene h served g =
      send_light_scene-Serves (scene_at device.scenes value) h (called light_scene refl served)
  send_to_ip-Serves snapshot h served g =
      send_snapshot-Serves (scene_at device.snapshots value) (called snapshot refl served)
  send_to_ip-Serves scene h served g = called scene refl served
  send_to_ip-Serves (other name) h served g = called (other name) refl served
  send_to_ip-Serves segment_batch h served g = absurd cc
  send_to_ip-Serves (segment_color index) h served g = absurd cc
  send_to_ip-Serves (segment_brightness index) h served g = absurd cc

pub send_lan_command-Serves :
    (world : World) (device : GoveeDevice) (command : Command) (value : Value)
    → All IsCoded device.scene_library
    → is_generic command ≡ true
    → Serves (carries device command value over_lan) (send_lan_command world device command value)
unfolding send_lan_command
send_lan_command-Serves world device command value h g = go device.lan_ip refl
  where
    go :
        (ip : Option Text)
        → device.lan_ip ≡ ip
        → Serves (carries device command value over_lan) (to_ip world device command value ip)
    go none e = refl
    go (some ip) e =
        if_cases (Serves (carries device command value over_lan)) world.clients.lan
          (λ _.
            send_to_ip-Serves ip device value (send_cloud_command world device command value) e
              command h (send_cloud_command-Serves world device command value) g)
          (λ _. refl)
