-- ===== src/ApplianceFrames/Declared.antt =====
-- src/lib/appliance-frames.ts: no reading says more than the device declares.
use io_broker_govee_smart.Base.{
  ℕ, ◌%◌, ◌≤◌, Bool, true, false, ◌&&◌, ◌||◌, List, [], ◌∷◌, Option, none, some, if◌then◌else◌,
  if_cases, is_some, get_or, find, any, leb, leb→le, ◌==◌, str_eq, arith, ◌≡◌, refl, All,
  All-append, Option-cases, inl, inr,
}
use io_broker_govee_smart.ApplianceFrames.{
  Frame, ModeOption, LevelGroup, WorkModes, Appliance, Reading, work_mode, filter_life, battery,
  PushDecoder, h7127_purifier, h1741_battery, is_value, has_option, mode_value_of, group_of,
  report_mode, read_work_mode, read_filter, find_frame, purifier_h7127, read_battery, lamp_h1741,
  parse_frames, decode_with, decode_appliance_frames,
}

-- The level is 0, or an option of a group that has the name of the mode.
abbrev pub is_level_of : WorkModes → ModeOption → ℕ → Bool
is_level_of w o value =
    value == 0 || any (λ (g : LevelGroup). str_eq g.name o.name && has_option value g) w.levels

-- The device declares the mode, with the level as one of the mode's own; a part of a whole is at
-- most 100.
abbrev pub IsDeclared : Appliance → Reading → Type 0
IsDeclared device (work_mode mode value) = elim device.work_modes [
  | none ↦ ⊥
  | some w ↦ any (λ (o : ModeOption). is_value mode o.value && is_level_of w o value) w.modes ≡ true
]
IsDeclared device (filter_life percent) = (device.has_filter ≡ true) × (percent ≤ 100)
IsDeclared device (battery percent) = percent ≤ 100

-- What is found passes the test, and is in the list.
find_sound {ℓ} :
    {A : Type ℓ} (p q : A → Bool) (xs : List A) (x : A)
    → find p xs ≡ some x
    → (p x ≡ true) × (q x ≡ true → any q xs ≡ true)
find_sound p q [] x e = absurd cc
find_sound {A = A} p q (y ∷ ys) x e = go (λ found. find_sound p q ys x found) (p y) refl e
  where
    go :
        (find p ys ≡ some x → (p x ≡ true) × (q x ≡ true → any q ys ≡ true))
        → (b : Bool) → p y ≡ b
        → (if b then some y else find p ys) ≡ some x
        → (p x ≡ true) × (q x ≡ true → any q (y ∷ ys) ≡ true)
    go rest true t found = let same : y ≡ x = cc in (cc, λ h. ground arith)
    go rest false t found = let r = rest found in (r.0, λ h. let a = r.1 h in ground arith)

mode_value_of-declared :
    (w : WorkModes) (o : ModeOption) (level_frame : Option Frame)
    → is_level_of w o (mode_value_of (group_of w o) level_frame) ≡ true
unfolding mode_value_of
mode_value_of-declared w o none = level_zero (group_of w o)
  where
    level_zero : (g : Option LevelGroup) → is_level_of w o (mode_value_of g none) ≡ true
    level_zero none = refl
    level_zero (some g) = refl
mode_value_of-declared w o (some f) = elim (Option-cases (group_of w o)) [
  | inl e ↦ rw e refl
  | inr (g, e) ↦
      let level = get_or f.bytes 3 0 in
      let member =
        find_sound (λ (h : LevelGroup). str_eq h.name o.name && is_some h.options)
          (λ (h : LevelGroup). str_eq h.name o.name && has_option level h) w.levels g e in
      rw e (
        if_cases (λ (n : ℕ). is_level_of w o n ≡ true) (has_option level g)
          (λ has. let named = member.0 in let a = member.1 (ground arith) in ground arith)
          (λ no. refl))
]

report_mode-IsDeclared :
    (device : Appliance) (w : WorkModes)
    → device.work_modes ≡ some w
    → (mode : ℕ) (level_frame : Option Frame) (o : Option ModeOption)
    → find (λ (o : ModeOption). is_value mode o.value) w.modes ≡ o
    → All (IsDeclared device) (report_mode w mode level_frame o)
report_mode-IsDeclared device w e mode level_frame none found = tt
report_mode-IsDeclared device w e mode level_frame (some o) found =
    let p : ModeOption → Bool = λ o. is_value mode o.value in
    let value = mode_value_of (group_of w o) level_frame in
    let level = mode_value_of-declared w o level_frame in
    let s = find_sound p (λ q. is_value mode q.value && is_level_of w q value) w.modes o found in
    let is_mode = s.0 in rw e (s.1 (ground arith), tt)

read_work_mode-IsDeclared :
    (device : Appliance) (mode_frame level_frame : Option Frame)
    → All (IsDeclared device) (read_work_mode device.work_modes mode_frame level_frame)
unfolding read_work_mode
read_work_mode-IsDeclared device mode_frame level_frame = go device.work_modes refl mode_frame
  where
    go :
        (m : Option WorkModes)
        → device.work_modes ≡ m
        → (mode_frame : Option Frame)
        → All (IsDeclared device) (read_work_mode m mode_frame level_frame)
    go none e mode_frame = tt
    go (some w) e none = tt
    go (some w) e (some f) =
        let mode = get_or f.bytes 3 0 in
        let p : ModeOption → Bool = λ o. is_value mode o.value in
        report_mode-IsDeclared device w e mode level_frame (find p w.modes) refl

read_filter-IsDeclared :
    (device : Appliance) (f : Option Frame)
    → All (IsDeclared device) (read_filter device.has_filter f)
unfolding read_filter
read_filter-IsDeclared device none = tt
read_filter-IsDeclared device (some f) =
    if_cases (All (IsDeclared device)) (leb (get_or f.bytes 7 0) 100 && device.has_filter)
      (λ e. ((ground arith, ground arith), tt)) (λ e. tt)

decode_with-IsDeclared :
    (device : Appliance) (decoder : PushDecoder) (frames : List Frame)
    → All (IsDeclared device) (decode_with decoder frames device)
unfolding purifier_h7127 lamp_h1741
decode_with-IsDeclared device decoder [] = tt
decode_with-IsDeclared device h7127_purifier (f ∷ frames) =
    All-append (IsDeclared device) _ _
      (read_work_mode-IsDeclared device (find_frame 0x05 0x00 (f ∷ frames))
        (find_frame 0x05 0x01 (f ∷ frames)))
      (read_filter-IsDeclared device (find_frame 0x19 0x00 (f ∷ frames)))
decode_with-IsDeclared device h1741_battery (f ∷ frames) =
    go (find (λ (g : Frame). g.fn == 0x42) (f ∷ frames))
  where
    go : (g : Option Frame) → All (IsDeclared device) (read_battery g)
    go none = tt
    go (some g) =
        if_cases (All (IsDeclared device)) (leb (g.sub % 128) 100) (λ e. (leb→le _ _ e, tt))
          (λ e. tt)

-- Whatever the broker relays, each reading is one that the device declares: a work mode of its
-- options, with the level 0 or an option of the group that has the mode's name, and a percentage of
-- at most 100, of a filter only where the device has one.
pub decode_appliance_frames-IsDeclared :
    (device : Appliance) (op_command : Option (List (Option (List ℕ))))
    (decoder : Option PushDecoder)
    → All (IsDeclared device) (decode_appliance_frames device op_command decoder)
unfolding decode_appliance_frames
decode_appliance_frames-IsDeclared device op_command none = tt
decode_appliance_frames-IsDeclared device none (some decoder) = tt
decode_appliance_frames-IsDeclared device (some raws) (some decoder) =
    decode_with-IsDeclared device decoder (parse_frames raws)
