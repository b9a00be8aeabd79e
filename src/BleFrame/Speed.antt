-- ===== src/BleFrame/Speed.antt =====
-- src/lib/ble-frame.ts, `applySceneSpeed`: a new speed leaves the structure of a scene as it was.
use io_broker_govee_smart.Base.{
  ℕ, zero, suc, ◌+◌, ◌-◌, ◌≤◌, Bool, true, ◌&&◌, List, [], ◌∷◌, Option, none, some, if◌then◌else◌,
  if_cases, inl, inr, length, length-set, get_or, set, find, ltb, leb, ◌==◌, arith, ◌≡◌, ◌≢◌, ◌⊎◌,
  refl, ◌∙◌, ap,
}
use io_broker_govee_smart.BleFrame.{SpeedEntry, speed_of, write_speed, speed_pages}

-- Whether a page begins here and ends within the data.
abbrev pub is_page : List ℕ → ℕ → Bool
is_page bytes offset =
    ltb offset (length bytes) && leb (offset + 1 + get_or bytes offset 0) (length bytes)

-- Where the pages begin, as a reader of the data finds them.
pub page_offsets : ℕ → ℕ → List ℕ → List ℕ
page_offsets zero offset bytes = []
page_offsets (suc pages) offset bytes =
    let rest = page_offsets pages (offset + 1 + get_or bytes offset 0) bytes in
    if is_page bytes offset then offset ∷ rest else []

get_or-set-other : (m : List ℕ) (i j v : ℕ) → i ≢ j → get_or (set m i v) j 0 ≡ get_or m j 0
get_or-set-other [] i j v h = refl
get_or-set-other (x ∷ m) zero zero v h = absurd (h refl)
get_or-set-other (x ∷ m) zero (suc j) v h = refl
get_or-set-other (x ∷ m) (suc i) zero v h = refl
get_or-set-other (x ∷ m) (suc i) (suc j) v h = get_or-set-other m i j v (λ e. h (ap suc e))

-- A page's new byte stands within the page.
write_speed-lem :
    (bytes : List ℕ) (offset page_len : ℕ) (speed : Option ℕ)
    → (length (write_speed bytes offset page_len speed) ≡ length bytes)
      × ((j : ℕ)
          → (j ≤ offset) ⊎ (offset + 1 + page_len ≤ j)
          → get_or (write_speed bytes offset page_len speed) j 0 ≡ get_or bytes j 0)
unfolding write_speed
write_speed-lem bytes offset page_len none = (refl, λ j out. refl)
write_speed-lem bytes offset page_len (some speed) =
    let pos = offset + 1 + page_len - 5 in
    if_cases
      (λ (m : List ℕ).
        (length m ≡ length bytes)
        × ((j : ℕ) → (j ≤ offset) ⊎ (offset + 1 + page_len ≤ j) → get_or m j 0 ≡ get_or bytes j 0))
      (ltb offset pos && ltb pos (offset + 1 + page_len))
      (λ e. (
        length-set bytes pos speed,
        λ j out. get_or-set-other bytes pos j speed (λ same. outside j out e same),
      ))
      (λ e. (refl, λ j out. refl))
  where
    outside :
        (j : ℕ)
        → (j ≤ offset) ⊎ (offset + 1 + page_len ≤ j)
        → (ltb offset (offset + 1 + page_len - 5)
            && ltb (offset + 1 + page_len - 5) (offset + 1 + page_len))
          ≡ true
        → offset + 1 + page_len - 5 ≡ j
        → ⊥
    outside j (inl le) e same = ground arith
    outside j (inr le) e same = ground arith

-- The pages from an offset on are read from the bytes from there on.
page_offsets-same :
    (pages offset : ℕ) (a b : List ℕ)
    → length a ≡ length b
    → ((j : ℕ) → offset ≤ j → get_or a j 0 ≡ get_or b j 0)
    → page_offsets pages offset a ≡ page_offsets pages offset b
unfolding page_offsets
page_offsets-same zero offset a b size same = refl
page_offsets-same (suc pages) offset a b size same =
    let here = same offset (omega arith) in
    let ih =
      page_offsets-same pages (offset + 1 + get_or b offset 0) a b size
        (λ j le. same j (omega arith)) in
    rw (here, size, ih) refl

speed_pages-below :
    (entries : List SpeedEntry) (level rounds page offset : ℕ) (bytes : List ℕ)
    → (length (speed_pages entries level rounds page offset bytes) ≡ length bytes)
      × ((j : ℕ)
          → j ≤ offset
          → get_or (speed_pages entries level rounds page offset bytes) j 0 ≡ get_or bytes j 0)
unfolding speed_pages
speed_pages-below entries level zero page offset bytes = (refl, λ j le. refl)
speed_pages-below entries level (suc rounds) page offset bytes =
    let len = get_or bytes offset 0 in
    let speed = speed_of (find (λ c. c.page == page) entries) level in
    let written = write_speed bytes offset len speed in
    let w = write_speed-lem bytes offset len speed in
    let ih = speed_pages-below entries level rounds (page + 1) (offset + 1 + len) written in
    if_cases
      (λ (m : List ℕ).
        (length m ≡ length bytes) × ((j : ℕ) → j ≤ offset → get_or m j 0 ≡ get_or bytes j 0))
      (is_page bytes offset) (λ e. (ih.0 ∙ w.0, λ j le. ih.1 j (omega arith) ∙ w.1 j (inl le)))
      (λ e. (refl, λ j le. refl))

-- Whatever the configuration says, the data keeps its length and its pages begin where they began.
pub speed_pages-page_offsets :
    (entries : List SpeedEntry) (level rounds page offset : ℕ) (bytes : List ℕ)
    → (let out = speed_pages entries level rounds page offset bytes in
        (length out ≡ length bytes)
        × (page_offsets rounds offset out ≡ page_offsets rounds offset bytes))
unfolding page_offsets speed_pages
speed_pages-page_offsets entries level zero page offset bytes = (refl, refl)
speed_pages-page_offsets entries level (suc rounds) page offset bytes =
    let len = get_or bytes offset 0 in
    let speed = speed_of (find (λ c. c.page == page) entries) level in
    let written = write_speed bytes offset len speed in
    let w = write_speed-lem bytes offset len speed in
    let rest = speed_pages entries level rounds (page + 1) (offset + 1 + len) written in
    let below = speed_pages-below entries level rounds (page + 1) (offset + 1 + len) written in
    let ih = speed_pages-page_offsets entries level rounds (page + 1) (offset + 1 + len) written in
    let same_size = below.0 ∙ w.0 in
    let here : get_or rest offset 0 ≡ len =
      below.1 offset (omega arith) ∙ w.1 offset (inl (omega arith)) in
    let later =
      ih.1
      ∙ page_offsets-same rounds (offset + 1 + len) written bytes w.0 (λ j le. w.1 j (inr le)) in
    if_cases
      (λ (m : List ℕ).
        (length m ≡ length bytes)
        × (page_offsets (suc rounds) offset m ≡ page_offsets (suc rounds) offset bytes))
      (is_page bytes offset) (λ e. (same_size, rw (here, same_size, later) refl))
      (λ e. (refl, refl))
