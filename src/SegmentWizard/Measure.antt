-- ===== src/SegmentWizard/Measure.antt =====
-- src/lib/segment-wizard.ts: a whole measurement, from the first segment to the protocol's limit.
use mathlib.Core.List.{Memᴰ, append-nil, append_assoc}
use mathlib.Core.Path.{subst}
use io_broker_govee_smart.Base.{
  ℕ, zero, suc, ◌+◌, ◌-◌, ◌≤◌, ◌<◌, Bool, true, false, ◌&&◌, List, [], ◌∷◌, ◌++◌, map, some,
  if◌then◌else◌, Bool-cases, inl, inr, arith, ◌≡◌, refl, sym, ◌∙◌, ap, ltb, leb, ◌==◌, get_or,
  length, length-append,
}
use io_broker_govee_smart.SegmentList.{segment_hard_max, WizardResult, consolidate, holds_index}
use io_broker_govee_smart.SegmentList.Consolidate.{
  is_measured, segments_of, consolidate_lem, consolidate-is_measured,
}
use io_broker_govee_smart.SegmentWizard.{
  Wizard, Session, RestoreFacts, apply_result, clear_idle_timer_of, schedule_idle_timeout, finish,
  answer, answered,
}

ap2 {ℓ} : {A B C : Type ℓ} (f : A → B → C) {x y : A} {u v : B} → x ≡ y → u ≡ v → f x u ≡ f y v
ap2 f p q i = f (p i) (q i)

-- An answer of the user, with what the host says of the device then.
pub record Reply : Type 0 where
  pub was_visible : Bool
  pub facts : RestoreFacts

unfoldable pub run_answers : Wizard → List Reply → Wizard
run_answers w [] = w
run_answers w (r ∷ rs) = run_answers (answer w r.was_visible (some r.facts)).0 rs

abbrev pub sights : List Reply → List Bool
sights rs = map (λ (r : Reply). r.was_visible) rs

-- The segments that were seen, the first answer being for segment `i`.
abbrev pub seen_from : ℕ → List Bool → List ℕ
seen_from i [] = []
seen_from i (b ∷ bs) = let rest = seen_from (i + 1) bs in if b then i ∷ rest else rest

answer-session :
    (w : Wizard) (s : Session) (was_visible : Bool) (facts : RestoreFacts)
    → w.session ≡ some s
    → s.current < segment_hard_max
    → (answer w was_visible (some facts)).0.session ≡ some (answered s was_visible)
unfolding answer schedule_idle_timeout clear_idle_timer_of
answer-session w s was_visible facts h lt =
    let q : ltb segment_hard_max (s.current + 1) ≡ false = ground arith in rw h (rw q refl)

run_answers-session :
    (w : Wizard) (s : Session) (rs : List Reply)
    → w.session ≡ some s
    → s.current + length rs ≤ segment_hard_max
    → (t : Session) × ((run_answers w rs).session ≡ some t)
      × (t.current ≡ s.current + length rs)
      × (t.visible ≡ s.visible ++ seen_from s.current (sights rs))
      × (t.device_key ≡ s.device_key)
unfolding run_answers
run_answers-session w s [] h le = (s, h, omega arith, sym (append-nil s.visible), refl)
run_answers-session w s (r ∷ rs) h le =
    let next = answered s r.was_visible in
    let (t, e, current, visible, key) =
      run_answers-session (answer w r.was_visible (some r.facts)).0 next rs
        (answer-session w s r.was_visible r.facts h (omega arith)) (omega arith) in
    (
      t,
      e,
      omega (arith, current),
      visible ∙ seen s r.was_visible (seen_from (s.current + 1) (sights rs)),
      key,
    )
  where
    seen :
        (s : Session) (b : Bool) (rest : List ℕ)
        → (answered s b).visible ++ rest ≡ s.visible ++ (if b then s.current ∷ rest else rest)
    seen s true rest = append_assoc s.visible (s.current ∷ []) rest
    seen s false rest = refl

holds_index-seen_from :
    (n k : ℕ) (bs : List Bool)
    → holds_index n (seen_from k bs) ≡ (leb k n && get_or bs (n - k) false)
holds_index-seen_from n k [] = ground arith
holds_index-seen_from n k (b ∷ bs) =
    let ih = holds_index-seen_from n (k + 1) bs in
    elim (Bool-cases (k == n)) [
      | inl e ↦
          let zero_at : n - k ≡ 0 = ground arith in
          let past : leb (k + 1) n ≡ false = ground arith in
          let reached : leb k n ≡ true = ground arith in rw (zero_at, reached) (ground (arith, ih))
      | inr e ↦ elim (Bool-cases (leb k n)) [
        | inl le ↦
            let next : n - k ≡ suc (n - (k + 1)) = ground arith in
            let past : leb (k + 1) n ≡ true = ground arith in rw next (ground (arith, ih))
        | inr gt ↦ let past : leb (k + 1) n ≡ false = ground arith in ground (arith, ih)
      ]
    ]

is_measured-map :
    (i : ℕ) (is : List ℕ)
    → is_measured i (map (λ j. some j) is) ≡ (holds_index i is && leb i segment_hard_max)
is_measured-map i [] = refl
is_measured-map i (j ∷ is) = ground (arith, is_measured-map i is)

get_or-past : (bs : List Bool) (i : ℕ) → length bs ≤ i → get_or bs i false ≡ false
get_or-past [] i h = refl
get_or-past (b ∷ bs) zero h = absurd (omega arith)
get_or-past (b ∷ bs) (suc i) h = get_or-past bs i (omega arith)

is_measured-seen_from :
    (i : ℕ) (bs : List Bool)
    → length bs ≤ segment_hard_max + 1
    → is_measured i (map (λ j. some j) (seen_from 0 bs)) ≡ get_or bs i false
is_measured-seen_from i bs short =
    let whole : i - 0 ≡ i = omega arith in
    let reached : leb 0 i ≡ true = ground arith in
    is_measured-map i (seen_from 0 bs)
    ∙ (ap (λ b. b && leb i segment_hard_max)
          (holds_index-seen_from i 0 bs
            ∙ (ap (λ b. b && get_or bs (i - 0) false) reached ∙ ap (λ k. get_or bs k false) whole))
        ∙ limited bs i short (leb i segment_hard_max) refl)
  where
    limited :
        (bs : List Bool) (i : ℕ)
        → length bs ≤ segment_hard_max + 1
        → (b : Bool) → leb i segment_hard_max ≡ b
        → (get_or bs i false && b) ≡ get_or bs i false
    limited bs i short true e = ground arith
    limited bs i short false e = rw (get_or-past bs i (ground arith)) refl

seen_from-snoc :
    (k : ℕ) (bs : List Bool) (b : Bool)
    → seen_from k (bs ++ b ∷ [])
      ≡ (if b then seen_from k bs ++ (k + length bs) ∷ [] else seen_from k bs)
seen_from-snoc k [] true = ground arith
seen_from-snoc k [] false = refl
seen_from-snoc k (c ∷ bs) b =
    let ih = seen_from-snoc (k + 1) bs b in
    let e : k + suc (length bs) ≡ k + 1 + length bs = omega arith in ground (arith, ih, e)

Memᴰ-right {ℓ} : {A : Type ℓ} {x : A} (xs : List A) {ys : List A} → Memᴰ x ys → Memᴰ x (xs ++ ys)
Memᴰ-right [] m = m
Memᴰ-right (y ∷ xs) m = Memᴰ.tail (Memᴰ-right xs m)

finish-made :
    (w : Wizard) (s : Session) (facts : RestoreFacts) (r : WizardResult)
    → consolidate (map (λ i. some i) s.visible) ≡ some r
    → Memᴰ (apply_result s.device_key r) (finish w s (some facts)).1
unfolding finish
finish-made w s facts r made = rw (made, finish) (Memᴰ.head refl)

-- The last answer hands the result of all answers to the host.
answer-last :
    (w : Wizard) (s : Session) (was_visible : Bool) (facts : RestoreFacts) (r : WizardResult)
    → w.session ≡ some s
    → s.current ≡ segment_hard_max
    → consolidate (map (λ i. some i) (answered s was_visible).visible) ≡ some r
    → Memᴰ (apply_result s.device_key r) (answer w was_visible (some facts)).1
unfolding answer schedule_idle_timeout clear_idle_timer_of
answer-last w s was_visible facts r h at made =
    let q : ltb segment_hard_max (s.current + 1) ≡ true = ground arith in
    rw h (rw q (Memᴰ-right _ (finish-made _ (answered s was_visible) facts r made)))

length-map-sights : (rs : List Reply) → length (sights rs) ≡ length rs
length-map-sights [] = refl
length-map-sights (r ∷ rs) = ap suc (length-map-sights rs)

answered-seen :
    (t : Session) (b : Bool) (bs : List Bool)
    → t.visible ≡ seen_from 0 bs
    → t.current ≡ 0 + length bs
    → (answered t b).visible ≡ seen_from 0 (bs ++ b ∷ [])
answered-seen t true bs e c = ap2 (λ l k. l ++ k ∷ []) e c ∙ sym (seen_from-snoc 0 bs true)
answered-seen t false bs e c = e ∙ sym (seen_from-snoc 0 bs false)

-- A measurement of 56 answers, of which one at least is a yes, from a session that has just begun:
-- the last answer hands a result to the host, for the session's device, and what the result stands
-- for is exactly the segments that the user saw.
pub measurement_applied :
    (w : Wizard) (s : Session) (rs : List Reply) (last : Reply) (i : ℕ)
    → w.session ≡ some s
    → s.current ≡ 0
    → s.visible ≡ []
    → length rs ≡ segment_hard_max
    → get_or (sights rs ++ last.was_visible ∷ []) i false ≡ true
    → (r : WizardResult) × Memᴰ
        (apply_result s.device_key r)
        (answer (run_answers w rs) last.was_visible (some last.facts)).1
      × ((k : ℕ)
          → holds_index k (segments_of r) ≡ get_or (sights rs ++ last.was_visible ∷ []) k false)
measurement_applied w s rs last i h begun nothing size seen =
    let bs = sights rs ++ last.was_visible ∷ [] in
    let (t, kept, current, visible, key) = run_answers-session w s rs h (omega arith) in
    let at_end : t.current ≡ segment_hard_max = omega (arith, current) in
    let all =
      answered-seen t last.was_visible (sights rs)
        (visible ∙ ap2 (λ l k. l ++ seen_from k (sights rs)) nothing begun)
        (omega (arith, at_end, length-map-sights rs)) in
    let short : length bs ≤ segment_hard_max + 1 =
      omega (arith, length-append (sights rs) (last.was_visible ∷ []), length-map-sights rs) in
    let (r, made) =
      consolidate-is_measured (map (λ j. some j) (seen_from 0 bs)) i
        (is_measured-seen_from i bs short ∙ seen) in
    let last_made = ap (λ l. consolidate (map (λ j. some j) l)) all ∙ made in
    let applied =
      answer-last (run_answers w rs) t last.was_visible last.facts r kept at_end last_made in
    (
      r,
      subst
          (λ k.
            Memᴰ (apply_result k r)
              (answer (run_answers w rs) last.was_visible (some last.facts)).1)
          key applied,
      λ k.
          (consolidate_lem (map (λ j. some j) (seen_from 0 bs)) r made).1 k
          ∙ is_measured-seen_from k bs short,
    )
