-- ===== src/SegmentList.antt =====
-- src/lib/segment-list.ts: the list of segments that a user types, and `compactIndices` and
-- `consolidate` of src/lib/segment-wizard.ts, which write such a list. Splitting the text at its
-- commas and reading one part by the regular expressions are outside: a part is an `Entry`.
pub mod Parse
pub mod Indices
pub mod Compact
pub mod Consolidate
use io_broker_govee_smart.Base.{
  ℕ, zero, suc, ◌+◌, ◌-◌, min, Bool, true, false, not, ◌||◌, List, [], ◌∷◌, ◌++◌, Option, none,
  some, if◌then◌else◌, length, any, last?, ltb, leb, ◌==◌, or_else,
}

abbrev pub segment_hard_max : ℕ
segment_hard_max = 55

-- `blank`: nothing but white space between two commas. `other`: neither a number nor a range.
pub data Entry : Type 0 where
  blank other : Entry
  index : ℕ → Entry
  range : ℕ → ℕ → Entry

pub data ListError : Type 0 where
  empty_list no_indices invalid_entry : ListError
  invalid_range : ℕ → ℕ → ListError
  outside : ℕ → ℕ → ListError

pub record SegmentListParseResult : Type 0 where
  pub indices : List ℕ
  pub error : Option ListError

-- The set so far, or the error that ends the loop.
pub data Parsed : Type 0 where
  found : List ℕ → Parsed
  failed : ListError → Parsed

abbrev pub holds_index : ℕ → List ℕ → Bool
holds_index i is = any (λ j. j == i) is

-- `set.add`
abbrev pub add_index : ℕ → List ℕ → List ℕ
add_index i is = if holds_index i is then is else is ++ i ∷ []

-- The loop from `start` to `end`, with the rounds that are left.
unfoldable pub add_range : ℕ → ℕ → ℕ → List ℕ → Parsed
add_range effective_max zero i set = found set
add_range effective_max (suc rounds) i set =
    let rest = add_range effective_max rounds (i + 1) (add_index i set) in
    if ltb effective_max i then failed (outside i effective_max) else rest

unfoldable pub parse_entry : ℕ → Entry → List ℕ → Parsed
unfolding add_range
parse_entry effective_max blank set = found set
parse_entry effective_max other set = failed invalid_entry
parse_entry effective_max (index i) set =
    if ltb effective_max i then failed (outside i effective_max) else found (add_index i set)
parse_entry effective_max (range start end) set =
    if ltb end start
    then failed (invalid_range start end)
    else add_range effective_max (end + 1 - start) start set

unfoldable pub parse_entries : ℕ → List Entry → List ℕ → Parsed
unfolding parse_entry
parse_entries effective_max [] set = found set
parse_entries effective_max (e ∷ es) set = elim (parse_entry effective_max e set) [
  | failed error ↦ failed error
  | found more ↦ parse_entries effective_max es more
]

-- `sort((a, b) => a - b)`
abbrev pub insert_index : ℕ → List ℕ → List ℕ
insert_index i [] = i ∷ []
insert_index i (j ∷ is) = if leb j i then j ∷ insert_index i is else i ∷ j ∷ is

abbrev pub sort_indices : List ℕ → List ℕ
sort_indices [] = []
sort_indices (i ∷ is) = insert_index i (sort_indices is)

abbrev pub is_nil : List ℕ → Bool
is_nil [] = true
is_nil (i ∷ is) = false

-- `none`: the device's own maximum is no number, or negative.
abbrev pub effective_max_of : Option ℕ → ℕ
effective_max_of max_index = min (or_else max_index segment_hard_max) segment_hard_max

abbrev pub refused : ListError → SegmentListParseResult
refused error = record { indices = []; error = some error }

-- No entry at all stands for a text of white space.
unfoldable pub parse_segment_list : List Entry → Option ℕ → SegmentListParseResult
unfolding parse_entries
parse_segment_list [] max_index = refused empty_list
parse_segment_list (e ∷ es) max_index =
    elim (parse_entries (effective_max_of max_index) (e ∷ es) []) [
      | failed error ↦ refused error
      | found set ↦
          if is_nil set
          then refused no_indices
          else record { indices = sort_indices set; error = none }
    ]

-- src/lib/segment-wizard.ts

abbrev pub part_of : ℕ → ℕ → Entry
part_of run_start run_end =
    if run_start == run_end then index run_start else range run_start run_end

-- The loop of `compactIndices` and the part after it.
unfoldable pub compact_runs : ℕ → ℕ → List ℕ → List Entry
compact_runs run_start run_end [] = part_of run_start run_end ∷ []
compact_runs run_start run_end (i ∷ is) =
    let longer = compact_runs run_start i is in
    let next = compact_runs i i is in
    if i == run_end + 1 then longer else part_of run_start run_end ∷ next

unfoldable pub compact_indices : List ℕ → List Entry
unfolding compact_runs
compact_indices [] = []
compact_indices (i ∷ is) = compact_runs i i is

pub record WizardResult : Type 0 where
  pub segment_count : ℕ
  pub manual_list : List Entry
  pub has_gaps : Bool

-- The filter and the set of `consolidate`; `none` is what is no whole number, or negative.
abbrev pub addressable : List (Option ℕ) → List ℕ
addressable [] = []
addressable (none ∷ lit) = addressable lit
addressable (some i ∷ lit) =
    let rest = addressable lit in if leb i segment_hard_max then add_index i rest else rest

abbrev pub result_of : List ℕ → Option ℕ → Option WizardResult
result_of clean none = none
result_of clean (some last) =
    let has_gaps = ltb (length clean) (last + 1) in
    some (record {
      segment_count = last + 1;
      manual_list = if has_gaps then compact_indices clean else [];
      has_gaps = has_gaps;
    })

unfoldable pub consolidate : List (Option ℕ) → Option WizardResult
unfolding compact_indices
consolidate lit = let clean = sort_indices (addressable lit) in result_of clean (last? clean)
