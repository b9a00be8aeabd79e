-- ===== src/Text.antt =====
-- What the source uses of JavaScript's texts: a text is the list of its code points. `trim`,
-- `split`, `parseInt` and the digits of the regular expressions.
use Prim.Native.Char.{code}
use io_broker_govee_smart.Base.{
  ℕ, zero, suc, ◌+◌, ◌-◌, ◌*◌, ◌/◌, ◌%◌, Bool, true, false, ◌&&◌, ◌||◌, String, List, [], ◌∷◌,
  Option, none, some, if◌then◌else◌, leb, ◌==◌, all, is_some,
}

abbrev pub Text : Type 0
Text = List ℕ

-- The code points of a literal.
abbrev pub codes : String → Text
codes String.[] = []
codes (String.◌∷◌ c s) = code c ∷ codes s

abbrev pub text_eq : Text → Text → Bool
text_eq [] [] = true
text_eq [] (d ∷ t) = false
text_eq (c ∷ s) [] = false
text_eq (c ∷ s) (d ∷ t) = c == d && text_eq s t

-- White space and line ends, as `trim` and `parseInt` skip them.
unfoldable pub is_space : ℕ → Bool
is_space c =
    (leb 9 c && leb c 13)
    || c == 32
    || c == 0xa0
    || c == 0x1680
    || (leb 0x2000 c && leb c 0x200a)
    || c == 0x2028
    || c == 0x2029
    || c == 0x202f
    || c == 0x205f
    || c == 0x3000
    || c == 0xfeff

unfoldable pub trim_start : Text → Text
unfolding is_space
trim_start [] = []
trim_start (c ∷ s) = if is_space c then trim_start s else c ∷ s

unfoldable pub trim_end : Text → Text
unfolding is_space
trim_end [] = []
trim_end (c ∷ s) = elim (trim_end s) [ [] ↦ if is_space c then [] else c ∷ [] | d ∷ t ↦ c ∷ d ∷ t ]

unfoldable pub trim : Text → Text
unfolding trim_start trim_end
trim s = trim_end (trim_start s)

-- The first piece of the text and those after it.
abbrev pub join_first : ℕ → List Text → List Text
join_first c [] = (c ∷ []) ∷ []
join_first c (p ∷ ps) = (c ∷ p) ∷ ps

-- `s.split(separator)` with a separator of one character.
unfoldable pub split : ℕ → Text → List Text
split separator [] = [] ∷ []
split separator (c ∷ s) =
    let rest = split separator s in if c == separator then [] ∷ rest else join_first c rest

unfoldable pub is_digit : ℕ → Bool
is_digit c = leb b'0' c && leb c b'9'

-- The digits that lead the text, and what follows them.
unfoldable pub span_digits : Text → Text × Text
unfolding is_digit
span_digits [] = ([], [])
span_digits (c ∷ s) =
    let (ds, rest) = span_digits s in if is_digit c then (c ∷ ds, rest) else ([], c ∷ s)

unfoldable pub read_decimal : ℕ → Text → ℕ
read_decimal acc [] = acc
read_decimal acc (c ∷ s) = read_decimal (acc * 10 + (c - b'0')) s

-- A whole number, as `parseInt(_, 10)` yields one, or `nan`; `minus n` is -n.
pub data Whole : Type 0 where
  nan : Whole
  plus minus : ℕ → Whole

abbrev pub int_of_digits : (ℕ → Whole) → Text → Whole
int_of_digits sign [] = nan
int_of_digits sign (c ∷ s) = sign (read_decimal 0 (c ∷ s))

abbrev pub signed_int : Text → Whole
signed_int [] = nan
signed_int (c ∷ s) =
    if c == b'-'
    then int_of_digits minus (span_digits s).0
    else if c == b'+'
    then int_of_digits plus (span_digits s).0
    else int_of_digits plus (span_digits (c ∷ s)).0

-- `parseInt(s, 10)`; what follows the digits is not read.
unfoldable pub parse_int : Text → Whole
unfolding trim_start span_digits read_decimal
parse_int s = signed_int (trim_start s)

-- `/^(\d+)-(\d+)$/`
abbrev pub range_after : ℕ → Text → Option (ℕ × ℕ)
range_after start [] = none
range_after start (c ∷ s) =
    if all is_digit (c ∷ s) then some (start, read_decimal 0 (c ∷ s)) else none

abbrev pub range_between : Text → Text → Option (ℕ × ℕ)
range_between [] rest = none
range_between (d ∷ ds) [] = none
range_between (d ∷ ds) (c ∷ s) = if c == b'-' then range_after (read_decimal 0 (d ∷ ds)) s else none

unfoldable pub match_range : Text → Option (ℕ × ℕ)
unfolding span_digits read_decimal is_digit
match_range s = let (ds, rest) = span_digits s in range_between ds rest

-- A hexadecimal digit's value.
unfoldable pub hex_digit : ℕ → Option ℕ
hex_digit c =
    if leb b'0' c && leb c b'9'
    then some (c - b'0')
    else if leb b'a' c && leb c b'f'
    then some (c - b'a' + 10)
    else if leb b'A' c && leb c b'F'
    then some (c - b'A' + 10)
    else none

abbrev pub shift_in : ℕ → Option ℕ → Option ℕ
shift_in acc none = none
shift_in acc (some d) = some (acc * 16 + d)

-- The number that hexadecimal digits write; `none` where another character stands.
unfoldable pub read_hex : ℕ → Text → Option ℕ
unfolding hex_digit
read_hex acc [] = some acc
read_hex acc (c ∷ s) = elim (shift_in acc (hex_digit c)) [ none ↦ none | some n ↦ read_hex n s ]

-- `s.replace("#", "")`: the first one goes.
unfoldable pub without_hash : Text → Text
without_hash [] = []
without_hash (c ∷ s) = if c == b'#' then s else c ∷ without_hash s

-- `toLowerCase`, of the letters of ASCII.
unfoldable pub to_lower : Text → Text
to_lower [] = []
to_lower (c ∷ s) = (if leb b'A' c && leb c b'Z' then c + 32 else c) ∷ to_lower s

-- What stands behind the prefix; `none` where the text does not start with it.
unfoldable pub after_prefix : Text → Text → Option Text
after_prefix [] s = some s
after_prefix (c ∷ p) [] = none
after_prefix (c ∷ p) (d ∷ s) = if c == d then after_prefix p s else none

-- `s.includes(piece)`
unfoldable pub includes : Text → Text → Bool
unfolding after_prefix
includes [] piece = is_some (after_prefix piece [])
includes (c ∷ s) piece = is_some (after_prefix piece (c ∷ s)) || includes s piece

-- `s.replace(piece, "")`: the first one goes.
unfoldable pub without : Text → Text → Text
unfolding after_prefix
without piece [] = []
without piece (c ∷ s) = elim (after_prefix piece (c ∷ s)) [
  | some rest ↦ rest
  | none ↦ c ∷ without piece s
]

-- `String(n)` of a whole number below 10 ^ 21. The fuel is above the number.
abbrev pub decimal_digits : ℕ → ℕ → Text → Text
decimal_digits zero n tail = tail
decimal_digits (suc fuel) n tail =
    let digit = b'0' + n % 10 in
    let rest = decimal_digits fuel (n / 10) (digit ∷ tail) in if leb n 9 then digit ∷ tail else rest

unfoldable pub decimal : ℕ → Text
decimal n = decimal_digits (suc n) n []

-- `s.replace(/[^a-z0-9]/g, "")`
unfoldable pub keep_alphanumeric : Text → Text
keep_alphanumeric [] = []
keep_alphanumeric (c ∷ s) =
    let rest = keep_alphanumeric s in
    if (leb b'a' c && leb c b'z') || (leb b'0' c && leb c b'9') then c ∷ rest else rest
