-- ===== src/Settings/Text.antt =====
-- core/internal/settings/settings.go: the patterns that the validation matches texts against, each
-- as a function on bytes.
use agentbell.Common.{
  ℕ, zero, suc, ◌-◌, ◌*◌, ◌+◌, Bool, true, false, ◌&&◌, ◌||◌, not, List, [], ◌∷◌, Option, none,
  some, Str, is_empty, length, ltb, leb, ◌==◌, if◌then◌else◌,
}

abbrev pub is_lower : ℕ → Bool
is_lower c = leb b'a' c && leb c b'z'

abbrev pub is_letter : ℕ → Bool
is_letter c = is_lower c || (leb b'A' c && leb c b'Z')

abbrev pub is_digit : ℕ → Bool
is_digit c = leb b'0' c && leb c b'9'

unfoldable pub every : (ℕ → Bool) → Str → Bool
every p [] = true
every p (c ∷ s) = p c && every p s

-- `^[a-z][a-z0-9_-]{0,63}$`
unfoldable pub matches_identifier : Str → Bool
unfolding every
matches_identifier [] = false
matches_identifier (c ∷ s) =
    is_lower c
    && (every (λ d. is_lower d || (is_digit d || (d == b'_' || d == b'-'))) s && leb (length s) 63)

-- `[0-9]+`: whether it matches at the front, and what follows the longest match.
unfoldable pub skip_digits : Str → Str
skip_digits [] = []
skip_digits (c ∷ s) = let rest = skip_digits s in if is_digit c then rest else c ∷ s

abbrev pub number : Str → Option Str
number [] = none
number (c ∷ s) = if is_digit c then some (skip_digits s) else none

abbrev pub number_dot : Str → Option Str
number_dot s = elim (number s) [
  | none ↦ none
  | some [] ↦ none
  | some (c ∷ rest) ↦ if c == b'.' then some rest else none
]

abbrev is_tag_byte : ℕ → Bool
is_tag_byte c = is_letter c || (is_digit c || (c == b'.' || c == b'-'))

-- `[0-9A-Za-z.-]+` and the end.
unfoldable pub tag : Str → Bool
unfolding every
tag s = not (is_empty s) && every is_tag_byte s

-- `[0-9A-Za-z.-]+(?:\+[0-9A-Za-z.-]+)?` and the end, with whether a byte of the first tag was seen.
unfoldable pub tag_then_build : Bool → Str → Bool
unfolding tag
tag_then_build seen [] = seen
tag_then_build seen (c ∷ s) =
    let rest = tag_then_build true s in if c == b'+' then seen && tag s else is_tag_byte c && rest

-- What may follow the three numbers.
abbrev pub version_tail : Str → Bool
version_tail [] = true
version_tail (c ∷ s) =
    if c == b'-' then tag_then_build false s else if c == b'+' then tag s else false

abbrev pub skip_v : Str → Str
skip_v [] = []
skip_v (c ∷ s) = if c == b'v' then s else c ∷ s

-- `^v?[0-9]+\.[0-9]+\.[0-9]+(?:-[0-9A-Za-z.-]+)?(?:\+[0-9A-Za-z.-]+)?$`
unfoldable pub matches_semver : Str → Bool
unfolding tag_then_build skip_digits
matches_semver s = elim (number_dot (skip_v s)) [
  | none ↦ false
  | some a ↦ elim (number_dot a) [
    | none ↦ false
    | some b ↦ elim (number b) [ none ↦ false | some rest ↦ version_tail rest ]
  ]
]

-- `\s`
abbrev is_white : ℕ → Bool
is_white c = c == 9 || (c == 10 || (c == 12 || (c == 13 || c == 32)))

unfoldable pub skip_white : Str → Str
skip_white [] = []
skip_white (c ∷ s) = let rest = skip_white s in if is_white c then rest else c ∷ s

-- `[A-Za-z0-9]*`: the longest match, and what follows.
abbrev push_name : ℕ → Str × Str → Str × Str
push_name c (name, rest) = (c ∷ name, rest)

unfoldable pub take_name : Str → Str × Str
take_name [] = ([], [])
take_name (c ∷ s) =
    let r = take_name s in if is_letter c || is_digit c then push_name c r else ([], c ∷ s)

-- `\s*\}\}` behind the name.
abbrev pub close : Str × Str → Option (Str × Str)
close (name, s) = elim (skip_white s) [
  | [] ↦ none
  | c ∷ [] ↦ none
  | c ∷ d ∷ rest ↦ if c == b'}' && d == b'}' then some (name, rest) else none
]

-- `([A-Za-z][A-Za-z0-9]*)\s*\}\}`
abbrev pub name_and_close : Str → Option (Str × Str)
name_and_close [] = none
name_and_close (c ∷ s) = if is_letter c then close (push_name c (take_name s)) else none

-- `\{\{\s*([A-Za-z][A-Za-z0-9]*)\s*\}\}` at the front of a text: the name, and what follows.
unfoldable pub placeholder : Str → Option (Str × Str)
unfolding skip_white take_name
placeholder [] = none
placeholder (c ∷ []) = none
placeholder (c ∷ d ∷ s) = if c == b'{' && d == b'{' then name_and_close (skip_white s) else none

-- `ReplaceAllStringFunc` with the empty text: the names of the placeholders from left to right, and
-- the remainder. The fuel bounds the bytes that are left.
abbrev push_found : Str → List Str × Str → List Str × Str
push_found name (names, remainder) = (name ∷ names, remainder)

abbrev push_kept : ℕ → List Str × Str → List Str × Str
push_kept c (names, remainder) = (names, c ∷ remainder)

unfoldable pub placeholders : ℕ → Str → List Str × Str
unfolding placeholder
placeholders zero s = ([], s)
placeholders (suc fuel) [] = ([], [])
placeholders (suc fuel) (c ∷ s) = elim (placeholder (c ∷ s)) [
  | some (name, rest) ↦ push_found name (placeholders fuel rest)
  | none ↦ push_kept c (placeholders fuel s)
]

-- `strings.Contains` of a byte twice in a row.
unfoldable pub has_double : ℕ → Str → Bool
has_double b [] = false
has_double b (c ∷ []) = false
has_double b (c ∷ d ∷ s) = c == b && d == b || has_double b (d ∷ s)

unfoldable pub has_byte : ℕ → Str → Bool
has_byte b [] = false
has_byte b (c ∷ s) = c == b || has_byte b s

-- `utf8.RuneCountInString` of valid UTF-8, which is what `encoding/json` yields: the bytes that do
-- not continue a character.
unfoldable pub rune_count : Str → ℕ
rune_count [] = 0
rune_count (c ∷ s) = let n = rune_count s in if leb 128 c && ltb c 192 then n else suc n

-- Whether `strings.TrimSpace` leaves nothing, for ASCII white space.
unfoldable pub is_blank : Str → Bool
unfolding every
is_blank s = every (λ c. (leb 9 c && leb c 13) || c == 32) s

-- `^([0-9]{2}):([0-9]{2})$`: the two numbers.
unfoldable pub clock_parts : Str → Option (ℕ × ℕ)
clock_parts (a ∷ b ∷ c ∷ d ∷ e ∷ []) =
    if is_digit a && (is_digit b && (c == b':' && (is_digit d && is_digit e)))
    then some ((a - b'0') * 10 + (b - b'0'), (d - b'0') * 10 + (e - b'0'))
    else none
clock_parts _ = none
