-- ===== src/Semver.antt =====
-- core/internal/pluginverify/semver.go: semantic versions and their order. The result of
-- `compareSemanticVersions`, -1, 0 or 1, is an `Order`; `nil` and `ok == false` are `none`.
pub mod Compare
pub mod Orders
pub mod Laws
use agentbell.Common.{
  ℕ, zero, suc, ◌+◌, ◌-◌, ◌*◌, ◌^◌, Bool, true, false, ◌&&◌, ◌||◌, not, List, [], ◌∷◌, Option, none,
  some, Str, is_empty, length, ltb, leb, ◌==◌, if◌then◌else◌,
}

pub record SemanticVersion : Type 0 where
  pub major : ℕ
  pub minor : ℕ
  pub patch : ℕ
  pub pre : List Str

unfoldable pub is_digit : ℕ → Bool
is_digit c = leb b'0' c && leb c b'9'

unfoldable pub all_digits : Str → Bool
unfolding is_digit
all_digits [] = true
all_digits (c ∷ s) = is_digit c && all_digits s

-- `numericIdentifier`.
unfoldable pub numeric_identifier : Str → Bool
unfolding all_digits
numeric_identifier s = all_digits s && not (is_empty s)

abbrev pub has_leading_zero : Str → Bool
has_leading_zero [] = false
has_leading_zero (c ∷ []) = false
has_leading_zero (c ∷ d ∷ s) = c == b'0'

-- `validNumericIdentifier`.
unfoldable pub valid_numeric_identifier : Str → Bool
unfolding all_digits
valid_numeric_identifier s = not (is_empty s || has_leading_zero s) && all_digits s

unfoldable pub is_identifier_byte : ℕ → Bool
unfolding is_digit
is_identifier_byte c =
    leb b'a' c && leb c b'z' || (leb b'A' c && leb c b'Z' || (is_digit c || c == b'-'))

unfoldable pub all_identifier_bytes : Str → Bool
unfolding is_identifier_byte
all_identifier_bytes [] = true
all_identifier_bytes (c ∷ s) = is_identifier_byte c && all_identifier_bytes s

-- One round of the loop of `validIdentifiers`.
unfoldable pub valid_identifier : Bool → Str → Bool
unfolding all_identifier_bytes all_digits valid_numeric_identifier
valid_identifier enforce part =
    not (is_empty part)
    && (all_identifier_bytes part
        && not (enforce && (all_digits part && not (valid_numeric_identifier part))))

-- `strings.Split` at a byte: the part before it, and the parts behind.
abbrev pub push_first : ℕ → List Str → List Str
push_first c [] = (c ∷ []) ∷ []
push_first c (part ∷ parts) = (c ∷ part) ∷ parts

unfoldable pub split : ℕ → Str → List Str
split separator [] = [] ∷ []
split separator (c ∷ s) =
    let parts = split separator s in if c == separator then [] ∷ parts else push_first c parts

-- `strings.SplitN` with 2 at a byte: what stands before its first occurrence, and what behind.
abbrev pub push_before : ℕ → Str × Option Str → Str × Option Str
push_before c (before, behind) = (c ∷ before, behind)

unfoldable pub split_once : ℕ → Str → Str × Option Str
split_once separator [] = ([], none)
split_once separator (c ∷ s) =
    let rest = split_once separator s in if c == separator then ([], some s) else push_before c rest

unfoldable pub count_byte : ℕ → Str → ℕ
count_byte b [] = 0
count_byte b (c ∷ s) = let n = count_byte b s in if c == b then suc n else n

unfoldable pub all_valid : Bool → List Str → Bool
unfolding valid_identifier
all_valid enforce [] = true
all_valid enforce (part ∷ parts) = valid_identifier enforce part && all_valid enforce parts

-- `validIdentifiers`.
unfoldable pub valid_identifiers : Str → Bool → Bool
unfolding all_valid split
valid_identifiers value enforce = all_valid enforce (split b'.' value)

-- The value of a text of decimal digits.
unfoldable pub decimal : ℕ → Str → ℕ
decimal n [] = n
decimal n (c ∷ s) = decimal (n * 10 + (c - b'0')) s

-- `strconv.ParseUint` of a text that `validNumericIdentifier` accepts.
unfoldable pub parse_uint64 : Str → Option ℕ
unfolding decimal
parse_uint64 s = if ltb (decimal 0 s) (2 ^ 64) then some (decimal 0 s) else none

unfoldable pub parse_number : Str → Option ℕ
unfolding valid_numeric_identifier parse_uint64
parse_number s = if valid_numeric_identifier s then parse_uint64 s else none

-- White space at an end, which `strings.TrimSpace` would cut. A byte above 127 at an end is no
-- byte of an identifier and is refused by the checks that follow, as it would be here.
unfoldable pub is_space : ℕ → Bool
is_space c = leb 9 c && leb c 13 || c == 32

unfoldable pub ends_in_space : Str → Bool
unfolding is_space
ends_in_space [] = false
ends_in_space (c ∷ []) = is_space c
ends_in_space (c ∷ d ∷ s) = ends_in_space (d ∷ s)

unfoldable pub has_outer_space : Str → Bool
unfolding is_space ends_in_space
has_outer_space [] = false
has_outer_space (c ∷ s) = is_space c || ends_in_space (c ∷ s)

infixl 5 ◌>>=◌
abbrev ◌>>=◌ {ℓ κ} : {A : Type ℓ} {B : Type κ} → Option A → (A → Option B) → Option B
none >>= f = none
some a >>= f = f a

-- The numbers, of which there must be three.
unfoldable pub parse_numbers : List Str → List Str → Option SemanticVersion
unfolding parse_number
parse_numbers (a ∷ b ∷ c ∷ []) pre = do
  major ← parse_number a
  minor ← parse_number b
  patch ← parse_number c
  some (record { major = major; minor = minor; patch = patch; pre = pre })
parse_numbers _ pre = none

-- The part before a `+`.
unfoldable pub parse_core : Str × Option Str → Option SemanticVersion
unfolding parse_numbers valid_identifiers
parse_core (numbers, none) = parse_numbers (split b'.' numbers) []
parse_core (numbers, some pre) =
    if is_empty pre || not (valid_identifiers pre true)
    then none
    else parse_numbers (split b'.' numbers) (split b'.' pre)

unfoldable pub valid_build : Option Str → Bool
unfolding valid_identifiers
valid_build none = true
valid_build (some build) = valid_identifiers build false

unfoldable pub parse_semantic_version : Str → Option SemanticVersion
unfolding has_outer_space count_byte split_once parse_core valid_build
parse_semantic_version value =
    if is_empty value || has_outer_space value
    then none
    else if ltb 1 (count_byte b'+' value) || not (valid_build (split_once b'+' value).1)
    then none
    else parse_core (split_once b'-' (split_once b'+' value).0)
