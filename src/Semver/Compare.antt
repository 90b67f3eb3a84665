-- ===== src/Semver/Compare.antt =====
-- core/internal/pluginverify/semver.go: `compareSemanticVersions`.
use agentbell.Common.{ℕ, Bool, true, false, List, [], ◌∷◌, Str, length, ltb, if◌then◌else◌}
use agentbell.Semver.{SemanticVersion, numeric_identifier}

-- -1, 0 and 1.
pub data Order : Type 0 where
  less same greater : Order

-- Two tests, `a < b` and `a > b`, on numbers.
unfoldable pub compare_numbers : ℕ → ℕ → Order
compare_numbers a b = if ltb a b then Order.less else if ltb b a then Order.greater else Order.same

-- A comparison that goes on only where the one before it returned nothing.
infixr 20 ◌then_by◌
abbrev pub ◌then_by◌ : Order → Order → Order
Order.less then_by o = Order.less
Order.same then_by o = o
Order.greater then_by o = Order.greater

-- `<` and `>` of Go strings: the bytes in order, then the lengths.
unfoldable pub compare_strings : Str → Str → Order
unfolding compare_numbers
compare_strings [] [] = Order.same
compare_strings [] (y ∷ ys) = Order.less
compare_strings (x ∷ xs) [] = Order.greater
compare_strings (x ∷ xs) (y ∷ ys) = compare_numbers x y then_by compare_strings xs ys

-- The cases of the switch on one pair of identifiers.
abbrev pub compare_kinds : Bool → Bool → Str → Str → Order
compare_kinds true true l r = compare_numbers (length l) (length r) then_by compare_strings l r
compare_kinds true false l r = Order.less
compare_kinds false true l r = Order.greater
compare_kinds false false l r = compare_strings l r

unfoldable pub compare_identifiers : Str → Str → Order
unfolding compare_numbers compare_strings numeric_identifier
compare_identifiers l r = compare_kinds (numeric_identifier l) (numeric_identifier r) l r

-- The loop over the pairs, and the comparison of the lengths behind it.
unfoldable pub compare_pairs : List Str → List Str → Order
unfolding compare_identifiers
compare_pairs [] [] = Order.same
compare_pairs [] (r ∷ rs) = Order.less
compare_pairs (l ∷ ls) [] = Order.greater
compare_pairs (l ∷ ls) (r ∷ rs) = compare_identifiers l r then_by compare_pairs ls rs

-- A version with no prerelease comes behind one that has one.
unfoldable pub compare_pre : List Str → List Str → Order
unfolding compare_pairs
compare_pre [] [] = Order.same
compare_pre [] (r ∷ rs) = Order.greater
compare_pre (l ∷ ls) [] = Order.less
compare_pre (l ∷ ls) (r ∷ rs) = compare_pairs (l ∷ ls) (r ∷ rs)

unfoldable pub compare_semantic_versions : SemanticVersion → SemanticVersion → Order
unfolding compare_pre compare_numbers
compare_semantic_versions l r =
    compare_numbers l.major r.major
    then_by compare_numbers l.minor r.minor
    then_by compare_numbers l.patch r.patch
    then_by compare_pre l.pre r.pre
