-- ===== src/Semver/Laws.antt =====
-- core/internal/pluginverify/semver.go: the laws of `compareSemanticVersions`.
use agentbell.Common.{Bool, true, false, List, [], ◌∷◌, Str, length, ◌≡◌, refl, sym}
use agentbell.Semver.{numeric_identifier}
use agentbell.Semver.Compare.{
  Order, compare_numbers, compare_strings, compare_kinds, compare_identifiers, compare_pairs,
  compare_pre, compare_semantic_versions,
}
use agentbell.Semver.Orders.{
  flip, IsOrder, compare_numbers-IsOrder, swap-then_by, flip_then_by, then_by-same, chain_step,
  strings-swaps, strings-identifies, strings-chains,
}

kinds-swaps : (p q : Bool) (a b : Str) → compare_kinds q p b a ≡ flip (compare_kinds p q a b)
kinds-swaps true true a b =
    rw (compare_numbers-IsOrder.swaps (length a) (length b), strings-swaps a b)
      (sym (swap-then_by (compare_numbers (length a) (length b)) (compare_strings a b)))
kinds-swaps true false a b = refl
kinds-swaps false true a b = refl
kinds-swaps false false a b = strings-swaps a b

kinds-identifies : (p q : Bool) (a b : Str) → compare_kinds p q a b ≡ Order.same → a ≡ b
kinds-identifies true true a b h =
    strings-identifies a b
      (then_by-same (compare_numbers (length a) (length b)) (compare_strings a b) h).1
kinds-identifies true false a b h = cc
kinds-identifies false true a b h = cc
kinds-identifies false false a b h = strings-identifies a b h

kinds-chains :
    (p q r : Bool) (x y z : Str)
    → compare_kinds p q x y ≡ Order.less
    → compare_kinds q r y z ≡ Order.less
    → compare_kinds p r x z ≡ Order.less
kinds-chains true true true x y z h k =
    chain_step compare_numbers compare_numbers-IsOrder (length x) (length y) (length z)
      (compare_strings x y) (compare_strings y z) (compare_strings x z) (strings-chains x y z) h k
kinds-chains true q false x y z h k = refl
kinds-chains true false true x y z h k = cc
kinds-chains false true r x y z h k = cc
kinds-chains false false true x y z h k = cc
kinds-chains false false false x y z h k = strings-chains x y z h k

identifiers-IsOrder : IsOrder compare_identifiers
unfolding compare_identifiers
identifiers-IsOrder = record {
  swaps = λ a b. kinds-swaps (numeric_identifier a) (numeric_identifier b) a b;
  identifies = λ a b. kinds-identifies (numeric_identifier a) (numeric_identifier b) a b;
  chains = λ x y z.
      kinds-chains (numeric_identifier x) (numeric_identifier y) (numeric_identifier z) x y z;
}

pairs-swaps : (a b : List Str) → compare_pairs b a ≡ flip (compare_pairs a b)
unfolding compare_pairs
pairs-swaps [] [] = refl
pairs-swaps [] (y ∷ ys) = refl
pairs-swaps (x ∷ xs) [] = refl
pairs-swaps (x ∷ xs) (y ∷ ys) =
    rw (identifiers-IsOrder.swaps x y, pairs-swaps xs ys)
      (sym (swap-then_by (compare_identifiers x y) (compare_pairs xs ys)))

pairs-identifies : (a b : List Str) → compare_pairs a b ≡ Order.same → a ≡ b
unfolding compare_pairs
pairs-identifies [] [] h = refl
pairs-identifies [] (y ∷ ys) h = cc
pairs-identifies (x ∷ xs) [] h = cc
pairs-identifies (x ∷ xs) (y ∷ ys) h =
    let (p, q) = then_by-same (compare_identifiers x y) (compare_pairs xs ys) h in
    cc (identifiers-IsOrder.identifies x y p, pairs-identifies xs ys q)

pairs-chains :
    (x y z : List Str)
    → compare_pairs x y ≡ Order.less
    → compare_pairs y z ≡ Order.less
    → compare_pairs x z ≡ Order.less
unfolding compare_pairs
pairs-chains [] [] z h k = cc
pairs-chains [] (y ∷ ys) [] h k = cc
pairs-chains [] (y ∷ ys) (z ∷ zs) h k = refl
pairs-chains (x ∷ xs) [] z h k = cc
pairs-chains (x ∷ xs) (y ∷ ys) [] h k = cc
pairs-chains (x ∷ xs) (y ∷ ys) (z ∷ zs) h k =
    chain_step compare_identifiers identifiers-IsOrder x y z (compare_pairs xs ys)
      (compare_pairs ys zs) (compare_pairs xs zs) (pairs-chains xs ys zs) h k

pre-IsOrder : IsOrder compare_pre
unfolding compare_pre
pre-IsOrder = record { swaps = swaps; identifies = identifies; chains = chains }
  where
    swaps : (a b : List Str) → compare_pre b a ≡ flip (compare_pre a b)
    swaps [] [] = refl
    swaps [] (y ∷ ys) = refl
    swaps (x ∷ xs) [] = refl
    swaps (x ∷ xs) (y ∷ ys) = pairs-swaps (x ∷ xs) (y ∷ ys)

    identifies : (a b : List Str) → compare_pre a b ≡ Order.same → a ≡ b
    identifies [] [] h = refl
    identifies [] (y ∷ ys) h = cc
    identifies (x ∷ xs) [] h = cc
    identifies (x ∷ xs) (y ∷ ys) h = pairs-identifies (x ∷ xs) (y ∷ ys) h

    chains :
        (x y z : List Str)
        → compare_pre x y ≡ Order.less
        → compare_pre y z ≡ Order.less
        → compare_pre x z ≡ Order.less
    chains [] [] z h k = cc
    chains [] (y ∷ ys) z h k = cc
    chains (x ∷ xs) [] [] h k = cc
    chains (x ∷ xs) [] (z ∷ zs) h k = cc
    chains (x ∷ xs) (y ∷ ys) [] h k = refl
    chains (x ∷ xs) (y ∷ ys) (z ∷ zs) h k = pairs-chains (x ∷ xs) (y ∷ ys) (z ∷ zs) h k

-- The order of versions is total: swapping the sides flips the answer, only a version itself
-- compares as the same, and `less` is transitive.
pub compare_semantic_versions-IsOrder : IsOrder compare_semantic_versions
unfolding compare_semantic_versions
compare_semantic_versions-IsOrder = record {
  swaps = λ a b. flip_then_by _ _ (compare_numbers-IsOrder.swaps a.major b.major) (
      flip_then_by _ _ (compare_numbers-IsOrder.swaps a.minor b.minor) (
        flip_then_by _ _ (compare_numbers-IsOrder.swaps a.patch b.patch)
          (pre-IsOrder.swaps a.pre b.pre)));
  identifies = λ a b h.
      let (p, h₁) = then_by-same (compare_numbers a.major b.major) _ h in
      let (q, h₂) = then_by-same (compare_numbers a.minor b.minor) _ h₁ in
      let (r, h₃) = then_by-same (compare_numbers a.patch b.patch) _ h₂ in
      cc (
        compare_numbers-IsOrder.identifies a.major b.major p,
        compare_numbers-IsOrder.identifies a.minor b.minor q,
        compare_numbers-IsOrder.identifies a.patch b.patch r,
        pre-IsOrder.identifies a.pre b.pre h₃,
      );
  chains = λ x y z h k.
      chain_step compare_numbers compare_numbers-IsOrder x.major y.major z.major _ _ _
        (chain_step compare_numbers compare_numbers-IsOrder x.minor y.minor z.minor _ _ _ (
          chain_step compare_numbers compare_numbers-IsOrder x.patch y.patch z.patch _ _ _
            (pre-IsOrder.chains x.pre y.pre z.pre)))
        h k;
}
