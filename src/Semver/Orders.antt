-- ===== src/Semver/Orders.antt =====
-- Comparisons that are total orders, as core/internal/pluginverify/semver.go composes them.
use agentbell.Common.{[], ◌∷◌, Str, ◌≡◌, refl, sym, arith, ◌⊎◌, inl, inr}
use agentbell.Semver.Compare.{Order, compare_numbers, ◌then_by◌, compare_strings}

abbrev pub flip : Order → Order
flip Order.less = Order.greater
flip Order.same = Order.same
flip Order.greater = Order.less

-- A comparison is a total order: swapping its sides flips it, it finds equal values only the same,
-- and `less` is transitive.
pub record IsOrder {A : Type 0} (c : A → A → Order) : Type 0 where
  pub swaps : (a b : A) → c b a ≡ flip (c a b)
  pub identifies : (a b : A) → c a b ≡ Order.same → a ≡ b
  pub chains : (x y z : A) → c x y ≡ Order.less → c y z ≡ Order.less → c x z ≡ Order.less

pub compare_numbers-IsOrder : IsOrder compare_numbers
unfolding compare_numbers
compare_numbers-IsOrder = record {
  swaps = λ a b. ground arith;
  identifies = λ a b h. ground arith;
  chains = λ x y z h k. ground arith;
}

refl_of_order : {A : Type 0} (c : A → A → Order) → IsOrder c → (a : A) → c a a ≡ Order.same
refl_of_order c o a = self (c a a) (o.swaps a a)
  where
    self : (r : Order) → r ≡ flip r → r ≡ Order.same
    self Order.less h = cc
    self Order.same h = refl
    self Order.greater h = cc

pub swap-then_by : (a b : Order) → flip (a then_by b) ≡ flip a then_by flip b
swap-then_by Order.less b = refl
swap-then_by Order.same b = refl
swap-then_by Order.greater b = refl

pub flip_then_by :
    (a b : Order) {a' b' : Order} → a' ≡ flip a → b' ≡ flip b → a' then_by b' ≡ flip (a then_by b)
flip_then_by a b h k = rw (h, k) (sym (swap-then_by a b))

pub then_by-same : (a b : Order) → a then_by b ≡ Order.same → (a ≡ Order.same) × (b ≡ Order.same)
then_by-same a b h = ground arith

then_by-less :
    (a b : Order)
    → a then_by b ≡ Order.less
    → (a ≡ Order.less) ⊎ ((a ≡ Order.same) × (b ≡ Order.less))
then_by-less Order.less b h = inl refl
then_by-less Order.same b h = inr (refl, h)
then_by-less Order.greater b h = cc

-- The step of a lexicographic comparison: from one comparison of the fronts and a transitive chain of
-- the rests.
pub chain_step :
    {A : Type 0} (c : A → A → Order)
    → IsOrder c
    → (x y z : A) (p q r : Order) → (p ≡ Order.less → q ≡ Order.less → r ≡ Order.less)
    → c x y then_by p ≡ Order.less
    → c y z then_by q ≡ Order.less
    → c x z then_by r ≡ Order.less
chain_step {A} c o x y z p q r k h₁ h₂ = go (then_by-less (c x y) p h₁) (then_by-less (c y z) q h₂)
  where
    go :
        (c x y ≡ Order.less) ⊎ ((c x y ≡ Order.same) × (p ≡ Order.less))
        → (c y z ≡ Order.less) ⊎ ((c y z ≡ Order.same) × (q ≡ Order.less))
        → c x z then_by r ≡ Order.less
    go (inl a) (inl b) = rw (o.chains x y z a b)
    go (inl a) (inr (b, b')) = rw (← o.identifies y z b, a)
    go (inr (a, a')) (inl b) = rw (o.identifies x y a, b)
    go (inr (a, a')) (inr (b, b')) = rw (o.identifies x y a, b) (k a' b')

pub strings-swaps : (a b : Str) → compare_strings b a ≡ flip (compare_strings a b)
unfolding compare_strings
strings-swaps [] [] = refl
strings-swaps [] (y ∷ ys) = refl
strings-swaps (x ∷ xs) [] = refl
strings-swaps (x ∷ xs) (y ∷ ys) =
    rw (compare_numbers-IsOrder.swaps x y, strings-swaps xs ys)
      (sym (swap-then_by (compare_numbers x y) (compare_strings xs ys)))

pub strings-identifies : (a b : Str) → compare_strings a b ≡ Order.same → a ≡ b
unfolding compare_strings
strings-identifies [] [] h = refl
strings-identifies [] (y ∷ ys) h = cc
strings-identifies (x ∷ xs) [] h = cc
strings-identifies (x ∷ xs) (y ∷ ys) h =
    let (p, q) = then_by-same (compare_numbers x y) (compare_strings xs ys) h in
    cc (compare_numbers-IsOrder.identifies x y p, strings-identifies xs ys q)

pub strings-chains :
    (x y z : Str)
    → compare_strings x y ≡ Order.less
    → compare_strings y z ≡ Order.less
    → compare_strings x z ≡ Order.less
unfolding compare_strings
strings-chains [] [] z h k = cc
strings-chains [] (y ∷ ys) [] h k = cc
strings-chains [] (y ∷ ys) (z ∷ zs) h k = refl
strings-chains (x ∷ xs) [] z h k = cc
strings-chains (x ∷ xs) (y ∷ ys) [] h k = cc
strings-chains (x ∷ xs) (y ∷ ys) (z ∷ zs) h k =
    chain_step compare_numbers compare_numbers-IsOrder x y z (compare_strings xs ys)
      (compare_strings ys zs) (compare_strings xs zs) (strings-chains xs ys zs) h k

pub strings-IsOrder : IsOrder compare_strings
strings-IsOrder = record {
  swaps = strings-swaps;
  identifies = strings-identifies;
  chains = strings-chains;
}
