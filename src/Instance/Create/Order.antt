-- ===== src/Instance/Create/Order.antt =====
-- The order in which `Create` tries the instance types.
use mathlib.Core.List.{Perm}
use karpenter_provider_ssh.Common.{
  ℕ, ◌≤◌, ◌<◌, ◌⊎◌, inl, inr, All, [], ◌∷◌, ◌≡◌, refl, true, false, Option, none, some, List,
  IsSorted, sort_by-perm, sort_by-IsSorted, arith,
}
use karpenter_provider_ssh.Instance.{InstanceType, Offering}
use karpenter_provider_ssh.Instance.Create.{
  cheaper, cheapest, lowest_price, lower, price_le, sort_by_price,
}

price_le_total : (a b : Option ℕ) → price_le a b ≡ false → price_le b a ≡ true
price_le_total a none h = cc
price_le_total none (some q) h = refl
price_le_total (some p) (some q) h = ground arith

price_le_trans :
    (a b c : Option ℕ) → price_le a b ≡ true → price_le b c ≡ true → price_le a c ≡ true
price_le_trans a b none h k = refl
price_le_trans a none (some r) h k = cc
price_le_trans none (some q) (some r) h k = cc
price_le_trans (some p) (some q) (some r) h k = ground arith

-- Some offering of a list costs a price or less.
abbrev pub Offers : ℕ → List Offering → Type 0
Offers p [] = ⊥
Offers p (o ∷ os) = (o.price ≤ p) ⊎ Offers p os

-- Each offering of the second type is met by one of the first that costs no more.
abbrev pub AsCheap : InstanceType → InstanceType → Type 0
AsCheap a b = All (λ o. Offers o.price a.offerings) b.offerings

-- Each type is as cheap as every type after it.
abbrev pub ByPrice : List InstanceType → Type 0
ByPrice [] = Unit
ByPrice (a ∷ its) = All (AsCheap a) its × ByPrice its

Offers-up : (p q : ℕ) (os : List Offering) → p ≤ q → Offers p os → Offers q os
Offers-up p q [] h f = elim f [ ]
Offers-up p q (o ∷ os) h (inl here) = inl (omega arith)
Offers-up p q (o ∷ os) h (inr more) = inr (Offers-up p q os h more)

Offers-all :
    (p q : ℕ) (os : List Offering) (xs : List Offering)
    → p ≤ q
    → Offers p os
    → All (λ o. q ≤ o.price) xs
    → All (λ o. Offers o.price os) xs
Offers-all p q os [] h f a = tt
Offers-all p q os (x ∷ xs) h f (b, a) =
    (Offers-up p x.price os (omega arith) f, Offers-all p q os xs h f a)

-- What `cheapest` finds among offerings, from a price before them.
abbrev Lowest : ℕ → List Offering → ℕ → Type 0
Lowest p os q = (q ≤ p) × All (λ o. q ≤ o.price) os × ((p ≤ q) ⊎ Offers q os)

lower_cases : (p q : ℕ) → ((lower (some p) q ≡ q) × (q < p)) ⊎ ((lower (some p) q ≡ p) × (p ≤ q))
lower_cases p q = ground arith

lowest_price-Lowest :
    (p : ℕ) (os : List Offering) → (q : ℕ) × (lowest_price (some p) os ≡ some q) × Lowest p os q
unfolding lowest_price
lowest_price-Lowest p [] = (p, refl, (omega arith, tt, inl (omega arith)))
lowest_price-Lowest p (o ∷ os) = elim (lower_cases p o.price) [
  | inl (e, below) ↦
      let (q, found, (least, all, from)) = lowest_price-Lowest o.price os in
      (q, rw e found, (omega arith, (least, all), inr from))
  | inr (e, above) ↦
      let (q, found, (least, all, from)) = lowest_price-Lowest p os in
      (
        q,
        rw e found,
        (
          least,
          (omega arith, all),
          elim from [ inl start ↦ inl start | inr later ↦ inr (inr later) ],
        ),
      )
]

cheapest-AsCheap : (a b : InstanceType) → price_le (cheapest a) (cheapest b) ≡ true → AsCheap a b
unfolding cheapest lowest_price
cheapest-AsCheap a b = cases a.offerings b.offerings
  where
    cases :
        (xs os : List Offering)
        → price_le (lowest_price none xs) (lowest_price none os) ≡ true
        → All (λ o. Offers o.price xs) os
    cases xs [] h = tt
    cases [] (o ∷ os) h =
        let (q, found, lowest) = lowest_price-Lowest o.price os in absurd (ground arith)
    cases (x ∷ xs) (o ∷ os) h =
        let (q, found, (least, all, from)) = lowest_price-Lowest o.price os in
        let (r, found_r, (least_r, all_r, from_r)) = lowest_price-Lowest x.price xs in
        let below : r ≤ q = ground arith in
        Offers-all r q (x ∷ xs) (o ∷ os) below from_r (least, all)

IsSorted-ByPrice :
    (its : List InstanceType)
    → IsSorted (λ a b. price_le (cheapest a) (cheapest b)) its
    → ByPrice its
IsSorted-ByPrice [] s = tt
IsSorted-ByPrice (a ∷ its) (first, rest) = (all its first, IsSorted-ByPrice its rest)
  where
    all :
        (bs : List InstanceType)
        → All (λ b. price_le (cheapest a) (cheapest b) ≡ true) bs
        → All (AsCheap a) bs
    all [] h = tt
    all (b ∷ bs) (h, hs) = (cheapest-AsCheap a b h, all bs hs)

-- `sortByPrice` neither drops nor doubles an instance type, and of any two types in its result the
-- earlier one is as cheap: for each offering of the later one it has an offering that costs no more,
-- so a type without offerings comes after all that have one.
pub sort_by_price_lem :
    (its : List InstanceType) → Perm (sort_by_price its) its × ByPrice (sort_by_price its)
unfolding sort_by_price cheaper
sort_by_price_lem its = (
  sort_by-perm cheaper its,
  IsSorted-ByPrice (sort_by_price its) (
      sort_by-IsSorted cheaper (λ a b. price_le_total (cheapest a) (cheapest b))
        (λ a b c. price_le_trans (cheapest a) (cheapest b) (cheapest c)) its),
)
