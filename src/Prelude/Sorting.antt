-- ===== src/Prelude/Sorting.antt =====
-- What `filter`, `take` and `sort` of Prelude/Lists keep.
use Prim.Native.Nat.{ℕ, zero, suc, ◌+◌, ◌≤◌, ◌<◌}
use mathlib.Core.Path.{◌≡◌, refl, sym, ap, ◌∙◌}
use mathlib.Core.Logic.{inl, inr}
use mathlib.Core.Bool.{Bool, true, false}
use mathlib.Core.List.{List, [], ◌∷◌, ◌++◌, map}
use native.Mathlib.Omega.{arith}
use mathlib.Core.Option.{some}
use ovrflo.Prelude.Tests.{Bool-cases, ltb, ltb→lt, ltb_false→le}
use ovrflo.Prelude.Lists.{
  length, get_elem?, take, filter, any, All, All-get, insert_sorted, sort_from, sort,
}

module _ {ℓ κ} {A : Type ℓ} (P : A → Type κ) where
  pub All-take : (n : ℕ) (xs : List A) → All P xs → All P (take n xs)
  All-take zero xs h = tt
  All-take (suc n) [] h = tt
  All-take (suc n) (x ∷ xs) h = (h.0, All-take n xs h.1)

  pub All-filter_keep : (p : A → Bool) (xs : List A) → All P xs → All P (filter p xs)
  All-filter_keep p [] h = tt
  All-filter_keep p (x ∷ xs) h = elim (Bool-cases (p x)) [
    | inl e ↦ rw e (h.0, All-filter_keep p xs h.1)
    | inr e ↦ rw e (All-filter_keep p xs h.1)
  ]

  All-insert_sorted :
      (before : A → A → Bool) (x : A) (ys : List A)
      → P x
      → All P ys
      → All P (insert_sorted before x ys)
  All-insert_sorted before x [] p h = (p, tt)
  All-insert_sorted before x (y ∷ ys) p h = elim (Bool-cases (before x y)) [
    | inl e ↦ rw e (p, h)
    | inr e ↦ rw e (h.0, All-insert_sorted before x ys p h.1)
  ]

  All-sort_from :
      (before : A → A → Bool) (acc xs : List A)
      → All P acc
      → All P xs
      → All P (sort_from before acc xs)
  unfolding sort_from
  All-sort_from before acc [] g h = g
  All-sort_from before acc (x ∷ xs) g h =
      All-sort_from before (insert_sorted before x acc) xs (All-insert_sorted before x acc h.0 g)
        h.1

  pub All-sort : (before : A → A → Bool) (xs : List A) → All P xs → All P (sort before xs)
  unfolding sort
  All-sort before xs h = All-sort_from before [] xs tt h

module _ {ℓ} {A : Type ℓ} (before : A → A → Bool) where
  length-insert_sorted :
      (x : A) (ys : List A) → length (insert_sorted before x ys) ≡ suc (length ys)
  length-insert_sorted x [] = refl
  length-insert_sorted x (y ∷ ys) = ground (arith, length-insert_sorted x ys)

  length-sort_from : (acc xs : List A) → length (sort_from before acc xs) ≡ length acc + length xs
  unfolding sort_from
  length-sort_from acc [] = omega arith
  length-sort_from acc (x ∷ xs) =
      omega (arith, length-sort_from (insert_sorted before x acc) xs, length-insert_sorted x acc)

  pub length-sort : (xs : List A) → length (sort before xs) ≡ length xs
  unfolding sort
  length-sort xs = omega (arith, length-sort_from [] xs)

module _ {ℓ κ} {A : Type ℓ} (P : A → Type κ) (before : A → A → Bool) where
  All-of-insert_sorted : (x : A) (ys : List A) → All P (insert_sorted before x ys) → P x × All P ys
  All-of-insert_sorted x [] = λ h. (h.0, tt)
  All-of-insert_sorted x (y ∷ ys) = elim (Bool-cases (before x y)) [
    | inl e ↦ rw e (λ h. (h.0, h.1))
    | inr e ↦
        rw e (λ h. ((All-of-insert_sorted x ys h.1).0, (h.0, (All-of-insert_sorted x ys h.1).1)))
  ]

  All-of-sort_from : (acc xs : List A) → All P (sort_from before acc xs) → All P acc × All P xs
  unfolding sort_from
  All-of-sort_from acc [] h = (h, tt)
  All-of-sort_from acc (x ∷ xs) h =
      let (a, b) = All-of-sort_from (insert_sorted before x acc) xs h in
      let (c, d) = All-of-insert_sorted x acc a in (d, (c, b))

  pub All-of-sort : (xs : List A) → All P (sort before xs) → All P xs
  unfolding sort
  All-of-sort xs h = (All-of-sort_from [] xs h).1

module _ {ℓ κ μ} {A : Type ℓ} {P : A → Type κ} {Q : A → Type μ} (f : (x : A) → P x → Q x) where
  pub All-map : (xs : List A) → All P xs → All Q xs
  All-map [] h = tt
  All-map (x ∷ xs) h = (f x h.0, All-map xs h.1)

le_trans : (a b c : ℕ) → a < b → b ≤ c → a ≤ c
le_trans a b c h g = omega arith

pub All-both {ℓ κ μ} :
    {A : Type ℓ} (P : A → Type κ) (Q : A → Type μ) (xs : List A)
    → All P xs
    → All Q xs
    → All (λ x. P x × Q x) xs
All-both P Q [] h g = tt
All-both P Q (x ∷ xs) h g = ((h.0, g.0), All-both P Q xs h.1 g.1)

-- What `some` finds, and what it leaves.
module _ {ℓ} {A : Type ℓ} (p : A → Bool) where
  pub any-found {κ} :
      (Q : A → Type κ) (xs : List A) → All Q xs → any p xs ≡ true → (x : A) × (p x ≡ true) × Q x
  any-found Q [] h e = absurd (cc)
  any-found Q (x ∷ xs) h e = elim (Bool-cases (p x)) [
    | inl f ↦ (x, f, h.0)
    | inr f ↦ any-found Q xs h.1 (sym (rw f refl) ∙ e)
  ]

  pub any-false-All : (xs : List A) → any p xs ≡ false → All (λ x. p x ≡ false) xs
  any-false-All [] e = tt
  any-false-All (x ∷ xs) e = ground (arith, any-false-All xs)

-- Sorted by a number: each entry has the least number of the rest.
module _ {ℓ} {A : Type ℓ} (key : A → ℕ) where
  abbrev pub Ascends : List A → Type 0
  Ascends [] = Unit
  Ascends (x ∷ xs) = All (λ y. key x ≤ key y) xs × Ascends xs

  abbrev pub by_key : A → A → Bool
  by_key a b = ltb (key a) (key b)

  Ascends-insert_sorted : (x : A) (ys : List A) → Ascends ys → Ascends (insert_sorted by_key x ys)
  Ascends-insert_sorted x [] h = (tt, tt)
  Ascends-insert_sorted x (y ∷ ys) h = elim (Bool-cases (by_key x y)) [
    | inl e ↦ rw e (
      (
        omega (arith, ltb→lt (key x) (key y) e),
        All-map
            (λ z (g : key y ≤ key z). le_trans (key x) (key y) (key z) (ltb→lt (key x) (key y) e) g)
            ys h.0,
      ),
      h,
    )
    | inr e ↦ rw e (
      All-insert_sorted (λ z. key y ≤ key z) by_key x ys (ltb_false→le (key x) (key y) e) h.0,
      Ascends-insert_sorted x ys h.1,
    )
  ]

  Ascends-sort_from : (acc xs : List A) → Ascends acc → Ascends (sort_from by_key acc xs)
  unfolding sort_from
  Ascends-sort_from acc [] h = h
  Ascends-sort_from acc (x ∷ xs) h =
      Ascends-sort_from (insert_sorted by_key x acc) xs (Ascends-insert_sorted x acc h)

  pub Ascends-sort : (xs : List A) → Ascends (sort by_key xs)
  unfolding sort
  Ascends-sort xs = Ascends-sort_from [] xs tt

-- The entry stands in the list.
abbrev pub Occurs {ℓ} : {A : Type ℓ} → A → List A → Type ℓ
Occurs x xs = (i : ℕ) × (get_elem? xs i ≡ some x)

pub All-Occurs {ℓ} : {A : Type ℓ} (xs : List A) → All (λ x. Occurs x xs) xs
All-Occurs [] = tt
All-Occurs (x ∷ xs) = ((0, refl), All-map (λ y h. (suc h.0, h.1)) xs (All-Occurs xs))

pub Occurs-sort {ℓ} :
    {A : Type ℓ} (before : A → A → Bool) (x : A) (xs : List A)
    → Occurs x xs
    → Occurs x (sort before xs)
Occurs-sort before x xs (i, e) =
    All-get (λ y. Occurs y (sort before xs)) xs i x
      (All-of-sort (λ y. Occurs y (sort before xs)) before xs (All-Occurs (sort before xs))) e

pub Occurs-map {ℓ κ} :
    {A : Type ℓ} {B : Type κ} (f : A → B) (x : A) (xs : List A)
    → Occurs x xs
    → Occurs (f x) (map f xs)
Occurs-map f x [] (i, e) = absurd (cc)
Occurs-map f x (y ∷ ys) (zero, e) = let same : y ≡ x = cc in (0, ap (λ z. some (f z)) same)
Occurs-map f x (y ∷ ys) (suc i, e) = let (j, g) = Occurs-map f x ys (i, e) in (suc j, g)

pub Occurs-append_left {ℓ} :
    {A : Type ℓ} (x : A) (xs ys : List A) → Occurs x xs → Occurs x (xs ++ ys)
Occurs-append_left x [] ys (i, e) = absurd (cc)
Occurs-append_left x (z ∷ xs) ys (zero, e) = (0, e)
Occurs-append_left x (z ∷ xs) ys (suc i, e) =
    let (j, g) = Occurs-append_left x xs ys (i, e) in (suc j, g)

pub Occurs-append_right {ℓ} :
    {A : Type ℓ} (x : A) (xs ys : List A) → Occurs x ys → Occurs x (xs ++ ys)
Occurs-append_right x [] ys h = h
Occurs-append_right x (z ∷ xs) ys h = let (j, g) = Occurs-append_right x xs ys h in (suc j, g)

pub Occurs-filter {ℓ} :
    {A : Type ℓ} (p : A → Bool) (x : A) (xs : List A)
    → p x ≡ true
    → Occurs x xs
    → Occurs x (filter p xs)
Occurs-filter p x [] h (i, e) = absurd (cc)
Occurs-filter p x (y ∷ ys) h (zero, e) =
    let same : y ≡ x = cc in let g : p y ≡ true = ap p same ∙ h in rw g (0, e)
Occurs-filter p x (y ∷ ys) h (suc i, e) = elim (Bool-cases (p y)) [
  | inl g ↦ let (j, k) = Occurs-filter p x ys h (i, e) in rw g (suc j, k)
  | inr g ↦ rw g (Occurs-filter p x ys h (i, e))
]
