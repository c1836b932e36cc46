-- ===== src/Base/Lists.antt =====
-- Lists over the native numbers: length, positions, and how often a number occurs.
use Prim.Native.Nat.{ℕ, zero, suc, ◌+◌, ◌≤◌}
use mathlib.Core.Path.{◌≡◌, refl, ap₂}
use mathlib.Core.Logic.{◌≢◌}
use mathlib.Core.Bool.{false}
use mathlib.Core.List.{List, [], ◌∷◌, ◌++◌, map}
use native.Mathlib.Omega.{arith}
use veritable_lasagna.Base.Tests.{◌==◌, if◌then◌else◌}

module _ {ℓ} {A : Type ℓ} where
  abbrev pub length : List A → ℕ
  length [] = 0
  length (x ∷ xs) = suc (length xs)

  -- A change out of bounds changes nothing.
  abbrev pub modify : List A → ℕ → (A → A) → List A
  modify [] i f = []
  modify (x ∷ xs) zero f = f x ∷ xs
  modify (x ∷ xs) (suc i) f = x ∷ modify xs i f

  pub length-append : (xs ys : List A) → length (xs ++ ys) ≡ length xs + length ys
  length-append [] ys = omega arith
  length-append (x ∷ xs) ys = omega (arith, length-append xs ys)

  pub length-modify : (xs : List A) (i : ℕ) (f : A → A) → length (modify xs i f) ≡ length xs
  length-modify [] i f = refl
  length-modify (x ∷ xs) zero f = refl
  length-modify (x ∷ xs) (suc i) f = omega (arith, length-modify xs i f)

pub length-map {ℓ κ} :
    {A : Type ℓ} {B : Type κ} (f : A → B) (xs : List A) → length (map f xs) ≡ length xs
length-map f [] = refl
length-map f (x ∷ xs) = omega (arith, length-map f xs)

-- How often `a` occurs.
abbrev pub count : ℕ → List ℕ → ℕ
count a [] = 0
count a (x ∷ xs) = (if a == x then 1 else 0) + count a xs

pub count-append : (n : ℕ) (us vs : List ℕ) → count n (us ++ vs) ≡ count n us + count n vs
count-append n (u ∷ us) vs = omega (count-append n us vs, arith)
count-append n [] vs = omega arith

pub ne_of_count : (a b : ℕ) (xs : List ℕ) → count a xs ≡ 0 → 1 ≤ count b xs → (a == b) ≡ false
ne_of_count a b [] h k = absurd (omega arith)
ne_of_count a b (x ∷ xs) h k = ground (arith, ne_of_count a b xs)

snoc-ne-nil {ℓ} : {A : Type ℓ} (xs : List A) (x : A) → (xs ++ (x ∷ [])) ≢ []
snoc-ne-nil [] x e = cc e
snoc-ne-nil (y ∷ ys) x e = cc e

pub snoc-injective {ℓ} :
    {A : Type ℓ} (xs ys : List A) (x y : A)
    → (xs ++ (x ∷ [])) ≡ (ys ++ (y ∷ []))
    → (xs ≡ ys) × (x ≡ y)
snoc-injective [] [] x y e = (refl, cc e)
snoc-injective [] (w ∷ ys) x y e = absurd (snoc-ne-nil ys y (cc e))
snoc-injective (z ∷ xs) [] x y e = absurd (snoc-ne-nil xs x (cc e))
snoc-injective (z ∷ xs) (w ∷ ys) x y e =
    let (p, q) = snoc-injective xs ys x y (cc e) in (ap₂ (λ a r. a ∷ r) (cc e) p, q)

pub append-injective {ℓ} :
    {A : Type ℓ} (xs ys us vs : List A)
    → length xs ≡ length ys
    → (xs ++ us) ≡ (ys ++ vs)
    → (xs ≡ ys) × (us ≡ vs)
append-injective [] [] us vs n e = (refl, e)
append-injective [] (y ∷ ys) us vs n e = absurd (omega arith)
append-injective (x ∷ xs) [] us vs n e = absurd (omega arith)
append-injective (x ∷ xs) (y ∷ ys) us vs n e =
    let (p, q) = append-injective xs ys us vs (omega arith) (cc e) in
    (ap₂ (λ a r. a ∷ r) (cc e) p, q)

-- The first elements of a list, and the others, by a native number.
abbrev pub take : {A : Type 0} → ℕ → List A → List A
take zero xs = []
take (suc n) [] = []
take (suc n) (x ∷ xs) = x ∷ take n xs

abbrev pub drop : {A : Type 0} → ℕ → List A → List A
drop zero xs = xs
drop (suc n) [] = []
drop (suc n) (x ∷ xs) = drop n xs
