-- ===== src/Base/Chains.antt =====
-- Lists of indices that are linked by a `next` and a `prev` function.
use Prim.Native.Nat.{ℕ, ◌+◌, ◌≤◌}
use mathlib.Core.Path.{◌≡◌, refl, sym, ◌∙◌, ap₂, subst}
use mathlib.Core.Logic.{◌≢◌}
use mathlib.Core.List.{List, [], ◌∷◌, ◌++◌, map}
use native.Mathlib.Omega.{arith}
use veritable_lasagna.Base.Lists.{count}

abbrev pub first_or : ℕ → List ℕ → ℕ
first_or d [] = d
first_or d (x ∷ xs) = x

abbrev pub last_or : ℕ → List ℕ → ℕ
last_or d [] = d
last_or d (x ∷ xs) = last_or x xs

-- No index stands twice in the list.
abbrev pub Distinct : List ℕ → Type 0
Distinct xs = (x : ℕ) → count x xs ≤ 1

pub Distinct-tail : (x : ℕ) (xs : List ℕ) → Distinct (x ∷ xs) → Distinct xs
Distinct-tail x xs d y = omega (arith, d y)

pub count-last_or : (x : ℕ) (xs : List ℕ) → 1 ≤ count (last_or x xs) (x ∷ xs)
count-last_or x [] = ground arith
count-last_or x (y ∷ ys) = omega (arith, count-last_or y ys)

pub head_count : (x : ℕ) (xs : List ℕ) → count x (x ∷ xs) ≡ count x xs + 1
head_count x xs = ground arith

pub first-ne-last : (x y : ℕ) (ys : List ℕ) → Distinct (x ∷ y ∷ ys) → x ≢ last_or y ys
first-ne-last x y ys d q =
    let c : 1 ≤ count x (y ∷ ys) = subst (λ z. 1 ≤ count z (y ∷ ys)) (sym q) (count-last_or y ys) in
    omega (arith, d x, head_count x (y ∷ ys), c)

pub last_or-snoc : (d : ℕ) (xs : List ℕ) (x : ℕ) → last_or d (xs ++ (x ∷ [])) ≡ x
last_or-snoc d [] x = refl
last_or-snoc d (y ∷ ys) x = last_or-snoc y ys x

pub first_or-append :
    (d : ℕ) (xs : List ℕ) (y : ℕ) (ys : List ℕ) → first_or d (xs ++ (y ∷ ys)) ≡ first_or y xs
first_or-append d [] y ys = refl
first_or-append d (x ∷ xs) y ys = refl

pub last_or-append : (d : ℕ) (xs ys : List ℕ) → last_or d (xs ++ ys) ≡ last_or (last_or d xs) ys
last_or-append d [] ys = refl
last_or-append d (x ∷ xs) ys = last_or-append x xs ys

pub map-agree {ℓ} :
    {B : Type ℓ} (f g : ℕ → B) (xs : List ℕ)
    → ((y : ℕ) → 1 ≤ count y xs → f y ≡ g y)
    → map f xs ≡ map g xs
map-agree f g [] h = refl
map-agree f g (x ∷ xs) h =
    ap₂ (λ a r. a ∷ r) (h x (ground arith)) (map-agree f g xs (λ y k. h y (omega arith)))

-- Each index but the last leads to the one behind it.
abbrev pub Chain : (ℕ → ℕ) → List ℕ → Type 0
Chain next [] = Unit
Chain next (x ∷ []) = Unit
Chain next (x ∷ y ∷ ys) = (next x ≡ y) × Chain next (y ∷ ys)

-- A chain is lengthened by a new index to which the last one is made to lead.
pub Chain-snoc :
    (next next' : ℕ → ℕ) (x : ℕ) (xs : List ℕ) (new : ℕ)
    → Chain next (x ∷ xs)
    → Distinct (x ∷ xs)
    → ((y : ℕ) → 1 ≤ count y (x ∷ xs) → y ≢ last_or x xs → next' y ≡ next y)
    → next' (last_or x xs) ≡ new
    → Chain next' ((x ∷ xs) ++ (new ∷ []))
Chain-snoc next next' x [] new c d same e = (e, tt)
Chain-snoc next next' x (y ∷ ys) new (l, c) d same e = (
  same x (ground arith) (first-ne-last x y ys d) ∙ l,
  Chain-snoc next next' y ys new c (Distinct-tail x (y ∷ ys) d) (λ z k n. same z (omega arith) n) e,
)

pub Chain-agree :
    (next next' : ℕ → ℕ) (xs : List ℕ)
    → Chain next xs
    → ((y : ℕ) → 1 ≤ count y xs → next' y ≡ next y)
    → Chain next' xs
Chain-agree next next' [] c same = tt
Chain-agree next next' (x ∷ []) c same = tt
Chain-agree next next' (x ∷ y ∷ ys) (l, c) same =
    (same x (ground arith) ∙ l, Chain-agree next next' (y ∷ ys) c (λ z k. same z (omega arith)))

-- From `before` to `after` the indices are linked in both directions.
abbrev pub Links : (ℕ → ℕ) → (ℕ → ℕ) → ℕ → List ℕ → ℕ → Type 0
Links prev next before [] after = Unit
Links prev next before (x ∷ xs) after =
    (prev x ≡ before) × (next x ≡ first_or after xs) × Links prev next x xs after

pub Links-agree :
    (prev next prev' next' : ℕ → ℕ) (before : ℕ) (xs : List ℕ) (after : ℕ)
    → Links prev next before xs after
    → ((y : ℕ) → 1 ≤ count y xs → (prev' y ≡ prev y) × (next' y ≡ next y))
    → Links prev' next' before xs after
Links-agree prev next prev' next' before [] after l same = tt
Links-agree prev next prev' next' before (x ∷ xs) after (p, n, l) same =
    let (p', n') = same x (ground arith) in
    (p' ∙ p, n' ∙ n, Links-agree prev next prev' next' x xs after l (λ y k. same y (omega arith)))

module _ (prev next : ℕ → ℕ) where
  pub Links-append :
      (before : ℕ) (xs ys : List ℕ) (after : ℕ)
      → Links prev next before xs (first_or after ys)
      → Links prev next (last_or before xs) ys after
      → Links prev next before (xs ++ ys) after
  Links-append before [] ys after l m = m
  Links-append before (x ∷ []) ys after (p, n, l) m = (p, n, m)
  Links-append before (x ∷ y ∷ xs) ys after (p, n, l) m =
      (p, n, Links-append x (y ∷ xs) ys after l m)

  pub Links-split :
      (before : ℕ) (xs ys : List ℕ) (after : ℕ)
      → Links prev next before (xs ++ ys) after
      → Links prev next before xs (first_or after ys) × Links prev next (last_or before xs) ys after
  Links-split before [] ys after l = (tt, l)
  Links-split before (x ∷ []) ys after (p, n, l) = ((p, n, tt), l)
  Links-split before (x ∷ y ∷ xs) ys after (p, n, l) =
      let (a, b) = Links-split x (y ∷ xs) ys after l in ((p, n, a), b)

-- A change to the links at the two ends: what the first leads back to, and the last leads on to.
pub Links-before :
    (prev next prev' next' : ℕ → ℕ) (before before' : ℕ) (x : ℕ) (xs : List ℕ) (after : ℕ)
    → Links prev next before (x ∷ xs) after
    → Distinct (x ∷ xs)
    → prev' x ≡ before'
    → next' x ≡ next x
    → ((y : ℕ) → 1 ≤ count y (x ∷ xs) → y ≢ x → (prev' y ≡ prev y) × (next' y ≡ next y))
    → Links prev' next' before' (x ∷ xs) after
Links-before prev next prev' next' before before' x xs after (p, n, l) d e f same = (
  e,
  f ∙ n,
  Links-agree prev next prev' next' x xs after l
      (λ y k. same y (omega arith) (λ q. ground (arith, d x))),
)

pub Links-after :
    (prev next prev' next' : ℕ → ℕ) (before : ℕ) (x : ℕ) (xs : List ℕ) (after after' : ℕ)
    → Links prev next before (x ∷ xs) after
    → Distinct (x ∷ xs)
    → next' (last_or x xs) ≡ after'
    → prev' (last_or x xs) ≡ prev (last_or x xs)
    → ((y : ℕ) → 1 ≤ count y (x ∷ xs) → y ≢ last_or x xs → (prev' y ≡ prev y) × (next' y ≡ next y))
    → Links prev' next' before (x ∷ xs) after'
Links-after prev next prev' next' before x [] after after' (p, n, l) d e f same = (f ∙ p, e, tt)
Links-after prev next prev' next' before x (y ∷ ys) after after' (p, n, l) d e f same =
    let (p', n') = same x (ground arith) (first-ne-last x y ys d) in
    (
      p' ∙ p,
      n' ∙ n,
      Links-after prev next prev' next' x y ys after after' l (Distinct-tail x (y ∷ ys) d) e f
          (λ z k. same z (omega arith)),
    )
