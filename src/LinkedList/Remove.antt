-- ===== src/LinkedList/Remove.antt =====
-- Removal from the list of vl_linked_list.c, at the ends and at an iterator.
use veritable_lasagna.Base.{
  ℕ, suc, ◌≡◌, refl, sym, ◌∙◌, List, [], ◌∷◌, ◌++◌, true, false, ◌==◌, if◌then◌else◌, ◌&&◌, arith,
  length, count, count-append, ◌≤◌, last_or, first_or, last_or-append, last_or-snoc, count-last_or,
}
use mathlib.Core.List.{append-nil}
use veritable_lasagna.Pool.{Node, invalid_idx}
use veritable_lasagna.Pool.Owns.{Ledger, Ledger-range}
use veritable_lasagna.Linked.Fields.{IsLinked}
use veritable_lasagna.Linked.Pop.{unlink_front-IsLinked, unlink_back-IsLinked}
use veritable_lasagna.Linked.Bridge.{neighbours, bridge-IsLinked}
use veritable_lasagna.LinkedList.{LinkedList, pop_front, pop_back, remove}

valid_idx :
    {ns : List Node} {free : List ℕ} (live : List ℕ) (y : ℕ)
    → Ledger ns free live
    → 1 ≤ count y live
    → (y == invalid_idx) ≡ false
valid_idx live y o k = let r = (Ledger-range live y o (omega arith)).2 in ground arith

-- The slot at an end of a list that may be empty is not VL_POOL_INVALID_IDX, if there is one.
last_valid :
    (d : ℕ) (xs : List ℕ)
    → ((y : ℕ) → 1 ≤ count y xs → (y == d) ≡ false)
    → (last_or d xs == d) ≡ (length xs == 0)
last_valid d [] h = ground arith
last_valid d (x ∷ xs) h =
    let f : (suc (length xs) == 0) ≡ false = ground arith in
    h (last_or x xs) (count-last_or x xs) ∙ sym f

first_valid :
    (d : ℕ) (xs : List ℕ)
    → ((y : ℕ) → 1 ≤ count y xs → (y == d) ≡ false)
    → (first_or d xs == d) ≡ (length xs == 0)
first_valid d [] h = ground arith
first_valid d (x ∷ xs) h =
    let f : (suc (length xs) == 0) ≡ false = ground arith in h x (ground arith) ∙ sym f

-- What `remove` makes of `head` and `tail` is the first and the last of what is left.
new_head :
    (d h : ℕ) (xs : List ℕ) (x : ℕ) (ys : List ℕ)
    → h ≡ first_or d (xs ++ (x ∷ ys))
    → (if (length xs == 0) && (length ys == 0)
        then d
        else if length xs == 0
        then first_or d ys
        else h)
      ≡ first_or d (xs ++ ys)
new_head d h [] x [] e = refl
new_head d h [] x (y ∷ ys) e = ground arith
new_head d h (z ∷ zs) x ys e = ground arith

new_tail :
    (d t : ℕ) (xs : List ℕ) (x : ℕ) (ys : List ℕ)
    → t ≡ last_or d (xs ++ (x ∷ ys))
    → (if (length xs == 0) && (length ys == 0)
        then d
        else if length ys == 0
        then last_or d xs
        else t)
      ≡ last_or d (xs ++ ys)
new_tail d t [] x [] e = refl
new_tail d t (z ∷ zs) x [] e = rw append-nil (ground arith)
new_tail d t xs x (y ∷ ys) e =
    let a = last_or-append d xs (x ∷ y ∷ ys) in let b = last_or-append d xs (y ∷ ys) in ground arith

module _ {V : Type 0} where
  -- On a list that is not empty, `pop_front` takes off the first element.
  pub pop_front-IsLinked :
      (l : LinkedList V) (x : ℕ) (xs : List ℕ) (v : V) (vs : List V)
      → IsLinked l.ends (x ∷ xs) (v ∷ vs)
      → IsLinked (pop_front l).ends xs vs
  unfolding pop_front
  pop_front-IsLinked l x xs v vs is =
      let valid = (Ledger-range (x ∷ xs) x is.owns (ground arith)).2 in
      let f : (l.ends.head == invalid_idx) ≡ false = ground (arith, is.head) in
      rw f ((unlink_front-IsLinked l.ends x xs v vs is).1)

  -- On a list that is not empty, `pop_back` takes off the last element.
  pub pop_back-IsLinked :
      (l : LinkedList V) (xs : List ℕ) (x : ℕ) (vs : List V) (v : V)
      → IsLinked l.ends (xs ++ (x ∷ [])) (vs ++ (v ∷ []))
      → IsLinked (pop_back l).ends xs vs
  unfolding pop_back
  pop_back-IsLinked l xs x vs v is =
      let held : 1 ≤ count x (xs ++ (x ∷ [])) = ground (arith, count-append x xs (x ∷ [])) in
      let valid = (Ledger-range (xs ++ (x ∷ [])) x is.owns (omega arith)).2 in
      let at_end = is.tail ∙ last_or-snoc invalid_idx xs x in
      let f : (l.ends.tail == invalid_idx) ≡ false = ground (arith, at_end) in
      rw f ((unlink_back-IsLinked l.ends xs x vs v is).1)

  -- On a list of one element, both pops leave the length field as it is.
  pop_single_length :
      (l : LinkedList V) (x : ℕ) (v : V)
      → IsLinked l.ends (x ∷ []) (v ∷ [])
      → ((pop_front l).length ≡ l.length) × ((pop_back l).length ≡ l.length)
  unfolding pop_front pop_back
  pop_single_length l x v is =
      let f : (l.ends.head == l.ends.tail) ≡ true = ground (arith, is.head, is.tail) in
      (ground (arith, f), ground (arith, f))

  -- On a list with an element at an iterator, `remove` takes that element out and gives its slot
  -- back, the others keep their slots and their order, and the length field stays as it is.
  pub remove-IsLinked :
      (l : LinkedList V) (xs : List ℕ) (x : ℕ) (ys : List ℕ) (vs : List V) (w : V) (ws : List V)
      → IsLinked l.ends (xs ++ (x ∷ ys)) (vs ++ (w ∷ ws))
      → length vs ≡ length xs
      → IsLinked (remove l x).ends (xs ++ ys) (vs ++ ws) × ((remove l x).length ≡ l.length)
  unfolding remove
  remove-IsLinked l xs x ys vs w ws is n =
      let (left, right) = neighbours l.ends xs x ys is.links in
      let valid =
        λ (y : ℕ) (k : 1 ≤ count y (xs ++ (x ∷ ys))). valid_idx (xs ++ (x ∷ ys)) y is.owns k in
      let a =
        last_valid invalid_idx xs (λ y k. valid y (omega (arith, count-append y xs (x ∷ ys)))) in
      let b =
        first_valid invalid_idx ys (λ y k. valid y (omega (arith, count-append y xs (x ∷ ys)))) in
      let g = new_head invalid_idx l.ends.head xs x ys is.head in
      let h = new_tail invalid_idx l.ends.tail xs x ys is.tail in
      rw (left, right, a, b, g, h) (bridge-IsLinked l.ends xs x ys vs w ws is n, refl)
