-- ===== src/Set/Filtered.antt =====
-- vlSetIntersection and vlSetDifference take the elements of one set by a search in the other.
use Prim.Native.Nat.{Ordering}
use veritable_lasagna.Base.{
  ℕ, ◌<◌, ◌≡◌, refl, sym, ap, ◌∙◌, Bool, true, false, ◌==◌, leb, if◌then◌else◌, Option, none, some,
  List, [], ◌∷◌, arith, length, Bool-cases, ==_iff, inl, inr,
}
use veritable_lasagna.Pool.{invalid_idx}
use veritable_lasagna.Set.{Slot, Set}
use veritable_lasagna.Set.Tree.{Tree, leaf, node, ids, inorder, IsTree}
use veritable_lasagna.Set.Order.{IsOrder, Sorted, lookup}
use veritable_lasagna.Set.Search.{find_lem, length-node}
use veritable_lasagna.Set.Visit.{visit, same_body, for_each_lem}
use veritable_lasagna.Set.Algebra.{adding, adding_if, for_each, intersection, difference}

empty_inorder : {V : Type 0} (u : Tree V) → length (ids u) ≡ 0 → inorder u ≡ []
empty_inorder leaf h = refl
empty_inorder (node l i v r) h = absurd (omega (arith, length-node l i v r))

module _ {V : Type 0} (cmp : V → V → Ordering) where
  -- Whether an element is in a list.
  abbrev pub is_in : V → List (ℕ × V) → Bool
  is_in e es = if lookup cmp e es == invalid_idx then false else true

  -- The entries that are, or are not, in another list.
  abbrev pub kept : Bool → List (ℕ × V) → List (ℕ × V) → List (ℕ × V)
  kept there others [] = []
  kept there others ((i, v) ∷ es) =
      let rest = kept there others es in
      if is_in v others
      then if there then (i, v) ∷ rest else rest
      else if there
      then rest
      else (i, v) ∷ rest

  -- Nothing is taken away for an empty list.
  kept_all : (es : List (ℕ × V)) → kept false [] es ≡ es
  kept_all [] = refl
  kept_all ((i, v) ∷ es) = ap (λ rest. (i, v) ∷ rest) (kept_all es)

  module _ (fuel : ℕ) (block : Option (ℕ → Slot V)) (ord : IsOrder cmp) where
    -- The other set of an intersection or a difference.
    module _ (b : Set V) (u : Tree V) (is_b : IsTree b u) (sorted : Sorted cmp (inorder u))
        (enough_b : length (ids u) < fuel) where
      adding_if_lem :
          (there : Bool) (e : V) (dest : Set V)
          → adding_if fuel block cmp there b e dest ≡ (
              if is_in e (inorder u)
              then if there then adding fuel block cmp e dest else some dest
              else if there
              then some dest
              else adding fuel block cmp e dest)
      unfolding adding_if
      adding_if_lem there e dest =
          rw (adding_if, find_lem cmp ord b e fuel u is_b sorted enough_b) refl

      -- The loop body on an element that is added, and on one that is passed over.
      body_adds :
          (there : Bool) (i : ℕ) (v : V) (es more : List (ℕ × V)) (dest : Set V)
          → adding_if fuel block cmp there b v dest ≡ adding fuel block cmp v dest
          → ((d : Set V)
              → visit (adding_if fuel block cmp there b) es d
                ≡ visit (adding fuel block cmp) more d)
          → visit (adding_if fuel block cmp there b) ((i, v) ∷ es) dest
            ≡ visit (adding fuel block cmp) ((i, v) ∷ more) dest
      body_adds there i v es more dest adds rest =
          same_body (adding_if fuel block cmp there b v dest) _ (visit (adding fuel block cmp) more)
            rest
          ∙ ap
              (λ o. elim o as (λ z. Option (Set V)) [
                | none ↦ none
                | some d ↦ visit (adding fuel block cmp) more d
              ])
              adds

      body_passes :
          (there : Bool) (i : ℕ) (v : V) (es : List (ℕ × V)) (dest : Set V)
          → adding_if fuel block cmp there b v dest ≡ some dest
          → visit (adding_if fuel block cmp there b) ((i, v) ∷ es) dest
            ≡ visit (adding_if fuel block cmp there b) es dest
      body_passes there i v es dest passes =
          ap
            (λ o. elim o as (λ z. Option (Set V)) [
              | none ↦ none
              | some d ↦ visit (adding_if fuel block cmp there b) es d
            ])
            passes

      visit-kept :
          (there : Bool) (es : List (ℕ × V)) (dest : Set V)
          → visit (adding_if fuel block cmp there b) es dest
            ≡ visit (adding fuel block cmp) (kept there (inorder u) es) dest
      visit-kept there [] dest = refl
      visit-kept true ((i, v) ∷ es) dest = elim (Bool-cases (is_in v (inorder u))) [
        | inl e ↦
            body_adds true i v es (kept true (inorder u) es) dest
              (adding_if_lem true v dest ∙ rw e refl) (visit-kept true es)
            ∙ rw e refl
        | inr e ↦
            body_passes true i v es dest (adding_if_lem true v dest ∙ rw e refl)
            ∙ visit-kept true es dest
            ∙ rw e refl
      ]
      visit-kept false ((i, v) ∷ es) dest = elim (Bool-cases (is_in v (inorder u))) [
        | inl e ↦
            body_passes false i v es dest (adding_if_lem false v dest ∙ rw e refl)
            ∙ visit-kept false es dest
            ∙ rw e refl
        | inr e ↦
            body_adds false i v es (kept false (inorder u) es) dest
              (adding_if_lem false v dest ∙ rw e refl) (visit-kept false es)
            ∙ rw e refl
      ]

      filtered :
          (there : Bool) (a dest : Set V) (t : Tree V)
          → IsTree a t
          → length (ids t) < fuel
          → for_each fuel block cmp (adding_if fuel block cmp there b) a dest
            ≡ visit (adding fuel block cmp) (kept there (inorder u) (inorder t)) dest
      filtered there a dest t is_a enough_a =
          for_each_lem fuel block cmp (adding_if fuel block cmp there b) a t dest is_a enough_a
          ∙ visit-kept there (inorder t) dest

    -- Where the nodes of both sets are trees whose elements are in order, the comparator is an
    -- order, and the fuel is more than the number of nodes of each, the intersection inserts into
    -- the destination, in order and once each, just the elements of the set with fewer elements
    -- that the search finds in the other one.
    pub intersection_lem :
        (a b dest : Set V) (t u : Tree V)
        → IsTree a t
        → IsTree b u
        → Sorted cmp (inorder t)
        → Sorted cmp (inorder u)
        → length (ids t) < fuel
        → length (ids u) < fuel
        → intersection fuel block cmp a b dest
          ≡ visit
              (adding fuel block cmp)
              (if leb (length (ids t)) (length (ids u))
                then kept true (inorder u) (inorder t)
                else kept true (inorder t) (inorder u))
              dest
    unfolding intersection
    intersection_lem a b dest t u is_a is_b sorted_a sorted_b enough_a enough_b =
        let sizes : leb a.total_elements b.total_elements ≡ leb (length (ids t)) (length (ids u)) =
          ap (λ n. leb n b.total_elements) is_a.counted
          ∙ ap (λ n. leb (length (ids t)) n) is_b.counted in
        elim (Bool-cases (leb (length (ids t)) (length (ids u)))) [
          | inl e ↦
              rw (sizes ∙ e, e) (filtered b u is_b sorted_b enough_b true a dest t is_a enough_a)
          | inr e ↦
              rw (sizes ∙ e, e) (filtered a t is_a sorted_a enough_a true b dest u is_b enough_b)
        ]

    -- Where the nodes of both sets are trees, the elements of the second one are in order, the
    -- comparator is an order, and the fuel is more than the number of nodes of each, the
    -- difference inserts into the destination, in order and once each, just the elements of the
    -- first set that have no equal one in the second one.
    pub difference_lem :
        (a b dest : Set V) (t u : Tree V)
        → IsTree a t
        → IsTree b u
        → Sorted cmp (inorder u)
        → length (ids t) < fuel
        → length (ids u) < fuel
        → difference fuel block cmp a b dest
          ≡ visit (adding fuel block cmp) (kept false (inorder u) (inorder t)) dest
    unfolding difference
    difference_lem a b dest t u is_a is_b sorted_b enough_a enough_b =
        elim (Bool-cases (b.total_elements == 0)) [
          | inl e ↦
              let none_there =
                empty_inorder u (sym is_b.counted ∙ (==_iff b.total_elements 0).0 e) in
              rw e (
                for_each_lem fuel block cmp (adding fuel block cmp) a t dest is_a enough_a
                ∙ ap (λ es. visit (adding fuel block cmp) es dest)
                    (sym (ap (λ os. kept false os (inorder t)) none_there ∙ kept_all (inorder t))))
          | inr e ↦ rw e (filtered b u is_b sorted_b enough_b false a dest t is_a enough_a)
        ]
