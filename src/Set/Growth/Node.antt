-- ===== src/Set/Growth/Node.antt =====
-- The descent of vlSetInsert at one node: the tree grows on one side of it, or in a subtree.
use Prim.Native.Nat.{Ordering}
use mathlib.Core.List.{append_assoc}
use veritable_lasagna.Base.{
  ℕ, suc, ◌≤◌, ◌<◌, ◌≡◌, refl, sym, ap, ◌∙◌, false, ◌==◌, [], ◌∷◌, ◌++◌, arith, count, Distinct,
  ne_of_count,
}
use veritable_lasagna.Pool.{invalid_idx}
use veritable_lasagna.Set.{Slot, Set, Side, to_left, to_right, node_at}
use veritable_lasagna.Set.Tree.{Tree, leaf, node, top, ids, inorder, Rep}
use veritable_lasagna.Set.Turning.{count-node, count_here, count_alone}
use veritable_lasagna.Set.Order.{IsOrder, Sorted, lookup}
use veritable_lasagna.Set.Sorted.{Sorted-parts, add_above, add_below, Each_below}
use veritable_lasagna.Set.Growth.{Placed, Growth, Rep-spared, Placed-part, locate_on, locate_end}

module _ {V : Type 0} (cmp : V → V → Ordering) (ord : IsOrder cmp) (s : Set V) (e : V)
    (new : ℕ) where
  module _ (fuel q : ℕ) (l : Tree V) (i : ℕ) (v : V) (r : Tree V)
      (rep : Rep (node_at s) q (node l i v r)) (dis : Distinct (ids (node l i v r)))
      (fresh : count new (ids (node l i v r)) ≡ 0) (new_in : new < invalid_idx)
      (sorted : Sorted cmp (inorder (node l i v r))) where
    new_i : (new == i) ≡ false
    new_i = ne_of_count new i (ids (node l i v r)) fresh (count_here l i v r)

    in_left : (j : ℕ) → 1 ≤ count j (ids l) → 1 ≤ count j (ids (node l i v r))
    in_left j h = omega (arith, count-node j l i v r)

    in_right : (j : ℕ) → 1 ≤ count j (ids r) → 1 ≤ count j (ids (node l i v r))
    in_right j h = omega (arith, count-node j l i v r)

    -- In a subtree.
    pub Growth-left :
        cmp v e ≡ Ordering.gt
        → lookup cmp e (inorder (node l i v r)) ≡ lookup cmp e (inorder l)
        → (top l == invalid_idx) ≡ false
        → Growth cmp ord s e new fuel i l
        → Growth cmp ord s e new (suc fuel) q (node l i v r)
    Growth-left more below in_tree g =
        let (hp, hl, hr, hv, repl, repr) = rep in
        let c = count-node g.cur l i v r in
        let one = dis g.cur in
        let inside = g.has in
        let cur_i : (g.cur == i) ≡ false = ground arith in
        let no_cur : count g.cur (ids r) ≡ 0 = omega arith in
        let no_new : count new (ids r) ≡ 0 = omega (arith, count-node new l i v r) in
        record {
          cur = g.cur;
          d = g.d;
          tree = node g.tree i v r;
          at =
              locate_on cmp ord s e new fuel i Ordering.gt (top l) (ap (λ z. cmp z e) hv ∙ more)
                refl hl in_tree
              ∙ g.at;
          has = omega (arith, c);
          before = g.before;
          after = g.after ++ (i ∷ ids r);
          old_ids = rw g.old_ids (append_assoc g.before g.after (i ∷ ids r));
          new_ids = rw g.new_ids (append_assoc g.before (new ∷ g.after) (i ∷ ids r));
          entries =
              ap (λ z. z ++ ((i, v) ∷ inorder r)) g.entries
              ∙ sym (add_below cmp ord (new, e) (inorder l) (i, v) (inorder r) more);
          missing = below ∙ g.missing;
          same_top = refl;
          grown = λ get placed.
              (let here = placed.rest_links i (count_here l i v r) cur_i new_i in
                (
                  here.parent ∙ hp,
                  here.left ∙ hl ∙ sym g.same_top,
                  here.right ∙ hr,
                  here.value ∙ hv,
                  g.grown get (
                      Placed-part cmp ord s e new get (ids (node l i v r)) (ids l) g.cur g.d in_left
                        placed),
                  Rep-spared cmp ord s e new get (ids (node l i v r)) g.cur g.d i r placed in_right
                      no_cur no_new repr,
                ));
        }

    pub Growth-right :
        cmp v e ≡ Ordering.lt
        → lookup cmp e (inorder (node l i v r)) ≡ lookup cmp e (inorder r)
        → (top r == invalid_idx) ≡ false
        → Growth cmp ord s e new fuel i r
        → Growth cmp ord s e new (suc fuel) q (node l i v r)
    Growth-right less below in_tree g =
        let (hp, hl, hr, hv, repl, repr) = rep in
        let p = Sorted-parts cmp ord (inorder l) i v (inorder r) sorted in
        let c = count-node g.cur l i v r in
        let one = dis g.cur in
        let inside = g.has in
        let cur_i : (g.cur == i) ≡ false = ground arith in
        let no_cur : count g.cur (ids l) ≡ 0 = omega arith in
        let no_new : count new (ids l) ≡ 0 = omega (arith, count-node new l i v r) in
        record {
          cur = g.cur;
          d = g.d;
          tree = node l i v g.tree;
          at =
              locate_on cmp ord s e new fuel i Ordering.lt (top r) (ap (λ z. cmp z e) hv ∙ less)
                refl hr in_tree
              ∙ g.at;
          has = omega (arith, c);
          before = ids l ++ (i ∷ g.before);
          after = g.after;
          old_ids = rw g.old_ids (sym (append_assoc (ids l) (i ∷ g.before) g.after));
          new_ids = rw g.new_ids (sym (append_assoc (ids l) (i ∷ g.before) (new ∷ g.after)));
          entries =
              ap (λ z. inorder l ++ ((i, v) ∷ z)) g.entries
              ∙ sym (
                  add_above cmp ord (new, e) (inorder l) (i, v) (inorder r)
                    (Each_below cmp ord v e (inorder l) less p.below) less);
          missing = below ∙ g.missing;
          same_top = refl;
          grown = λ get placed.
              (let here = placed.rest_links i (count_here l i v r) cur_i new_i in
                (
                  here.parent ∙ hp,
                  here.left ∙ hl,
                  here.right ∙ hr ∙ sym g.same_top,
                  here.value ∙ hv,
                  Rep-spared cmp ord s e new get (ids (node l i v r)) g.cur g.d i l placed in_left
                      no_cur no_new repl,
                  g.grown get (
                      Placed-part cmp ord s e new get (ids (node l i v r)) (ids r) g.cur g.d
                        in_right placed),
                ));
        }

    -- At the node itself.
    leaf_grown :
        (get : ℕ → Slot V) (d : Side)
        → Placed cmp ord s e new get (ids (node l i v r)) i d
        → Rep get i (node leaf new e leaf)
    leaf_grown get d placed =
        let n = placed.leaf_links in (n.parent, n.left, n.right, n.value, tt, tt)

    pub Growth-here_left :
        cmp v e ≡ Ordering.gt
        → lookup cmp e (inorder (node l i v r)) ≡ lookup cmp e (inorder l)
        → l ≡ leaf
        → Growth cmp ord s e new (suc fuel) q (node l i v r)
    Growth-here_left more below empty =
        let (hp, hl, hr, hv, repl, repr) = rep in
        let (alone_l, alone_r) = count_alone l i v r dis in
        let no_new : count new (ids r) ≡ 0 = omega (arith, count-node new l i v r) in
        record {
          cur = i;
          d = to_left;
          tree = node (node leaf new e leaf) i v r;
          at =
              locate_end cmp ord s e new fuel i Ordering.gt (ap (λ z. cmp z e) hv ∙ more) refl
                (hl ∙ ap top empty);
          has = count_here l i v r;
          before = [];
          after = i ∷ ids r;
          old_ids = rw empty refl;
          new_ids = refl;
          entries = rw (empty, more) refl;
          missing = below ∙ ap (λ t. lookup cmp e (inorder t)) empty;
          same_top = refl;
          grown = λ get placed.
              (let here = placed.cur_links in
                (
                  here.parent ∙ hp,
                  here.left,
                  here.right ∙ hr,
                  here.value ∙ hv,
                  leaf_grown get to_left placed,
                  Rep-spared cmp ord s e new get (ids (node l i v r)) i to_left i r placed in_right
                      alone_r no_new repr,
                ));
        }

    pub Growth-here_right :
        cmp v e ≡ Ordering.lt
        → lookup cmp e (inorder (node l i v r)) ≡ lookup cmp e (inorder r)
        → r ≡ leaf
        → Growth cmp ord s e new (suc fuel) q (node l i v r)
    Growth-here_right less below empty =
        let (hp, hl, hr, hv, repl, repr) = rep in
        let p = Sorted-parts cmp ord (inorder l) i v (inorder r) sorted in
        let (alone_l, alone_r) = count_alone l i v r dis in
        let no_new : count new (ids l) ≡ 0 = omega (arith, count-node new l i v r) in
        record {
          cur = i;
          d = to_right;
          tree = node l i v (node leaf new e leaf);
          at =
              locate_end cmp ord s e new fuel i Ordering.lt (ap (λ z. cmp z e) hv ∙ less) refl
                (hr ∙ ap top empty);
          has = count_here l i v r;
          before = ids l ++ (i ∷ []);
          after = [];
          old_ids = rw empty (sym (append_assoc (ids l) (i ∷ []) []));
          new_ids = sym (append_assoc (ids l) (i ∷ []) (new ∷ []));
          entries = rw empty (
              sym (
                add_above cmp ord (new, e) (inorder l) (i, v) []
                  (Each_below cmp ord v e (inorder l) less p.below) less));
          missing = below ∙ ap (λ t. lookup cmp e (inorder t)) empty;
          same_top = refl;
          grown = λ get placed.
              (let here = placed.cur_links in
                (
                  here.parent ∙ hp,
                  here.left ∙ hl,
                  here.right,
                  here.value ∙ hv,
                  Rep-spared cmp ord s e new get (ids (node l i v r)) i to_right i l placed in_left
                      alone_l no_new repl,
                  leaf_grown get to_right placed,
                ));
        }
