-- ===== src/LinkedList/Insert.antt =====
-- Insertion into the list of vl_linked_list.c, at the ends and in the middle.
use veritable_lasagna.Base.{
  ℕ, ◌≡◌, List, [], ◌∷◌, ◌++◌, some, true, false, ◌==◌, arith, length, count, count-append, ◌≤◌,
  Links-split,
}
use veritable_lasagna.Pool.{invalid_idx}
use veritable_lasagna.Pool.Owns.{Ledger-range}
use veritable_lasagna.Pool.Take.{CanGrow, take-Handed}
use veritable_lasagna.Linked.{Slot, prev_at, next_at}
use veritable_lasagna.Linked.Fields.{IsLinked}
use veritable_lasagna.Linked.Push.{link_front-IsLinked, link_back-IsLinked}
use veritable_lasagna.Linked.Between.{between-IsLinked}
use veritable_lasagna.LinkedList.{LinkedList, push_front, push_back, insert_after, insert_before}

module _ {V : Type 0} (l : LinkedList V) (v : V) (block : ℕ → Slot V) where
  -- On a list of `vs`, where a block can be added and its allocation succeeds, `push_front`
  -- returns the iterator of a slot that it puts in front, and the list then has the element and
  -- then `vs`.
  pub push_front-IsLinked :
      (ids : List ℕ) (vs : List V)
      → IsLinked l.ends ids vs
      → CanGrow l.ends.nodes
      → let (new, l') = push_front (some block) l v in IsLinked l'.ends (new ∷ ids) (v ∷ vs)
  unfolding push_front
  push_front-IsLinked ids vs is g =
      link_front-IsLinked l.ends ids vs v _ _ is (take-Handed l.ends.nodes ids block is.owns g)

  -- On a list of `vs`, where a block can be added and its allocation succeeds, `push_back` returns
  -- the iterator of a slot that it puts at the end, and the list then has `vs` and then the
  -- element.
  pub push_back-IsLinked :
      (ids : List ℕ) (vs : List V)
      → IsLinked l.ends ids vs
      → CanGrow l.ends.nodes
      → let (new, l') = push_back (some block) l v in
        IsLinked l'.ends (ids ++ (new ∷ [])) (vs ++ (v ∷ []))
  unfolding push_back
  push_back-IsLinked ids vs is g =
      link_back-IsLinked l.ends ids vs v _ _ is (take-Handed l.ends.nodes ids block is.owns g)

  -- Where a block can be added and its allocation succeeds, `insert_after` an iterator that is not
  -- the last one puts the element between the iterator's element and the next one.
  pub insert_after-IsLinked :
      (xs : List ℕ) (target y : ℕ) (ys : List ℕ) (vs : List V) (w : V) (ws : List V)
      → IsLinked l.ends (xs ++ (target ∷ y ∷ ys)) (vs ++ (w ∷ ws))
      → length vs ≡ length xs
      → CanGrow l.ends.nodes
      → let (new, l') = insert_after (some block) l target v in
        IsLinked l'.ends (xs ++ (target ∷ new ∷ y ∷ ys)) (vs ++ (w ∷ v ∷ ws))
  unfolding insert_after
  insert_after-IsLinked xs target y ys vs w ws is n g =
      let ids = xs ++ (target ∷ y ∷ ys) in
      let h = take-Handed l.ends.nodes ids block is.owns g in
      let (front, back) =
        Links-split (prev_at l.ends.nodes) (next_at l.ends.nodes) invalid_idx xs (target ∷ y ∷ ys)
          invalid_idx is.links in
      let held : 1 ≤ count y ids = ground (arith, count-append y xs (target ∷ y ∷ ys)) in
      let valid = (Ledger-range ids y is.owns (omega arith)).2 in
      let f : (next_at l.ends.nodes target == invalid_idx) ≡ false = ground (arith, back.1) in
      rw (f, back.1, insert_after) (between-IsLinked l.ends _ xs target y ys _ v vs w ws is n h)

  -- `insert_after` the last iterator of a list does what `push_back` does.
  insert_after_last :
      (xs : List ℕ) (target : ℕ) (vs : List V)
      → IsLinked l.ends (xs ++ (target ∷ [])) vs
      → insert_after (some block) l target v ≡ push_back (some block) l v
  unfolding insert_after
  insert_after_last xs target vs is =
      let (front, back) =
        Links-split (prev_at l.ends.nodes) (next_at l.ends.nodes) invalid_idx xs (target ∷ [])
          invalid_idx is.links in
      let f : (next_at l.ends.nodes target == invalid_idx) ≡ true = ground (arith, back.1) in
      rw (f, insert_after)

  -- Where a block can be added and its allocation succeeds, `insert_before` an iterator that is
  -- not the first one puts the element between the element before the iterator and the iterator's.
  pub insert_before-IsLinked :
      (xs : List ℕ) (x target : ℕ) (ys : List ℕ) (vs : List V) (w : V) (ws : List V)
      → IsLinked l.ends (xs ++ (x ∷ target ∷ ys)) (vs ++ (w ∷ ws))
      → length vs ≡ length xs
      → CanGrow l.ends.nodes
      → let (new, l') = insert_before (some block) l target v in
        IsLinked l'.ends (xs ++ (x ∷ new ∷ target ∷ ys)) (vs ++ (w ∷ v ∷ ws))
  unfolding insert_before
  insert_before-IsLinked xs x target ys vs w ws is n g =
      let ids = xs ++ (x ∷ target ∷ ys) in
      let h = take-Handed l.ends.nodes ids block is.owns g in
      let (front, back) =
        Links-split (prev_at l.ends.nodes) (next_at l.ends.nodes) invalid_idx xs (x ∷ target ∷ ys)
          invalid_idx is.links in
      let held : 1 ≤ count x ids = ground (arith, count-append x xs (x ∷ target ∷ ys)) in
      let valid = (Ledger-range ids x is.owns (omega arith)).2 in
      let f : (prev_at l.ends.nodes target == invalid_idx) ≡ false = ground (arith, back.2.0) in
      rw (f, back.2.0, insert_before) (between-IsLinked l.ends _ xs x target ys _ v vs w ws is n h)

  -- `insert_before` the first iterator of a list does what `push_front` does.
  insert_before_first :
      (target : ℕ) (ys : List ℕ) (vs : List V)
      → IsLinked l.ends (target ∷ ys) vs
      → insert_before (some block) l target v ≡ push_front (some block) l v
  unfolding insert_before
  insert_before_first target ys vs is =
      let f : (prev_at l.ends.nodes target == invalid_idx) ≡ true = ground (arith, is.links.0) in
      rw (f, insert_before)
