-- ===== src/LinkedHashMap/Range.antt =====
-- erase(first, last): the loop ends within its rounds, passes every check, and erases exactly the
-- nodes from `first` up to `last`.
use io_base.Base.{
  ℕ, zero, suc, ◌+◌, ◌<◌, ◌≡◌, refl, ap, subst, ◌∙◌, some, List, [], ◌∷◌, ◌++◌, length, arith,
  length-append, true, false,
}
use io_base.FlatHashMap.{FlatHashMap}
use io_base.LinkedHashMap.Defs.{
  Node, Linked, node_at, head_id, erase, erase_at, erase_loop, erase_range, same_iterator,
}
use io_base.LinkedHashMap.Nodes.{Rising, Rising-tail, node_at_middle, low-le-middle, id_of-node_at}
use io_base.LinkedHashMap.Invariant.{IsConsistent, erase-IsConsistent, erase_at-erase}

same_iterator_self : (i : ℕ) → same_iterator (some i) (some i) ≡ true
unfolding same_iterator
same_iterator_self i = ground arith

module _ {K V : Type 0} {dec : Discrete K} (table : FlatHashMap dec ℕ) where
  -- The iterator at the start of what is erased is another one than its end.
  first_ne_last :
      (low next : ℕ) (n : Node K V) (between after : List (Node K V))
      → Rising low next (n ∷ between ++ after)
      → same_iterator (some n.id) (head_id after) ≡ false
  unfolding same_iterator head_id
  first_ne_last low next n between [] r = refl
  first_ne_last low next n between (x ∷ after) r =
      ground (arith, low-le-middle (suc n.id) next between x after r.1)

  erase_node :
      (m : Linked table V) (n : Node K V) (before after : List (Node K V))
      → IsConsistent table m
      → m.list_ ≡ before ++ n ∷ after
      → (erase_at table m n.id ≡ some ((erase table m n.key).0, head_id after))
        × ((erase table m n.key).0.list_ ≡ before ++ after)
  unfolding erase
  erase_node m n before after c e =
      let r : Rising 1 m.next_node (before ++ n ∷ after) =
        subst (Rising 1 m.next_node) e c.rising in
      let (at, next, rest) = node_at_middle 1 m.next_node before n after r in
      let here : node_at n.id m.list_ ≡ some n = ap (node_at n.id) e ∙ at in
      let own = id_of-node_at dec 1 m.next_node n.id m.list_ n c.rising c.distinct here in
      (ground (arith, erase_at-erase table m n.id n c here), ground (arith, c.agree n.key))

  erase_loop-Erased :
      (rounds : ℕ) (m : Linked table V) (before between after : List (Node K V))
      → IsConsistent table m
      → m.list_ ≡ before ++ (between ++ after)
      → length between < rounds
      → (m' : Linked table V) × (erase_loop table rounds m
            (head_id (between ++ after))
            (head_id after)
          ≡ some (m', head_id after))
        × (m'.list_ ≡ before ++ after)
        × IsConsistent table m'
  unfolding erase_loop head_id
  erase_loop-Erased zero m before between after c e h = absurd (omega arith)
  erase_loop-Erased (suc rounds) m before [] [] c e h = (m, refl, e, c)
  erase_loop-Erased (suc rounds) m before [] (x ∷ after) c e h =
      (m, rw (same_iterator_self x.id, erase_loop) refl, e, c)
  erase_loop-Erased (suc rounds) m before (n ∷ between) after c e h =
      let r : Rising 1 m.next_node (before ++ n ∷ (between ++ after)) =
        subst (Rising 1 m.next_node) e c.rising in
      let other =
        first_ne_last 1 m.next_node n between after (Rising-tail 1 m.next_node before _ r) in
      let (erased, rest) = erase_node m n before (between ++ after) c e in
      let (m', loop, list', c') =
        erase_loop-Erased rounds (erase table m n.key).0 before between after
          (erase-IsConsistent table m n.key c) rest (omega arith) in
      (m', rw (other, erased, erase_loop) loop, list', c')

  -- On a consistent map whose list is `before`, then `between`, then `after`, erase(first, last) from
  -- the start of `between` to the start of `after` ends within the length of the list, passes every
  -- check, returns `last`, and leaves a consistent map with exactly `before` and `after`.
  pub erase_range_lem :
      (m : Linked table V) (before between after : List (Node K V))
      → IsConsistent table m
      → m.list_ ≡ before ++ (between ++ after)
      → (m' : Linked table V) × (erase_range table m (head_id (between ++ after)) (head_id after)
          ≡ some (m', head_id after))
        × (m'.list_ ≡ before ++ after)
        × IsConsistent table m'
  unfolding erase_range
  erase_range_lem m before between after c e =
      unfold erase_range in
      erase_loop-Erased (length m.list_ + 1) m before between after c e (
        omega (
          arith,
          ap length e,
          length-append before (between ++ after),
          length-append between after,
        ))
