-- ===== src/LinkedHashMap/Access.antt =====
-- What can be read of a LinkedHashMap, and how long an iterator stays good.
use io_base.Base.{
  ℕ, suc, ◌≡◌, refl, ap, inl, inr, Option, none, some, ite, not, List, [], ◌∷◌, length, arith, Bool,
  true, false, ◌==◌,
}
use mathlib.Core.Option.{get_or}
use io_base.FlatHashMap.{FlatHashMap}
use io_base.LinkedHashMap.Defs.{
  Node, Linked, singular, node_at, is_empty, size, find, contains, insert, emplace, erase,
}
use io_base.LinkedHashMap.Nodes.{
  id_of-node_at, node_at_append, node_at_remove, node_at_removed, node_at_last,
}
use io_base.LinkedHashMap.Invariant.{IsConsistent}
use io_base.LinkedHashMap.Entries.{lookup_entry, entries_of, value_at}
use io_base.LinkedHashMap.Contract.{entries, lookup_cases}

abbrev pub is_some {ℓ} : {A : Type ℓ} → Option A → Bool
is_some none = false
is_some (some a) = true

module _ {K V : Type 0} {dec : Discrete K} (table : FlatHashMap dec ℕ) where
  length-entries_of : (ns : List (Node K V)) → length (entries_of dec ns) ≡ length ns
  length-entries_of [] = refl
  length-entries_of (n ∷ ns) = ap suc (length-entries_of ns)

  -- On a consistent map: find leads to the value of the key's entry, and to end() if there is none;
  -- contains and size agree with the entries; empty says whether there are none.
  find_lem :
      (m : Linked table V) (k : K)
      → IsConsistent table m
      → (value_at dec (find table m k) m.list_ ≡ lookup_entry dec k (entries table m))
        × (contains table m k ≡ is_some (lookup_entry dec k (entries table m)))
        × (size table m ≡ length (entries table m))
        × (is_empty table m ≡ (length (entries table m) == 0))
  unfolding find contains size is_empty
  find_lem m k c = (
    ground (arith, lookup_cases table m k c),
    ground (arith, lookup_cases table m k c),
    omega (arith, c.sized, length-entries_of m.list_),
    ground arith,
  )

  -- insert on a consistent map reports whether the key was new, and its iterator leads to the key's
  -- value in the new map: the old value if the key was there, the given one if it was not.
  insert_result :
      (m : Linked table V) (k : K) (v : V)
      → IsConsistent table m
      → ((insert table m k v).2 ≡ not (contains table m k))
        × (value_at dec (some (insert table m k v).1) (insert table m k v).0.list_
            ≡ some (get_or (lookup_entry dec k (entries table m)) v))
  unfolding insert contains find
  insert_result m k v c =
      let node : Node K V = record { id = m.next_node; key = k; value = v } in
      let last = node_at_last 1 m.next_node m.list_ node c.rising refl in
      (ground (arith, lookup_cases table m k c), ground (arith, lookup_cases table m k c, last))

  -- emplace builds its node before it looks, and yet does what insert does: the same list, the same
  -- iterator and flag, and a table that finds the same nodes.
  emplace-insert :
      (m : Linked table V) (k : K) (v : V) (j : K)
      → ((emplace table m k v).0.list_ ≡ (insert table m k v).0.list_)
        × ((emplace table m k v).1 ≡ (insert table m k v).1)
        × ((emplace table m k v).2 ≡ (insert table m k v).2)
        × (find table (emplace table m k v).0 j ≡ find table (insert table m k v).0 j)
  unfolding insert emplace find
  emplace-insert m k v j = ground (
    arith,
    table.find-set m.map_ k j m.next_node,
    table.find-set m.map_ k j singular,
    table.find-set (table.set m.map_ k singular) k j m.next_node,
  )

  erased_iterator :
      (m : Linked table V) (k : K) (i : ℕ) (x : Node K V)
      → IsConsistent table m
      → node_at i m.list_ ≡ some x
      → node_at i (erase table m k).0.list_ ≡ ite (dec k x.key) none (some x)
  unfolding erase
  erased_iterator m k i x c at =
      let own = id_of-node_at dec 1 m.next_node i m.list_ x c.rising c.distinct at in
      elim (lookup_cases table m k c) [
        | inl (e, absent, l) ↦ rw (e, erase) (ground (arith, own))
        | inr (j, v, e, here, l, there) ↦
            rw (e, erase)
              (ground (
                arith,
                own,
                node_at_remove i j m.list_,
                node_at_removed 1 m.next_node i m.list_ c.rising,
              ))
      ]

  -- On a consistent map an iterator to a node outlives every insertion, and the erasure of any other
  -- key; the erasure of its own key ends it.
  iterator_stable :
      (m : Linked table V) (k : K) (v : V) (i : ℕ) (x : Node K V)
      → IsConsistent table m
      → node_at i m.list_ ≡ some x
      → (node_at i (insert table m k v).0.list_ ≡ some x)
        × (node_at i (erase table m k).0.list_ ≡ ite (dec k x.key) none (some x))
  unfolding insert
  iterator_stable m k v i x c at =
      let node : Node K V = record { id = m.next_node; key = k; value = v } in
      (ground (arith, node_at_append i m.list_ node x at), erased_iterator m k i x c at)
