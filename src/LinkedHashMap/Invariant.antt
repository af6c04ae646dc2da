-- ===== src/LinkedHashMap/Invariant.antt =====
-- The table and the list of a LinkedHashMap always describe the same map: the invariant, and that
-- every operation keeps it.
use io_base.Base.{
  ℕ, suc, ◌+◌, ◌≡◌, sym, ◌∙◌, inl, inr, none, some, ite, [], ◌∷◌, ◌++◌, length, arith, Option-cases,
  length-append,
}
use io_base.FlatHashMap.{FlatHashMap}
use io_base.LinkedHashMap.Defs.{
  Node, Linked, singular, node_at, next_of, remove_node, init, clear, insert_internal, insert,
  emplace, erase, erase_at,
}
use io_base.LinkedHashMap.Nodes.{
  Rising, Rising-le, Rising-more, Rising-append, Rising-remove, id_of, Distinct, id_of-append,
  Distinct-append, id_of-remove, Distinct-remove, length-remove, id_of-node_at,
}

module _ {K V : Type 0} {dec : Discrete K} (table : FlatHashMap dec ℕ) where
  pub record IsConsistent (m : Linked table V) : Type 0 where
    pub agree : (k : K) → table.find m.map_ k ≡ id_of dec k m.list_
    pub rising : Rising 1 m.next_node m.list_
    pub distinct : Distinct dec m.list_
    pub sized : table.size m.map_ ≡ length m.list_

  pub init-IsConsistent : IsConsistent (init table)
  unfolding init id_of
  init-IsConsistent = record {
    agree = table.find-empty;
    rising = omega arith;
    distinct = tt;
    sized = table.size-empty;
  }

  -- A new node at the end of the list, and its entry in the table.
  append-IsConsistent :
      (m : Linked table V) (k : K) (v : V) (map' : table.Map)
      → IsConsistent m
      → table.find m.map_ k ≡ none
      → ((j : K) → table.find map' j ≡ ite (dec j k) (some m.next_node) (table.find m.map_ j))
      → table.size map' ≡ table.size m.map_ + 1
      → IsConsistent (record {
        map_ = map';
        list_ = m.list_ ++ record { id = m.next_node; key = k; value = v } ∷ [];
        next_node = suc m.next_node;
      })
  append-IsConsistent m k v map' c absent found grown =
      let missing : id_of dec k m.list_ ≡ none = sym (c.agree k) ∙ absent in
      record {
        agree = λ j.
            ground (arith, found j, c.agree j, id_of-append dec j k v m.next_node m.list_ missing);
        rising = Rising-append 1 m.next_node m.list_ k v c.rising;
        distinct = Distinct-append dec k v m.next_node m.list_ missing c.distinct;
        sized = omega (
          arith,
          grown,
          c.sized,
          length-append m.list_ (record { id = m.next_node; key = k; value = v } ∷ []),
        );
      }

  -- A node and its entry go together.
  remove-IsConsistent :
      (m : Linked table V) (k : K) (i : ℕ)
      → IsConsistent m
      → table.find m.map_ k ≡ some i
      → IsConsistent (record m { map_ = table.erase m.map_ k; list_ = remove_node i m.list_ })
  remove-IsConsistent m k i c found =
      let here : id_of dec k m.list_ ≡ some i = sym (c.agree k) ∙ found in
      record {
        agree = λ j. ground (
          arith,
          table.find-erase m.map_ k j,
          c.agree j,
          id_of-remove dec k 1 m.next_node i m.list_ j c.rising c.distinct here,
        );
        rising = Rising-remove 1 m.next_node i m.list_ c.rising;
        distinct = Distinct-remove dec i m.list_ c.distinct;
        sized = omega (
          arith,
          table.size-erase m.map_ k (λ e. cc),
          c.sized,
          length-remove dec k 1 m.next_node i m.list_ c.rising here,
        );
      }

  pub insert-IsConsistent :
      (m : Linked table V) (k : K) (v : V) → IsConsistent m → IsConsistent (insert table m k v).0
  unfolding insert
  insert-IsConsistent m k v c = elim (Option-cases (table.find m.map_ k)) [
    | inr (i, e) ↦ rw (e, insert_internal) c
    | inl e ↦
        rw (e, insert_internal)
          (append-IsConsistent m k v _ c e
            (λ j. ground (
              arith,
              table.find-set m.map_ k j singular,
              table.find-set (table.set m.map_ k singular) k j m.next_node,
            ))
            (ground (
              arith,
              table.size-set_new m.map_ k singular,
              table.size-set_old (table.set m.map_ k singular) k m.next_node,
              table.find-set m.map_ k k singular,
            )))
  ]

  pub emplace-IsConsistent :
      (m : Linked table V) (k : K) (v : V) → IsConsistent m → IsConsistent (emplace table m k v).0
  unfolding emplace
  emplace-IsConsistent m k v c = elim (Option-cases (table.find m.map_ k)) [
    | inr (i, e) ↦
        rw (e, emplace)
          (record {
            agree = c.agree;
            rising = Rising-more 1 m.next_node m.list_ c.rising;
            distinct = c.distinct;
            sized = c.sized;
          })
    | inl e ↦
        rw (e, emplace)
          (append-IsConsistent m k v _ c e (λ j. table.find-set m.map_ k j m.next_node)
            (table.size-set_new m.map_ k m.next_node e))
  ]

  pub erase-IsConsistent :
      (m : Linked table V) (k : K) → IsConsistent m → IsConsistent (erase table m k).0
  unfolding erase
  erase-IsConsistent m k c = elim (Option-cases (table.find m.map_ k)) [
    | inl e ↦ rw (e, erase) c
    | inr (i, e) ↦ rw (e, erase) (remove-IsConsistent m k i c e)
  ]

  -- The ABSL_CHECK of erase(iterator) holds at every node of the list, and the call does what erase
  -- of the node's key does; it returns the iterator after the node.
  pub erase_at-erase :
      (m : Linked table V) (i : ℕ) (x : Node K V)
      → IsConsistent m
      → node_at i m.list_ ≡ some x
      → erase_at table m i ≡ some ((erase table m x.key).0, next_of i m.list_)
  unfolding erase_at erase
  erase_at-erase m i x c at =
      let here = id_of-node_at dec 1 m.next_node i m.list_ x c.rising c.distinct at in
      ground (arith, c.agree x.key, here)

  -- clear() leaves a map that is consistent whatever it held.
  pub clear-IsConsistent : (m : Linked table V) → IsConsistent m → IsConsistent (clear table m)
  unfolding clear id_of
  clear-IsConsistent m c = record {
    agree = table.find-empty;
    rising = Rising-le 1 m.next_node m.list_ c.rising;
    distinct = tt;
    sized = table.size-empty;
  }
