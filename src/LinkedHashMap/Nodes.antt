-- ===== src/LinkedHashMap/Nodes.antt =====
-- Node lists: the node of a key, the order of the identities, and what `append` and `erase` keep.
use io_base.Base.{
  ℕ, suc, ◌+◌, ◌≤◌, ◌<◌, ◌≡◌, ◌≢◌, refl, Option, none, some, ite, List, [], ◌∷◌, ◌++◌, length,
  arith,
}
use io_base.LinkedHashMap.Defs.{Node, node_at, next_of, head_id, remove_node}

module _ {K V : Type 0} where
  -- The identities rise along the list and stay below the next one: the list is in insertion order.
  abbrev pub Rising : ℕ → ℕ → List (Node K V) → Type 0
  Rising low next [] = low ≤ next
  Rising low next (n ∷ ns) = (low ≤ n.id) × Rising (suc n.id) next ns

  pub Rising-le : (low next : ℕ) (ns : List (Node K V)) → Rising low next ns → low ≤ next
  Rising-le low next [] h = h
  Rising-le low next (n ∷ ns) h = omega (arith, Rising-le (suc n.id) next ns h.1)

  pub Rising-weaken :
      (low low' next : ℕ) (ns : List (Node K V))
      → low' ≤ low
      → Rising low next ns
      → Rising low' next ns
  Rising-weaken low low' next [] h r = omega arith
  Rising-weaken low low' next (n ∷ ns) h r = (omega arith, r.1)

  pub Rising-more :
      (low next : ℕ) (ns : List (Node K V)) → Rising low next ns → Rising low (suc next) ns
  Rising-more low next [] h = omega arith
  Rising-more low next (n ∷ ns) h = (h.0, Rising-more (suc n.id) next ns h.1)

  pub Rising-append :
      (low next : ℕ) (ns : List (Node K V)) (k : K) (v : V)
      → Rising low next ns
      → Rising low (suc next) (ns ++ record { id = next; key = k; value = v } ∷ [])
  Rising-append low next [] k v h = (h, omega arith)
  Rising-append low next (n ∷ ns) k v h = (h.0, Rising-append (suc n.id) next ns k v h.1)

  pub Rising-remove :
      (low next i : ℕ) (ns : List (Node K V))
      → Rising low next ns
      → Rising low next (remove_node i ns)
  unfolding remove_node
  Rising-remove low next i [] h = h
  Rising-remove low next i (n ∷ ns) h = ground (
    arith,
    Rising-remove (suc n.id) next i ns h.1,
    Rising-weaken (suc n.id) low next ns (omega arith) h.1,
  )

  pub node_at_below :
      (low next i : ℕ) (ns : List (Node K V)) → Rising low next ns → i < low → node_at i ns ≡ none
  unfolding node_at
  node_at_below low next i [] r h = refl
  node_at_below low next i (n ∷ ns) r h = ground (arith, node_at_below (suc n.id) next i ns r.1)

module _ {K V : Type 0} (dec : Discrete K) where
  -- The identity of the first node with the key.
  unfoldable pub id_of : K → List (Node K V) → Option ℕ
  id_of k [] = none
  id_of k (n ∷ ns) = ite (dec k n.key) (some n.id) (id_of k ns)

  abbrev pub Distinct : List (Node K V) → Type 0
  Distinct [] = Unit
  Distinct (n ∷ ns) = (id_of n.key ns ≡ none) × Distinct ns

  pub id_of-append :
      (j k : K) (v : V) (i : ℕ) (ns : List (Node K V))
      → id_of k ns ≡ none
      → id_of j (ns ++ record { id = i; key = k; value = v } ∷ [])
        ≡ ite (dec j k) (some i) (id_of j ns)
  unfolding id_of
  id_of-append j k v i [] h = refl
  id_of-append j k v i (n ∷ ns) h = ground (arith, id_of-append j k v i ns)

  pub Distinct-append :
      (k : K) (v : V) (i : ℕ) (ns : List (Node K V))
      → id_of k ns ≡ none
      → Distinct ns
      → Distinct (ns ++ record { id = i; key = k; value = v } ∷ [])
  unfolding id_of
  Distinct-append k v i [] h d = (refl, tt)
  Distinct-append k v i (n ∷ ns) h d =
      ground (arith, id_of-append n.key k v i ns, Distinct-append k v i ns)

  -- The node of a key, and no node below the bound.
  pub id_of_ge :
      (k : K) (low next i : ℕ) (ns : List (Node K V))
      → Rising low next ns
      → id_of k ns ≡ some i
      → (low ≤ i) × (i < next)
  unfolding id_of
  id_of_ge k low next i [] r h = cc
  id_of_ge k low next i (n ∷ ns) r h =
      ground (arith, id_of_ge k (suc n.id) next i ns r.1, Rising-le (suc n.id) next ns r.1)

  pub id_of-remove :
      (k : K) (low next i : ℕ) (ns : List (Node K V)) (j : K)
      → Rising low next ns
      → Distinct ns
      → id_of k ns ≡ some i
      → id_of j (remove_node i ns) ≡ ite (dec j k) none (id_of j ns)
  unfolding id_of remove_node
  id_of-remove k low next i [] j r d h = absurd (cc)
  id_of-remove k low next i (n ∷ ns) j r d h =
      ground
        (arith, id_of-remove k (suc n.id) next i ns j r.1 d.1, id_of_ge k (suc n.id) next i ns r.1)

  pub id_of-remove_none :
      (i : ℕ) (ns : List (Node K V)) (j : K) → id_of j ns ≡ none → id_of j (remove_node i ns) ≡ none
  unfolding id_of remove_node
  id_of-remove_none i [] j h = refl
  id_of-remove_none i (n ∷ ns) j h = ground (arith, id_of-remove_none i ns j)

  pub Distinct-remove : (i : ℕ) (ns : List (Node K V)) → Distinct ns → Distinct (remove_node i ns)
  unfolding remove_node
  Distinct-remove i [] d = tt
  Distinct-remove i (n ∷ ns) d =
      ground (arith, Distinct-remove i ns d.1, id_of-remove_none i ns n.key d.0)

  pub length-remove :
      (k : K) (low next i : ℕ) (ns : List (Node K V))
      → Rising low next ns
      → id_of k ns ≡ some i
      → length (remove_node i ns) + 1 ≡ length ns
  unfolding id_of remove_node
  length-remove k low next i [] r h = absurd (cc)
  length-remove k low next i (n ∷ ns) r h =
      ground (arith, length-remove k (suc n.id) next i ns r.1, id_of_ge k (suc n.id) next i ns r.1)

  -- Where a key's node is, and which key a node holds.
  pub node_at-id_of :
      (k : K) (low next i : ℕ) (ns : List (Node K V))
      → Rising low next ns
      → id_of k ns ≡ some i
      → (v : V) × (node_at i ns ≡ some (record { id = i; key = k; value = v }))
  unfolding id_of node_at
  node_at-id_of k low next i [] r h = absurd (cc)
  node_at-id_of k low next i (n ∷ ns) r h = elim (dec k n.key) [
    | yes e ↦ (n.value, ground arith)
    | no e ↦
        let (v, at) = node_at-id_of k (suc n.id) next i ns r.1 (ground arith) in
        (v, ground (arith, id_of_ge k (suc n.id) next i ns r.1))
  ]

  pub id_of-node_at :
      (low next i : ℕ) (ns : List (Node K V)) (x : Node K V)
      → Rising low next ns
      → Distinct ns
      → node_at i ns ≡ some x
      → (id_of x.key ns ≡ some i) × (x.id ≡ i)
  unfolding id_of node_at
  id_of-node_at low next i [] x r d h = absurd (cc)
  id_of-node_at low next i (n ∷ ns) x r d h =
      ground (arith, id_of-node_at (suc n.id) next i ns x r.1 d.1)

module _ {K V : Type 0} where
  -- A node that is there stays there when another one is appended or erased.
  pub node_at_append :
      (i : ℕ) (ns : List (Node K V)) (n x : Node K V)
      → node_at i ns ≡ some x
      → node_at i (ns ++ n ∷ []) ≡ some x
  unfolding node_at
  node_at_append i [] n x h = absurd (cc)
  node_at_append i (y ∷ ns) n x h = ground (arith, node_at_append i ns n x)

  pub node_at_remove :
      (i j : ℕ) (ns : List (Node K V)) → i ≢ j → node_at i (remove_node j ns) ≡ node_at i ns
  unfolding node_at remove_node
  node_at_remove i j [] h = refl
  node_at_remove i j (n ∷ ns) h = ground (arith, node_at_remove i j ns h)

  pub node_at_last :
      (low next : ℕ) (ns : List (Node K V)) (n : Node K V)
      → Rising low next ns
      → n.id ≡ next
      → node_at next (ns ++ n ∷ []) ≡ some n
  unfolding node_at
  node_at_last low next [] n r e = ground arith
  node_at_last low next (x ∷ ns) n r e =
      ground (arith, node_at_last (suc x.id) next ns n r.1 e, Rising-le (suc x.id) next ns r.1)

  -- A node in the middle of a list: what stands before it has smaller identities.
  pub low-le-middle :
      (low next : ℕ) (before : List (Node K V)) (n : Node K V) (after : List (Node K V))
      → Rising low next (before ++ n ∷ after)
      → low ≤ n.id
  low-le-middle low next [] n after r = r.0
  low-le-middle low next (x ∷ before) n after r =
      omega (arith, low-le-middle (suc x.id) next before n after r.1)

  pub node_at_middle :
      (low next : ℕ) (before : List (Node K V)) (n : Node K V) (after : List (Node K V))
      → Rising low next (before ++ n ∷ after)
      → (node_at n.id (before ++ n ∷ after) ≡ some n)
        × (next_of n.id (before ++ n ∷ after) ≡ head_id after)
        × (remove_node n.id (before ++ n ∷ after) ≡ before ++ after)
  unfolding node_at next_of remove_node
  node_at_middle low next [] n after r = ground arith
  node_at_middle low next (x ∷ before) n after r = ground (
    arith,
    node_at_middle (suc x.id) next before n after r.1,
    low-le-middle (suc x.id) next before n after r.1,
  )

  pub Rising-tail :
      (low next : ℕ) (before after : List (Node K V))
      → Rising low next (before ++ after)
      → Rising low next after
  Rising-tail low next [] after r = r
  Rising-tail low next (x ∷ before) after r =
      Rising-weaken (suc x.id) low next after (omega arith)
        (Rising-tail (suc x.id) next before after r.1)

  pub node_at_removed :
      (low next i : ℕ) (ns : List (Node K V))
      → Rising low next ns
      → node_at i (remove_node i ns) ≡ none
  unfolding node_at remove_node
  node_at_removed low next i [] r = refl
  node_at_removed low next i (n ∷ ns) r = ground (
    arith,
    node_at_removed (suc n.id) next i ns r.1,
    node_at_below (suc n.id) next n.id ns r.1 (omega arith),
  )
