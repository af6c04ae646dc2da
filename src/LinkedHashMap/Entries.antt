-- ===== src/LinkedHashMap/Entries.antt =====
-- The specification of a LinkedHashMap: the list of its entries in the order of insertion, and the
-- lemmas that relate node lists to it.
use io_base.Base.{
  ℕ, suc, ◌≡◌, refl, ap, inl, inr, Option, none, some, ite, List, [], ◌∷◌, ◌++◌, arith,
  Option-cases,
}
use io_base.LinkedHashMap.Defs.{Node, node_at, remove_node}
use io_base.LinkedHashMap.Nodes.{Rising, id_of, id_of_ge}

module _ {K V : Type 0} (dec : Discrete K) where
  unfoldable pub lookup_entry : K → List (K × V) → Option V
  lookup_entry k [] = none
  lookup_entry k ((j, v) ∷ es) = ite (dec k j) (some v) (lookup_entry k es)

  unfoldable pub insert_entry : K → V → List (K × V) → List (K × V)
  unfolding lookup_entry
  insert_entry k v es = elim (lookup_entry k es) [ some w ↦ es | none ↦ es ++ (k, v) ∷ [] ]

  unfoldable pub erase_entry : K → List (K × V) → List (K × V)
  erase_entry k [] = []
  erase_entry k ((j, v) ∷ es) = ite (dec k j) es ((j, v) ∷ erase_entry k es)

  -- The entries that a node list holds.
  abbrev pub entries_of : List (Node K V) → List (K × V)
  entries_of [] = []
  entries_of (n ∷ ns) = (n.key, n.value) ∷ entries_of ns

  -- The value that an iterator points to.
  abbrev pub value_at : Option ℕ → List (Node K V) → Option V
  value_at none ns = none
  value_at (some i) ns = elim (node_at i ns) [ none ↦ none | some n ↦ some n.value ]

  pub entries_of-append :
      (ns : List (Node K V)) (n : Node K V)
      → entries_of (ns ++ n ∷ []) ≡ entries_of ns ++ (n.key, n.value) ∷ []
  entries_of-append [] n = refl
  entries_of-append (x ∷ ns) n = ap (◌∷◌ (x.key, x.value)) (entries_of-append ns n)

  pub lookup-id_of :
      (k : K) (low next : ℕ) (ns : List (Node K V))
      → Rising low next ns
      → lookup_entry k (entries_of ns) ≡ value_at (id_of dec k ns) ns
  unfolding lookup_entry id_of node_at
  lookup-id_of k low next [] r = refl
  lookup-id_of k low next (n ∷ ns) r = elim (Option-cases (id_of dec k ns)) [
    | inl e ↦ ground (arith, lookup-id_of k (suc n.id) next ns r.1)
    | inr (i, e) ↦
        ground
          (arith, lookup-id_of k (suc n.id) next ns r.1, id_of_ge dec k (suc n.id) next i ns r.1)
  ]

  pub entries_of-remove :
      (k : K) (low next i : ℕ) (ns : List (Node K V))
      → Rising low next ns
      → id_of dec k ns ≡ some i
      → entries_of (remove_node i ns) ≡ erase_entry k (entries_of ns)
  unfolding remove_node id_of erase_entry
  entries_of-remove k low next i [] r h = absurd (cc)
  entries_of-remove k low next i (n ∷ ns) r h =
      ground (
        arith,
        entries_of-remove k (suc n.id) next i ns r.1,
        id_of_ge dec k (suc n.id) next i ns r.1,
      )

  pub erase_entry_absent :
      (k : K) (ns : List (Node K V))
      → id_of dec k ns ≡ none
      → erase_entry k (entries_of ns) ≡ entries_of ns
  unfolding id_of erase_entry
  erase_entry_absent k [] h = refl
  erase_entry_absent k (n ∷ ns) h = ground (arith, erase_entry_absent k ns)
