-- ===== src/LinkedHashMap/Contract.antt =====
-- What a LinkedHashMap promises: it is the list of its entries in the order of insertion, one for
-- each key, and the code implements every operation on that list.
use io_base.Base.{
  ℕ, ◌≡◌, refl, sym, subst, ◌∙◌, inl, inr, Option, none, some, List, [], ◌∷◌, arith, Option-cases,
  ◌⊎◌, if_pos,
}
use io_base.FlatHashMap.{FlatHashMap}
use io_base.LinkedHashMap.Defs.{
  Node, Linked, node_at, clear, insert, emplace, index, erase, pop_front, ◌>>=◌,
}
use io_base.LinkedHashMap.Nodes.{id_of, node_at-id_of}
use io_base.LinkedHashMap.Invariant.{
  IsConsistent, insert-IsConsistent, emplace-IsConsistent, clear-IsConsistent, erase-IsConsistent,
  erase_at-erase,
}
use io_base.LinkedHashMap.Entries.{
  lookup_entry, insert_entry, erase_entry, entries_of, entries_of-append, lookup-id_of,
  entries_of-remove, erase_entry_absent,
}

-- The operations that change a map.
pub data Call (K V : Type 0) : Type 0 where
  inserts : K → V → Call K V
  emplaces : K → V → Call K V
  indexes : K → V → Call K V
  erases : K → Call K V
  pops : Call K V
  clears : Call K V

-- A call on the specification; `none` is the failed check of pop_front on the empty map.
unfoldable pub spec_step :
    {K V : Type 0} → Discrete K → List (K × V) → Call K V → Option (List (K × V))
spec_step dec es (inserts k v) = some (insert_entry dec k v es)
spec_step dec es (emplaces k v) = some (insert_entry dec k v es)
spec_step dec es (indexes k v) = some (insert_entry dec k v es)
spec_step dec es (erases k) = some (erase_entry dec k es)
spec_step dec [] pops = none
spec_step dec (e ∷ es) pops = some es
spec_step dec es clears = some []

unfoldable pub spec_run :
    {K V : Type 0} → Discrete K → List (K × V) → List (Call K V) → Option (List (K × V))
spec_run dec es [] = some es
spec_run dec es (c ∷ cs) = spec_step dec es c >>= λ es'. spec_run dec es' cs

module _ {K V : Type 0} (dec : Discrete K) where
  first : (n : Node K V) (ns : List (Node K V)) → node_at n.id (n ∷ ns) ≡ some n
  unfolding node_at
  first n ns = ground arith

  first_entry :
      (n : Node K V) (ns : List (Node K V))
      → erase_entry dec n.key (entries_of dec (n ∷ ns)) ≡ entries_of dec ns
  unfolding erase_entry
  first_entry n ns = if_pos (dec n.key n.key) refl _ _

module _ {K V : Type 0} {dec : Discrete K} (table : FlatHashMap dec ℕ) where
  unfoldable pub step : Linked table V → Call K V → Option (Linked table V)
  step m (inserts k v) = some (insert table m k v).0
  step m (emplaces k v) = some (emplace table m k v).0
  step m (indexes k v) = some (index table m k v).0
  step m (erases k) = some (erase table m k).0
  step m pops = pop_front table m
  step m clears = some (clear table m)

  unfoldable pub run : Linked table V → List (Call K V) → Option (Linked table V)
  run m [] = some m
  run m (c ∷ cs) = step m c >>= λ m'. run m' cs

  abbrev pub entries : Linked table V → List (K × V)
  entries m = entries_of dec m.list_

  -- The code's result against the specification's: both fail, or the map is consistent again and
  -- holds the entries of the specification.
  abbrev pub Refines : Option (Linked table V) → Option (List (K × V)) → Type 0
  Refines none none = Unit
  Refines (some m) (some es) = IsConsistent table m × (entries m ≡ es)
  Refines none (some es) = ⊥
  Refines (some m) none = ⊥

  -- A key is in both or in neither: its entry in the table leads to the node with its value.
  pub lookup_cases :
      (m : Linked table V) (k : K)
      → IsConsistent table m
      → ((table.find m.map_ k ≡ none)
          × (id_of dec k m.list_ ≡ none)
          × (lookup_entry dec k (entries m) ≡ none))
        ⊎ ((i : ℕ) × (v : V) × (table.find m.map_ k ≡ some i)
            × (id_of dec k m.list_ ≡ some i)
            × (lookup_entry dec k (entries m) ≡ some v)
            × (node_at i m.list_ ≡ some (record { id = i; key = k; value = v })))
  lookup_cases m k c = elim (Option-cases (id_of dec k m.list_)) [
    | inl e ↦
        inl (c.agree k ∙ e, e, ground (arith, lookup-id_of dec k 1 m.next_node m.list_ c.rising))
    | inr (i, e) ↦
        let (v, at) = node_at-id_of dec k 1 m.next_node i m.list_ c.rising e in
        inr (
          i,
          v,
          c.agree k ∙ e,
          e,
          ground (arith, lookup-id_of dec k 1 m.next_node m.list_ c.rising),
          at,
        )
  ]

  insert-entries :
      (m : Linked table V) (k : K) (v : V)
      → IsConsistent table m
      → entries (insert table m k v).0 ≡ insert_entry dec k v (entries m)
  unfolding insert insert_entry
  insert-entries m k v c =
      let node : Node K V = record { id = m.next_node; key = k; value = v } in
      ground (arith, lookup_cases m k c, entries_of-append dec m.list_ node)

  emplace-entries :
      (m : Linked table V) (k : K) (v : V)
      → IsConsistent table m
      → entries (emplace table m k v).0 ≡ insert_entry dec k v (entries m)
  unfolding emplace insert_entry
  emplace-entries m k v c =
      let node : Node K V = record { id = m.next_node; key = k; value = v } in
      ground (arith, lookup_cases m k c, entries_of-append dec m.list_ node)

  erase-entries :
      (m : Linked table V) (k : K)
      → IsConsistent table m
      → entries (erase table m k).0 ≡ erase_entry dec k (entries m)
  unfolding erase
  erase-entries m k c = elim (lookup_cases m k c) [
    | inl (e, absent, l) ↦ rw (e, erase) (sym (erase_entry_absent dec k m.list_ absent))
    | inr (i, v, e, here, l, at) ↦
        rw (e, erase) (entries_of-remove dec k 1 m.next_node i m.list_ c.rising here)
  ]

  pop_front_nodes :
      (t : table.Map) (next : ℕ) (ns : List (Node K V))
      → IsConsistent table (record { map_ = t; list_ = ns; next_node = next })
      → Refines
          (pop_front table (record { map_ = t; list_ = ns; next_node = next }))
          (spec_step dec (entries_of dec ns) pops)
  unfolding pop_front spec_step
  pop_front_nodes t next [] c = tt
  pop_front_nodes t next (n ∷ ns) c =
      let m : Linked table V = record { map_ = t; list_ = n ∷ ns; next_node = next } in
      rw (erase_at-erase table m n.id n c (first dec n ns))
        (erase-IsConsistent table m n.key c, erase-entries m n.key c ∙ first_entry dec n ns)

  step-Refines :
      (m : Linked table V) (c : Call K V)
      → IsConsistent table m
      → Refines (step m c) (spec_step dec (entries m) c)
  unfolding step spec_step index clear
  step-Refines m (inserts k v) h = (insert-IsConsistent table m k v h, insert-entries m k v h)
  step-Refines m (emplaces k v) h = (emplace-IsConsistent table m k v h, emplace-entries m k v h)
  step-Refines m (indexes k v) h = (insert-IsConsistent table m k v h, insert-entries m k v h)
  step-Refines m (erases k) h = (erase-IsConsistent table m k h, erase-entries m k h)
  step-Refines m pops h = pop_front_nodes m.map_ m.next_node m.list_ h
  step-Refines m clears h = (clear-IsConsistent table m h, refl)

  bind-Refines :
      (f : Linked table V → Option (Linked table V)) (g : List (K × V) → Option (List (K × V)))
      → ((m : Linked table V) → IsConsistent table m → Refines (f m) (g (entries m)))
      → (r : Option (Linked table V)) (s : Option (List (K × V))) → Refines r s
      → Refines (r >>= f) (s >>= g)
  bind-Refines f g keep none none h = tt
  bind-Refines f g keep none (some es) h = absurd h
  bind-Refines f g keep (some m) none h = absurd h
  bind-Refines f g keep (some m) (some es) h = subst (λ xs. Refines (f m) (g xs)) h.1 (keep m h.0)

  -- On a consistent map any history of calls does to the code's map what it does to the list of
  -- entries: both fail (pop_front on the empty map), or the map ends consistent, with the entries of
  -- the specification in the same order.
  pub run-Refines :
      (m : Linked table V) (cs : List (Call K V))
      → IsConsistent table m
      → Refines (run m cs) (spec_run dec (entries m) cs)
  unfolding run spec_run
  run-Refines m [] h = (h, refl)
  run-Refines m (c ∷ cs) h =
      bind-Refines (λ m'. run m' cs) (λ es. spec_run dec es cs) (λ m' h'. run-Refines m' cs h')
        (step m c) (spec_step dec (entries m) c) (step-Refines m c h)
