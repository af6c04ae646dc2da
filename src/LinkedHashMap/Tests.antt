-- ===== src/LinkedHashMap/Tests.antt =====
-- Runs of the map over the association-list table, and the theorems at concrete maps.
use io_base.Base.{ℕ, ◌≡◌, refl, some, List, [], ◌∷◌, ℕ_discrete}
use io_base.FlatHashMap.{FlatHashMap, assoc}
use io_base.LinkedHashMap.Defs.{
  Linked, node_at, init, find, contains, size, is_empty, insert, emplace, erase, erase_at,
  erase_range, clear, index, head_id, next_of, pop_front, swap, front, back, begin,
}
use io_base.LinkedHashMap.Nodes.{id_of}
use io_base.LinkedHashMap.Invariant.{IsConsistent, init-IsConsistent, insert-IsConsistent}
use io_base.LinkedHashMap.Entries.{lookup_entry, insert_entry, erase_entry}
use io_base.LinkedHashMap.Contract.{
  Call, spec_run, spec_step, run, step, entries, Refines, run-Refines,
}
use io_base.LinkedHashMap.Range

program : Unit {0}
unfolding init find contains size is_empty insert emplace erase erase_at erase_range clear index
    pop_front front back begin next_of assoc ℕ_discrete run step spec_run spec_step insert_entry
    erase_entry lookup_entry id_of node_at head_id
program = tt

abbrev table : FlatHashMap ℕ_discrete ℕ
table = assoc ℕ_discrete ℕ

abbrev two_entries : Linked table ℕ
two_entries = (insert table (insert table (init table) 5 50).0 3 30).0

two_entries-IsConsistent : IsConsistent table two_entries
two_entries-IsConsistent =
    insert-IsConsistent table _ 3 30 (insert-IsConsistent table _ 5 50 (init-IsConsistent table))

order_test : entries table two_entries ≡ (5, 50) ∷ (3, 30) ∷ []
unfolding program
order_test = refl

ends_test :
    (front table two_entries ≡ some (record { id = 1; key = 5; value = 50 }))
    × (back table two_entries ≡ some (record { id = 2; key = 3; value = 30 }))
    × (begin table two_entries ≡ some 1)
unfolding program
ends_test = (refl, refl, refl)

swap_test : (swap table (two_entries, init table)).1 ≡ two_entries
unfolding swap
swap_test = refl

abbrev history : List (Call ℕ ℕ)
history =
    Call.emplaces 5 51 ∷ Call.indexes 7 70 ∷ Call.erases 3 ∷ Call.pops ∷ Call.inserts 5 52 ∷ []

history_test : spec_run ℕ_discrete ((5, 50) ∷ (3, 30) ∷ []) history ≡ some ((7, 70) ∷ (5, 52) ∷ [])
unfolding program
history_test = refl

run-Refines_example :
    Refines table
      (run table two_entries history)
      (spec_run ℕ_discrete (entries table two_entries) history)
run-Refines_example = run-Refines table two_entries history two_entries-IsConsistent

erase_range_lem_example :
    (m : Linked table ℕ) × (erase_range table two_entries (some 1) (some 2) ≡ some (m, some 2))
    × (m.list_ ≡ record { id = 2; key = 3; value = 30 } ∷ [])
    × IsConsistent table m
unfolding program
erase_range_lem_example =
    Range.erase_range_lem table two_entries [] (record { id = 1; key = 5; value = 50 } ∷ [])
      (record { id = 2; key = 3; value = 30 } ∷ []) two_entries-IsConsistent refl
