-- ===== src/LinkedHashMap/Defs.antt =====
-- The state and the operations of linked_hash_map.h.
use io_base.Base.{
  ℕ, zero, suc, ◌+◌, Bool, true, false, Option, none, some, List, [], ◌∷◌, ◌++◌, length, ◌==◌,
  if◌then◌else◌,
}
use io_base.FlatHashMap.{FlatHashMap}

-- A node of the std::list, with its identity.
pub record Node (K V : Type 0) : Type 0 where
  pub id : ℕ
  pub key : K
  pub value : V

pub record LinkedHashMap (Map K V : Type 0) : Type 0 where
  pub map_ : Map
  pub list_ : List (Node K V)
  pub next_node : ℕ

-- What try_emplace stores before the iterator of the new node is known.
abbrev pub singular : ℕ
singular = 0

module _ {K V : Type 0} where
  -- `*position`, `std::next(position)` and `list_.erase(position)`.
  unfoldable pub node_at : ℕ → List (Node K V) → Option (Node K V)
  node_at i [] = none
  node_at i (n ∷ ns) = if n.id == i then some n else node_at i ns

  unfoldable pub head_id : List (Node K V) → Option ℕ
  head_id [] = none
  head_id (n ∷ ns) = some n.id

  unfoldable pub next_of : ℕ → List (Node K V) → Option ℕ
  unfolding head_id
  next_of i [] = none
  next_of i (n ∷ ns) = if n.id == i then head_id ns else next_of i ns

  unfoldable pub remove_node : ℕ → List (Node K V) → List (Node K V)
  remove_node i [] = []
  remove_node i (n ∷ ns) = if n.id == i then ns else n ∷ remove_node i ns

  unfoldable pub last_node : List (Node K V) → Option (Node K V)
  last_node [] = none
  last_node (n ∷ []) = some n
  last_node (n ∷ n' ∷ ns) = last_node (n' ∷ ns)

unfoldable pub same_iterator : Option ℕ → Option ℕ → Bool
same_iterator none none = true
same_iterator (some i) (some j) = i == j
same_iterator none (some j) = false
same_iterator (some i) none = false

infixl 5 ◌>>=◌
abbrev pub ◌>>=◌ {ℓ κ} : {A : Type ℓ} {B : Type κ} → Option A → (A → Option B) → Option B
none >>= f = none
some a >>= f = f a

-- ABSL_CHECK.
abbrev pub check {ℓ} : {A : Type ℓ} → Bool → Option A → Option A
check true r = r
check false r = none

-- The map over a table.
abbrev pub Linked : {K : Type 0} {dec : Discrete K} → FlatHashMap dec ℕ → Type 0 → Type 0
Linked {K} table V = LinkedHashMap table.Map K V

module _ {K V : Type 0} {dec : Discrete K} (table : FlatHashMap dec ℕ) where
  unfoldable pub init : Linked table V
  init = record { map_ = table.empty; list_ = []; next_node = 1 }

  unfoldable pub begin : Linked table V → Option ℕ
  unfolding head_id
  begin m = head_id m.list_

  unfoldable pub is_empty : Linked table V → Bool
  is_empty m = elim m.list_ [ [] ↦ true | n ∷ ns ↦ false ]

  unfoldable pub size : Linked table V → ℕ
  size m = table.size m.map_

  unfoldable pub front : Linked table V → Option (Node K V)
  front m = elim m.list_ [ [] ↦ none | n ∷ ns ↦ some n ]

  unfoldable pub back : Linked table V → Option (Node K V)
  unfolding last_node
  back m = last_node m.list_

  unfoldable pub find : Linked table V → K → Option ℕ
  find m k = table.find m.map_ k

  unfoldable pub contains : Linked table V → K → Bool
  unfolding find
  contains m k = elim (find m k) [ none ↦ false | some i ↦ true ]

  unfoldable pub clear : Linked table V → Linked table V
  clear m = record m { map_ = table.empty; list_ = [] }

  -- InsertInternal: the entry is made first, the node is appended, then the entry is pointed to it.
  unfoldable pub insert_internal : Linked table V → K → V → Linked table V × ℕ × Bool
  insert_internal m k v = elim (table.find m.map_ k) [
    | some i ↦ (m, i, false)
    | none ↦ (
      record m {
        map_ = table.set (table.set m.map_ k singular) k m.next_node;
        list_ = m.list_ ++ record { id = m.next_node; key = k; value = v } ∷ [];
        next_node = suc m.next_node;
      },
      m.next_node,
      true,
    )
  ]

  unfoldable pub insert : Linked table V → K → V → Linked table V × ℕ × Bool
  unfolding insert_internal
  insert m k v = insert_internal m k v

  -- The node is built in `node_donor` before the table is asked, and dies there if the key is taken.
  unfoldable pub emplace : Linked table V → K → V → Linked table V × ℕ × Bool
  emplace m k v = elim (table.find m.map_ k) [
    | some i ↦ (record m { next_node = suc m.next_node }, i, false)
    | none ↦ (
      record m {
        map_ = table.set m.map_ k m.next_node;
        list_ = m.list_ ++ record { id = m.next_node; key = k; value = v } ∷ [];
        next_node = suc m.next_node;
      },
      m.next_node,
      true,
    )
  ]

  -- operator[]: `fallback` is `Value()`; the result names the node whose value is referred to.
  unfoldable pub index : Linked table V → K → V → Linked table V × ℕ
  unfolding insert
  index m k fallback = let (m', i, fresh) = insert m k fallback in (m', i)

  unfoldable pub erase : Linked table V → K → Linked table V × ℕ
  erase m k = elim (table.find m.map_ k) [
    | none ↦ (m, 0)
    | some i ↦ (record m { map_ = table.erase m.map_ k; list_ = remove_node i m.list_ }, 1)
  ]

  -- erase(iterator), with the ABSL_CHECK that the table points back at the node.
  unfoldable pub erase_at : Linked table V → ℕ → Option (Linked table V × Option ℕ)
  erase_at m position = do
    node ← node_at position m.list_
    found ← table.find m.map_ node.key
    check (found == position) (
        some (
          record m { map_ = table.erase m.map_ node.key; list_ = remove_node position m.list_ },
          next_of position m.list_,
        ))

  -- The `while` of erase(first, last), with a bound on its rounds.
  unfoldable pub erase_loop :
      ℕ → Linked table V → Option ℕ → Option ℕ → Option (Linked table V × Option ℕ)
  erase_loop zero m first last = none
  erase_loop (suc rounds) m none last = some (m, none)
  erase_loop (suc rounds) m (some i) last = elim (same_iterator (some i) last) [
    | true ↦ some (m, some i)
    | false ↦ erase_at m i >>= λ r. erase_loop rounds r.0 r.1 last
  ]

  unfoldable pub erase_range :
      Linked table V → Option ℕ → Option ℕ → Option (Linked table V × Option ℕ)
  unfolding erase_loop
  erase_range m first last = erase_loop (length m.list_ + 1) m first last

  unfoldable pub pop_front : Linked table V → Option (Linked table V)
  unfolding begin
  pop_front m = do position ← begin m; r ← erase_at m position; some r.0

  unfoldable pub swap : Linked table V × Linked table V → Linked table V × Linked table V
  swap (m, other) = (
    record { map_ = other.map_; list_ = other.list_; next_node = other.next_node },
    record { map_ = m.map_; list_ = m.list_; next_node = m.next_node },
  )
