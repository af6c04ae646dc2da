-- ===== src/FlatHashMap/Assoc.antt =====
-- An association list with distinct keys meets the interface of the hash table.
use io_base.Base.{ℕ, suc, ◌+◌, ◌≡◌, refl, Option, none, some, ite, List, [], ◌∷◌, arith, ◌≢◌}
use io_base.FlatHashMap.Interface.{FlatHashMap}

module _ {K V : Type 0} (dec : Discrete K) where
  pub find : List (K × V) → K → Option V
  find [] j = none
  find ((k, v) ∷ m) j = ite (dec j k) (some v) (find m j)

  pub set : List (K × V) → K → V → List (K × V)
  set [] k v = (k, v) ∷ []
  set ((i, w) ∷ m) k v = ite (dec k i) ((k, v) ∷ m) ((i, w) ∷ set m k v)

  pub erase : List (K × V) → K → List (K × V)
  erase [] k = []
  erase ((i, w) ∷ m) k = ite (dec k i) (erase m k) ((i, w) ∷ erase m k)

  pub find-set :
      (m : List (K × V)) (k j : K) (v : V) → find (set m k v) j ≡ ite (dec j k) (some v) (find m j)
  unfolding find set
  find-set [] k j v = refl
  find-set ((i, w) ∷ m) k j v = ground (arith, find-set m k j v)

  pub find-erase : (m : List (K × V)) (k j : K) → find (erase m k) j ≡ ite (dec j k) none (find m j)
  unfolding find erase
  find-erase [] k j = ground arith
  find-erase ((i, w) ∷ m) k j = ground (arith, find-erase m k j)

  -- An entry that a later one repeats is not counted twice.
  pub size : List (K × V) → ℕ
  size [] = 0
  size ((i, w) ∷ m) = elim (find m i) [ none ↦ suc (size m) | some _ ↦ size m ]

  pub size-set_new :
      (m : List (K × V)) (k : K) (v : V) → find m k ≡ none → size (set m k v) ≡ size m + 1
  unfolding size set find
  size-set_new [] k v h = omega arith
  size-set_new ((i, w) ∷ m) k v h = ground (arith, size-set_new m k v, find-set m k i v)

  pub size-set_old :
      (m : List (K × V)) (k : K) (v : V) → find m k ≢ none → size (set m k v) ≡ size m
  unfolding size set find
  size-set_old [] k v h = absurd (h refl)
  size-set_old ((i, w) ∷ m) k v h = ground (arith, size-set_old m k v, find-set m k i v)

  size-erase_absent : (m : List (K × V)) (k : K) → find m k ≡ none → size (erase m k) ≡ size m
  unfolding size erase find
  size-erase_absent [] k h = refl
  size-erase_absent ((i, w) ∷ m) k h = ground (arith, size-erase_absent m k, find-erase m k i)

  pub size-erase : (m : List (K × V)) (k : K) → find m k ≢ none → size (erase m k) + 1 ≡ size m
  unfolding size erase find
  size-erase [] k h = absurd (h refl)
  size-erase ((i, w) ∷ m) k h =
      ground (arith, size-erase m k, size-erase_absent m k, find-erase m k i)

-- The table that the tests run on.
unfoldable pub assoc : {K : Type 0} (dec : Discrete K) (V : Type 0) → FlatHashMap dec V
unfolding find set erase size
assoc {K} dec V = record {
  Map = List (K × V);
  empty = [];
  find = find dec;
  set = set dec;
  erase = erase dec;
  size = size dec;
  find-empty = λ k. refl;
  find-set = find-set dec;
  find-erase = find-erase dec;
  size-empty = refl;
  size-set_new = size-set_new dec;
  size-set_old = size-set_old dec;
  size-erase = size-erase dec;
}
