-- ===== src/FlatHashMap/Interface.antt =====
-- The interface of the hash table.
use io_base.Base.{ℕ, ◌+◌, ◌≡◌, Option, none, some, ite, ◌≢◌}

pub record FlatHashMap {K : Type 0} (dec : Discrete K) (V : Type 0) : Type 1 where
  pub Map : Type 0
  pub empty : Map
  pub find : Map → K → Option V
  pub set : Map → K → V → Map
  pub erase : Map → K → Map
  pub size : Map → ℕ
  pub find-empty : (k : K) → find empty k ≡ none
  pub find-set :
      (m : Map) (k j : K) (v : V) → find (set m k v) j ≡ ite (dec j k) (some v) (find m j)
  pub find-erase : (m : Map) (k j : K) → find (erase m k) j ≡ ite (dec j k) none (find m j)
  pub size-empty : size empty ≡ 0
  pub size-set_new : (m : Map) (k : K) (v : V) → find m k ≡ none → size (set m k v) ≡ size m + 1
  pub size-set_old : (m : Map) (k : K) (v : V) → find m k ≢ none → size (set m k v) ≡ size m
  pub size-erase : (m : Map) (k : K) → find m k ≢ none → size (erase m k) + 1 ≡ size m
