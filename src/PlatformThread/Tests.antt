-- ===== src/PlatformThread/Tests.antt =====
-- A short name.
use io_base.Base.{ℕ, zero, suc, ◌≡◌, refl, true, some, List, [], ◌∷◌, length, arith}
use io_base.PlatformThread.Defs.{name_size, set_current_thread_name}
use io_base.PlatformThread.Names.{string_at, set_current_thread_name_lem}

abbrev replicate : ℕ → ℕ → List ℕ
replicate zero x = []
replicate (suc n) x = x ∷ replicate n x

-- "ab", with something behind it.
set_current_thread_name_lem_example :
    (wide : List ℕ) × (set_current_thread_name true (97 ∷ 98 ∷ 0 ∷ 99 ∷ []) (replicate 64 7)
      ≡ some (record { description = some wide; exception = 97 ∷ 98 ∷ 0 ∷ 99 ∷ [] }))
    × (length wide ≡ name_size)
    × (string_at wide ≡ some (97 ∷ 98 ∷ []))
set_current_thread_name_lem_example =
    set_current_thread_name_lem (97 ∷ 98 ∷ []) (99 ∷ []) (replicate 64 7) (omega arith) refl
