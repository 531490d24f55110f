-- ===== src/Base/Maps.antt =====
-- Go's maps with native keys, as association lists. A nil map is `none`: reading it finds nothing.
use Prim.Native.Nat.{ℕ}
use mathlib.Core.Path.{◌≡◌}
use mathlib.Core.Logic.{◌≢◌}
use mathlib.Core.Option.{Option, none, some}
use mathlib.Core.List.{List, [], ◌∷◌}
use native.Mathlib.Omega.{arith}
use go_ortc.Base.Tests.{◌==◌, if◌then◌else◌}

module _ {ℓ} {A : Type ℓ} where
  abbrev pub find : List (ℕ × A) → ℕ → Option A
  find [] k = none
  find ((j, a) ∷ m) k = if j == k then some a else find m k

  abbrev pub insert : List (ℕ × A) → ℕ → A → List (ℕ × A)
  insert [] k v = (k, v) ∷ []
  insert ((j, a) ∷ m) k v = if j == k then (k, v) ∷ m else (j, a) ∷ insert m k v

  abbrev pub find_in : Option (List (ℕ × A)) → ℕ → Option A
  find_in none k = none
  find_in (some m) k = find m k

  pub find-insert_self : (m : List (ℕ × A)) (k : ℕ) (v : A) → find (insert m k v) k ≡ some v
  find-insert_self [] k v = ground arith
  find-insert_self ((j, a) ∷ m) k v = let rest = find-insert_self m k v in ground arith

  pub find-insert_ne :
      (m : List (ℕ × A)) (k j : ℕ) (v : A) → k ≢ j → find (insert m k v) j ≡ find m j
  find-insert_ne [] k j v ne = ground arith
  find-insert_ne ((i, a) ∷ m) k j v ne = let rest = find-insert_ne m k j v ne in ground arith
