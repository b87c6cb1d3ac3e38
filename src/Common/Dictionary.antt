-- ===== src/Common/Dictionary.antt =====
-- A JavaScript object used as a dictionary: the entries in insertion order, keys as numbers that
-- stand for the property names.
use Prim.Native.Nat.{ℕ}
use mathlib.Core.Path.{◌≡◌, refl}
use mathlib.Core.List.{List, [], ◌∷◌}
use mathlib.Core.Option.{Option, none, some}
use native.Mathlib.Omega.{arith}
use task_manger_project.Common.Tests.{◌==◌, if◌then◌else◌}

abbrev pub Dict {ℓ} : Type ℓ → Type ℓ
Dict V = List (ℕ × V)

module _ {ℓ} {V : Type ℓ} where
  -- `d[k]`, with `none` for undefined
  unfoldable pub get : ℕ → Dict V → Option V
  get k [] = none
  get k ((j, v) ∷ d) = if j == k then some v else get k d

  -- `d[k] = v`: in place, or behind the other entries
  unfoldable pub put : ℕ → V → Dict V → Dict V
  put k v [] = (k, v) ∷ []
  put k v ((j, w) ∷ d) = if j == k then (j, v) ∷ d else (j, w) ∷ put k v d

  pub get-put :
      (k j : ℕ) (v : V) (d : Dict V) → get j (put k v d) ≡ (if k == j then some v else get j d)
  unfolding get put
  get-put k j v [] = refl
  get-put k j v ((i, w) ∷ d) = ground (arith, get-put k j v d)

  pub get-put_self : (k : ℕ) (v : V) (d : Dict V) → get k (put k v d) ≡ some v
  get-put_self k v d = ground (arith, get-put k k v d)

-- A loop over the keys that gives each entry anew.
module _ {ℓ κ} {V : Type ℓ} {W : Type κ} where
  unfoldable pub map_entries : (ℕ → V → W) → Dict V → Dict W
  map_entries f [] = []
  map_entries f ((j, v) ∷ d) = (j, f j v) ∷ map_entries f d

  abbrev pub map_option : (V → W) → Option V → Option W
  map_option f none = none
  map_option f (some v) = some (f v)

  pub get-map_entries :
      (f : ℕ → V → W) (k : ℕ) (d : Dict V) → get k (map_entries f d) ≡ map_option (f k) (get k d)
  unfolding get map_entries
  get-map_entries f k [] = refl
  get-map_entries f k ((j, v) ∷ d) = ground (arith, get-map_entries f k d)
