-- ===== src/Base/Collections.antt =====
-- JavaScript's `Map` and `Set` over text keys: entries in the order in which their keys were first
-- set, where a later `set` of a key overwrites its value in place.
use Prim.Native.String.{String}
use mathlib.Core.Path.{◌≡◌, refl, ◌∙◌}
use mathlib.Core.Bool.{Bool, true, false, ◌||◌}
use mathlib.Core.List.{List, [], ◌∷◌, ◌++◌}
use mathlib.Core.Option.{Option, none, some}
use native.Mathlib.Omega.{arith}
use text.Mathlib.Text.{◌==◌}
use text.Mathlib.TextEquality.{eq_iff}
use text.Mathlib.TextPositions.{eq_refl}
use webperf_selfhosted.Base.Lists.{All}
use webperf_selfhosted.Base.Tests.{if◌then◌else◌}

module _ {ℓ} {V : Type ℓ} where
  -- `map.get(k)`
  unfoldable pub map_get : String → List (String × V) → Option V
  map_get k [] = none
  map_get k ((j, v) ∷ m) = if j == k then some v else map_get k m

  -- `map.set(k, v)`
  unfoldable pub map_set : String → V → List (String × V) → List (String × V)
  map_set k v [] = (k, v) ∷ []
  map_set k v ((j, w) ∷ m) = if j == k then (j, v) ∷ m else (j, w) ∷ map_set k v m

  -- `new Map(entries)`, from the entries that stand already in `m`
  unfoldable pub map_from : List (String × V) → List (String × V) → List (String × V)
  map_from m [] = m
  map_from m ((k, v) ∷ es) = map_from (map_set k v m) es

  -- `[...map.keys()]`
  unfoldable pub map_keys : List (String × V) → List String
  map_keys [] = []
  map_keys ((k, v) ∷ m) = k ∷ map_keys m

-- `set.has(k)`, `array.includes(k)`
unfoldable pub includes : String → List String → Bool
includes k [] = false
includes k (j ∷ js) = j == k || includes k js

-- `[...new Set(keys)]`, where `seen` holds the keys before them
unfoldable pub set_from : List String → List String → List String
set_from seen [] = []
set_from seen (k ∷ ks) = elim (includes k seen) [
  | true ↦ set_from seen ks
  | false ↦ k ∷ set_from (k ∷ seen) ks
]

-- No key of the list stands in `seen` or twice.
abbrev pub Distinct : List String → List String → Type 0
Distinct seen [] = Unit
Distinct seen (k ∷ ks) = (includes k seen ≡ false) × Distinct (k ∷ seen) ks

-- No key stands in the list twice.
abbrev pub Unique : List String → Type 0
Unique [] = Unit
Unique (k ∷ ks) = (includes k ks ≡ false) × Unique ks

pub set_from-Distinct : (seen ks : List String) → Distinct seen (set_from seen ks)
unfolding set_from
set_from-Distinct seen [] = tt
set_from-Distinct seen (k ∷ ks) =
    ground (arith, set_from-Distinct seen ks, set_from-Distinct (k ∷ seen) ks)

includes_congr : (k j : String) (ks : List String) → (j == k) ≡ true → includes j ks ≡ includes k ks
includes_congr k j ks h = ground (arith, (eq_iff j k).0 h)

-- The set holds what the list holds, less what was seen.
pub includes-set_from :
    (k : String) (seen ks : List String)
    → (includes k seen || includes k (set_from seen ks)) ≡ (includes k seen || includes k ks)
unfolding includes set_from
includes-set_from k seen [] = refl
includes-set_from k seen (j ∷ ks) =
    ground (
      arith,
      includes-set_from k seen ks,
      includes-set_from k (j ∷ seen) ks,
      includes_congr k j seen,
    )

module _ {ℓ} {V : Type ℓ} where
  pub map_get-map_set :
      (k j : String) (v : V) (m : List (String × V))
      → map_get j (map_set k v m) ≡ (if k == j then some v else map_get j m)
  unfolding map_get map_set
  map_get-map_set k j v [] = refl
  map_get-map_set k j v ((i, w) ∷ m) =
      ground (arith, eq_iff k j, eq_iff i k, eq_iff i j, map_get-map_set k j v m)

  pub includes-map_keys-map_set :
      (k j : String) (v : V) (m : List (String × V))
      → includes j (map_keys (map_set k v m)) ≡ (k == j || includes j (map_keys m))
  unfolding includes map_keys map_set
  includes-map_keys-map_set k j v [] = refl
  includes-map_keys-map_set k j v ((i, w) ∷ m) =
      ground (arith, eq_iff k j, eq_iff i k, eq_iff i j, includes-map_keys-map_set k j v m)

  pub includes-map_keys :
      (j : String) (m es : List (String × V))
      → includes j (map_keys (map_from m es))
        ≡ (includes j (map_keys m) || includes j (map_keys es))
  unfolding map_from map_keys includes
  includes-map_keys j m [] = ground arith
  includes-map_keys j m ((k, v) ∷ es) =
      ground (arith, includes-map_keys j (map_set k v m) es, includes-map_keys-map_set k j v m)

-- What holds of every key of a list holds of every key of its set.
pub All-set_from {κ} :
    (P : String → Type κ) (seen ks : List String) → All P ks → All P (set_from seen ks)
unfolding set_from
All-set_from P seen [] h = tt
All-set_from P seen (k ∷ ks) h =
    elim (includes k seen)
      as (λ b. All P (elim b [ true ↦ set_from seen ks | false ↦ k ∷ set_from (k ∷ seen) ks ])) [
        | true ↦ All-set_from P seen ks h.1
        | false ↦ (h.0, All-set_from P (k ∷ seen) ks h.1)
      ]

pub includes-cons :
    (j : String) (ks rs : List String)
    → All (λ k. includes k ks ≡ true) rs
    → All (λ k. includes k (j ∷ ks) ≡ true) rs
unfolding includes
includes-cons j ks [] h = tt
includes-cons j ks (r ∷ rs) h = (ground (arith, h.0), includes-cons j ks rs h.1)

includes_head : (k : String) (ks : List String) → includes k (k ∷ ks) ≡ true
unfolding includes
includes_head k ks = ground (arith, eq_refl k)

pub includes_self : (ks : List String) → All (λ k. includes k ks ≡ true) ks
includes_self [] = tt
includes_self (k ∷ ks) = (includes_head k ks, includes-cons k ks ks (includes_self ks))

pub includes-append :
    (k : String) (js ks : List String) → includes k (js ++ ks) ≡ (includes k js || includes k ks)
unfolding includes
includes-append k [] ks = refl
includes-append k (j ∷ js) ks = ground (arith, includes-append k js ks)

-- `[...new Set([...xs, ...ys])]` holds what either list holds.
pub includes-union :
    (k : String) (xs ys : List String)
    → includes k (set_from [] (xs ++ ys)) ≡ (includes k xs || includes k ys)
unfolding includes
includes-union k xs ys = includes-set_from k [] (xs ++ ys) ∙ includes-append k xs ys

pub includes-keys {ℓ} :
    {V : Type ℓ} (k : String) (es : List (String × V))
    → includes k (map_keys (map_from [] es)) ≡ includes k (map_keys es)
unfolding includes map_keys
includes-keys k es = includes-map_keys k [] es
