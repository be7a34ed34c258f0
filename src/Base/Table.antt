-- ===== src/Base/Table.antt =====
-- A Python `dict`: an association list in insertion order. A key is held once: an assignment to a
-- key that is there replaces its value in place.
pub mod Perm
pub mod Entries
use mathlib.Core.Path.{◌≡◌, refl}
use mathlib.Core.Bool.{Bool, true, false}
use mathlib.Core.Option.{Option, none, some}
use mathlib.Core.List.{List, [], ◌∷◌, map}
use native.Mathlib.Omega.{arith}
use follow_the_money.Base.Tests.{if◌then◌else◌}
use follow_the_money.Base.Order.{Order, same, same→eq, same_refl}

abbrev pub Table {ℓ κ} : Type ℓ → Type κ → Type (ℓ ⊔ κ)
Table K V = List (K × V)

module _ {ℓ κ} {K : Type ℓ} {V : Type κ} ⦃o : Order K⦄ where
  -- `d.get(k)`
  unfoldable pub lookup : K → Table K V → Option V
  lookup k [] = none
  lookup k ((j, v) ∷ d) = if same j k then some v else lookup k d

  -- `d[k] = v`
  unfoldable pub insert : K → V → Table K V → Table K V
  insert k v [] = (k, v) ∷ []
  insert k v ((j, w) ∷ d) = if same j k then (j, v) ∷ d else (j, w) ∷ insert k v d

  -- `k in d`
  unfoldable pub contains : K → Table K V → Bool
  contains k [] = false
  contains k ((j, v) ∷ d) = if same j k then true else contains k d

  -- `d.get(k, v)`
  abbrev pub get_or : Table K V → K → V → V
  get_or d k v = elim (lookup k d) [ none ↦ v | some w ↦ w ]

  pub lookup-insert :
      (k j : K) (v : V) (d : Table K V)
      → lookup j (insert k v d) ≡ (if same k j then some v else lookup j d)
  unfolding lookup insert
  lookup-insert k j v [] = refl
  lookup-insert k j v ((i, w) ∷ d) = ground (
    arith,
    same→eq k j,
    same→eq i k,
    same→eq i j,
    same_refl k,
    same_refl i,
    same_refl j,
    lookup-insert k j v d,
  )

  pub lookup-insert_self : (k : K) (v : V) (d : Table K V) → lookup k (insert k v d) ≡ some v
  lookup-insert_self k v d = ground (arith, lookup-insert k k v d, same_refl k)

abbrev pub keys {ℓ κ} : {K : Type ℓ} {V : Type κ} → Table K V → List K
keys d = map (λ e. e.0) d

-- `K in a list of keys`
module _ {ℓ} {K : Type ℓ} ⦃o : Order K⦄ where
  abbrev pub member : K → List K → Bool
  member k [] = false
  member k (j ∷ js) = if same j k then true else member k js
