-- ===== src/Prelude/Maps.antt =====
-- The standard library's maps (`HashMap`, `BTreeMap`) as association lists with one entry a key.
-- `insert` replaces a value in place, `remove` drops every entry of the key.
use mathlib.Core.Path.{◌≡◌, refl}
use mathlib.Core.Bool.{Bool}
use mathlib.Core.List.{List, [], ◌∷◌}
use mathlib.Core.Option.{Option, none, some}
use native.Mathlib.Omega.{arith}
use muta.Prelude.Tests.{if◌then◌else◌, is_some}
use muta.Prelude.Classes.{Eq, nat_eq, ◌==◌}

abbrev pub Dict {ℓ κ} : Type ℓ → Type κ → Type (ℓ ⊔ κ)
Dict K V = List (K × V)

module _ {ℓ κ} {K : Type ℓ} {V : Type κ} ⦃e : Eq K⦄ where
  abbrev pub lookup : K → Dict K V → Option V
  lookup k [] = none
  lookup k ((j, v) ∷ m) = if j == k then some v else lookup k m

  abbrev pub contains_key : K → Dict K V → Bool
  contains_key k m = is_some (lookup k m)

  abbrev pub insert : K → V → Dict K V → Dict K V
  insert k v [] = (k, v) ∷ []
  insert k v ((j, w) ∷ m) = if j == k then (k, v) ∷ m else (j, w) ∷ insert k v m

  abbrev pub remove : K → Dict K V → Dict K V
  remove k [] = []
  remove k ((j, w) ∷ m) = if j == k then remove k m else (j, w) ∷ remove k m

  pub lookup-insert :
      (k : K) (v : V) (m : Dict K V) (j : K)
      → lookup j (insert k v m) ≡ (if k == j then some v else lookup j m)
  lookup-insert k v [] j = refl
  lookup-insert k v ((i, w) ∷ m) j =
      ground (arith, e.eq_iff i j, e.eq_iff i k, e.eq_iff k j, lookup-insert k v m j)

  pub lookup-remove :
      (k j : K) (m : Dict K V) → lookup j (remove k m) ≡ (if k == j then none else lookup j m)
  lookup-remove k j [] = ground arith
  lookup-remove k j ((i, w) ∷ m) =
      ground (arith, e.eq_iff k j, e.eq_iff i k, e.eq_iff i j, lookup-remove k j m)

  -- Pairs collected into a map: a later value of a key replaces an earlier one.
  abbrev pub collect_onto : List (K × V) → Dict K V → Dict K V
  collect_onto [] m = m
  collect_onto ((k, v) ∷ kvs) m = collect_onto kvs (insert k v m)
