-- ===== src/Prelude/Maps.antt =====
-- Go's map[string]V as an association list. A nil map reads as the empty one.
use Prim.Native.String.{String}
use mathlib.Core.Path.{◌≡◌, refl}
use mathlib.Core.Bool.{Bool}
use mathlib.Core.List.{List, [], ◌∷◌}
use mathlib.Core.Option.{Option, none, some}
use native.Mathlib.Omega.{arith}
use text.Mathlib.Text.{◌==◌}
use text.Mathlib.TextEquality.{eq_iff}
use load_balancer_operator_f.Prelude.Tests.{if◌then◌else◌, is_some}

abbrev pub Dict {ℓ} : Type ℓ → Type ℓ
Dict V = List (String × V)

module _ {ℓ} {V : Type ℓ} where
  -- `delete(m, key)`
  unfoldable pub delete : String → Dict V → Dict V
  delete key [] = []
  delete key ((here, v) ∷ rest) =
      let kept = delete key rest in if here == key then kept else (here, v) ∷ kept

  -- `v, ok := m[key]`
  unfoldable pub lookup : String → Dict V → Option V
  lookup key [] = none
  lookup key ((here, v) ∷ rest) =
      let later = lookup key rest in if here == key then some v else later

  -- `_, ok := m[key]`
  abbrev pub has : String → Dict V → Bool
  has key m = is_some (lookup key m)

  -- `m[key] = value`: the first entry of the key is overwritten, or a new one stands last.
  unfoldable pub insert : String → V → Dict V → Dict V
  insert key value [] = (key, value) ∷ []
  insert key value ((here, v) ∷ rest) =
      let later = insert key value rest in
      if here == key then (here, value) ∷ rest else (here, v) ∷ later

  pub lookup-delete :
      (key other : String) (m : Dict V)
      → lookup other (delete key m) ≡ (if key == other then none else lookup other m)
  unfolding lookup delete
  lookup-delete key other [] = ground arith
  lookup-delete key other ((here, v) ∷ rest) =
      ground
        (arith, lookup-delete key other rest, eq_iff here key, eq_iff here other, eq_iff key other)

  pub lookup-insert :
      (key other : String) (value : V) (m : Dict V)
      → lookup other (insert key value m) ≡ (if key == other then some value else lookup other m)
  unfolding lookup insert
  lookup-insert key other value [] = refl
  lookup-insert key other value ((here, v) ∷ rest) = ground (
    arith,
    lookup-insert key other value rest,
    eq_iff here key,
    eq_iff here other,
    eq_iff key other,
  )

-- `m[k]` of a map of strings: the empty string where the key is missing.
unfoldable pub index : String → Dict String → String
index k m = elim (lookup k m) [ none ↦ "" | some v ↦ v ]
