-- ===== src/Base/Maps.antt =====
-- Go maps with string keys, by their entries; no key stands twice in what the operations build.
use mathlib.Core.Path.{◌≡◌}
use mathlib.Core.Option.{Option, none, some}
use mathlib.Core.List.{List, [], ◌∷◌}
use native.Mathlib.Omega.{arith}
use cffi_proxy.Base.Tests.{if◌then◌else◌}
use cffi_proxy.Base.Strings.{Text, text_eq, text_eq_iff}

abbrev pub Map : Type 0 → Type 0
Map V = List (Text × V)

module _ {V : Type 0} where
  -- h[k], with its second result as an Option.
  unfoldable pub lookup : Text → Map V → Option V
  lookup k [] = none
  lookup k ((j, vs) ∷ h) = if text_eq j k then some vs else lookup k h

  -- h[k] = vs
  unfoldable pub store : Text → V → Map V → Map V
  store k vs [] = (k, vs) ∷ []
  store k vs ((j, ws) ∷ h) = if text_eq j k then (k, vs) ∷ h else (j, ws) ∷ store k vs h

  -- delete(h, k)
  unfoldable pub delete : Text → Map V → Map V
  delete k [] = []
  delete k ((j, vs) ∷ h) = let rest = delete k h in if text_eq j k then rest else (j, vs) ∷ rest

  pub lookup-store :
      (k j : Text) (vs : V) (h : Map V)
      → lookup j (store k vs h) ≡ (if text_eq k j then some vs else lookup j h)
  unfolding lookup store
  lookup-store k j vs [] = ground arith
  lookup-store k j vs ((i, ws) ∷ h) =
      ground (arith, text_eq_iff k j, text_eq_iff i k, text_eq_iff i j, lookup-store k j vs h)

  pub lookup-delete :
      (k j : Text) (h : Map V) → lookup j (delete k h) ≡ (if text_eq k j then none else lookup j h)
  unfolding lookup delete
  lookup-delete k j [] = ground arith
  lookup-delete k j ((i, ws) ∷ h) =
      ground (arith, text_eq_iff k j, text_eq_iff i k, text_eq_iff i j, lookup-delete k j h)
