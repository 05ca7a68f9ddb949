-- ===== src/Base/Maps.antt =====
-- Go maps as association lists in the order in which `range` visits them.
use mathlib.Core.Path.{◌≡◌, refl}
use mathlib.Core.Option.{Option, none, some}
use mathlib.Core.List.{List, [], ◌∷◌}
use native.Mathlib.Omega.{arith}
use dynamic_credential_provi.Base.Tests.{if◌then◌else◌}
use dynamic_credential_provi.Base.Bytes.{Text, text_eq, text_eq_iff}

abbrev pub Dict {ℓ} : Type ℓ → Type ℓ
Dict V = List (Text × V)

module _ {ℓ} {V : Type ℓ} where
  -- `m[key] = value`
  unfoldable pub insert : Text → V → Dict V → Dict V
  insert key value [] = (key, value) ∷ []
  insert key value ((other, old) ∷ rest) =
      if text_eq other key then (key, value) ∷ rest else (other, old) ∷ insert key value rest

  -- `value, found := m[key]`
  unfoldable pub lookup : Text → Dict V → Option V
  lookup key [] = none
  lookup key ((other, value) ∷ rest) = if text_eq other key then some value else lookup key rest

  -- An assignment changes what its own key gives, and nothing else.
  pub lookup-insert :
      (key asked : Text) (value : V) (m : Dict V)
      → lookup asked (insert key value m)
        ≡ (if text_eq key asked then some value else lookup asked m)
  unfolding lookup insert
  lookup-insert key asked value [] = refl
  lookup-insert key asked value ((other, old) ∷ rest) = ground (
    arith,
    lookup-insert key asked value rest,
    text_eq_iff other asked,
    text_eq_iff other key,
    text_eq_iff key asked,
  )
