-- ===== src/Dynamic/Response/Strategy.antt =====
-- What the strategies do with the mirror's credentials.
use dynamic_credential_provi.Base.{
  Dict, Option, Option-cases, Text, [], arith, if◌then◌else◌, inl, inr, insert, lookup,
  lookup-insert, none, ok, refl, some, text_eq, text_eq_refl, true, ◌↔◌, ◌≡◌,
}
use dynamic_credential_provi.Api.{
  mirror_credentials_first, mirror_credentials_last, mirror_credentials_only, other_strategy,
  MirrorCredentialsStrategy, AuthConfig, MirrorConfig,
}
use dynamic_credential_provi.Dynamic.Response.{place_mirror_auth, is_registry_credentials_only}

-- The credentials under the key `j` that the documentation of a strategy asks for: the strategy
-- decides which of the image and its globbed domain has the mirror's and which the origin's.
abbrev pub promised :
    MirrorCredentialsStrategy → Text → Text → AuthConfig → AuthConfig → Text → Option AuthConfig
promised mirror_credentials_first img globbed mirror origin j =
    if text_eq img j then some mirror else if text_eq globbed j then some origin else none
promised mirror_credentials_last img globbed mirror origin j =
    if text_eq globbed j then some mirror else if text_eq img j then some origin else none
promised mirror_credentials_only img globbed mirror origin j =
    if text_eq img j then some mirror else none
promised (other_strategy s n) img globbed mirror origin j = none

-- One of the three constants.
abbrev pub IsSupported : MirrorCredentialsStrategy → Type 0
IsSupported (other_strategy s n) = ⊥
IsSupported _ = Unit

lookup-insert_nil : (k : Text) (v : AuthConfig) → lookup k (insert k v []) ≡ some v
unfolding lookup insert
lookup-insert_nil k v = rw text_eq_refl

-- The map with which updateAuthConfigMapForMirror is called.
abbrev pub origin_map : MirrorCredentialsStrategy → Text → AuthConfig → Dict AuthConfig
origin_map mirror_credentials_only img origin = []
origin_map _ img origin = insert img origin []

pub place_mirror_auth-promised :
    (strategy : MirrorCredentialsStrategy) (img globbed : Text) (mirror origin : AuthConfig)
    → IsSupported strategy
    → (auth : Dict AuthConfig) × (place_mirror_auth strategy
          (origin_map strategy img origin)
          img
          globbed
          mirror
        ≡ ok auth)
      × ((j : Text) → lookup j auth ≡ promised strategy img globbed mirror origin j)
unfolding place_mirror_auth lookup
place_mirror_auth-promised mirror_credentials_first img globbed mirror origin s = (
  insert img mirror (insert globbed origin (insert img origin [])),
  ground (arith, lookup-insert_nil img origin),
  λ j. ground (
    arith,
    lookup-insert img j mirror (insert globbed origin (insert img origin [])),
    lookup-insert globbed j origin (insert img origin []),
    lookup-insert img j origin [],
  ),
)
place_mirror_auth-promised mirror_credentials_last img globbed mirror origin s = (
  insert globbed mirror (insert img origin []),
  refl,
  λ j.
      ground (
        arith,
        lookup-insert globbed j mirror (insert img origin []),
        lookup-insert img j origin [],
      ),
)
place_mirror_auth-promised mirror_credentials_only img globbed mirror origin s =
    (insert img mirror [], refl, λ j. ground (arith, lookup-insert img j mirror []))
place_mirror_auth-promised (other_strategy s n) img globbed mirror origin h = absurd h

pub is_registry_credentials_only_iff :
    (cfg : MirrorConfig)
    → (is_registry_credentials_only (some cfg) ≡ true)
      ↔ (cfg.credentials_strategy ≡ mirror_credentials_only)
unfolding is_registry_credentials_only
is_registry_credentials_only_iff cfg = go cfg.credentials_strategy refl
  where
    go :
        (t : MirrorCredentialsStrategy)
        → cfg.credentials_strategy ≡ t
        → (is_registry_credentials_only (some cfg) ≡ true)
          ↔ (cfg.credentials_strategy ≡ mirror_credentials_only)
    go mirror_credentials_only p = (λ h. p, λ h. ground arith)
    go mirror_credentials_first p = (λ h. absurd (ground arith), λ h. absurd cc)
    go mirror_credentials_last p = (λ h. absurd (ground arith), λ h. absurd cc)
    go (other_strategy s n) p = (λ h. absurd (ground arith), λ h. absurd cc)

pub place_mirror_auth_iff :
    (strategy : MirrorCredentialsStrategy) (auth_map : Dict AuthConfig) (img globbed : Text)
    (mirror_auth : AuthConfig)
    → ((auth : Dict AuthConfig) × (place_mirror_auth strategy auth_map img globbed mirror_auth
          ≡ ok auth))
      ↔ IsSupported strategy
unfolding place_mirror_auth
place_mirror_auth_iff mirror_credentials_only auth_map img globbed mirror_auth =
    (λ h. tt, λ h. (insert img mirror_auth auth_map, refl))
place_mirror_auth_iff mirror_credentials_last auth_map img globbed mirror_auth =
    (λ h. tt, λ h. (insert globbed mirror_auth auth_map, refl))
place_mirror_auth_iff mirror_credentials_first auth_map img globbed mirror_auth = (
  λ h. tt,
  λ h. elim (Option-cases (lookup img auth_map)) [
    | inl e ↦ (insert img mirror_auth auth_map, ground arith)
    | inr (existing, e) ↦ (insert img mirror_auth (insert globbed existing auth_map), ground arith)
  ],
)
place_mirror_auth_iff (other_strategy s n) auth_map img globbed mirror_auth =
    (λ (auth, h). cc, λ h. absurd h)
