-- ===== src/Dynamic/Response/Returns.antt =====
-- When GetCredentials returns a response.
use dynamic_credential_provi.Base.{
  All, Bool-cases, Dict, List, Option, Result-cases, Text, [], arith, bind-ok, false, if◌then◌else◌,
  inl, inr, insert, none, not, ok, refl, some, true, wrapping, wrapping-eq-ok, ◌&&◌, ◌||◌, ◌↔◌, ◌≡◌,
  ◌⊎◌,
}
use dynamic_credential_provi.Api.{
  mirror_credentials_only, MirrorConfig, AuthConfig, CredentialProviderResponse, Duration,
  image_cache,
}
use dynamic_credential_provi.Dynamic.Select.{get_credentials_for_image, Found}
use dynamic_credential_provi.Dynamic.Response.{
  get_credentials, get_mirror_credentials_for_image, update_auth_config_map_for_mirror,
  origin_credentials, mirror_entry, is_registry_credentials_only, place_mirror_auth, mirror_image,
  not_found, exceeds,
}
use dynamic_credential_provi.Dynamic.Provider.{IsFaithful, Provider, Convert}
use dynamic_credential_provi.Dynamic.Select.Answers.{HasAnswer, get_credentials_for_image_iff}
use dynamic_credential_provi.Urlglobber.Url.{UrlLib}
use dynamic_credential_provi.Urlglobber.Globber.{globbed_domain_for_image, ReferenceLib}
use dynamic_credential_provi.Dynamic.Response.Strategy.{
  IsSupported, place_mirror_auth_iff, is_registry_credentials_only_iff,
}

-- The strategy is one of the three, and the image is a reference.
abbrev pub IsPlaceable : ReferenceLib → MirrorConfig → Text → Type 0
IsPlaceable ref cfg img =
    IsSupported cfg.credentials_strategy
    × ((globbed : Text) × (globbed_domain_for_image ref img ≡ ok globbed))

-- The mirror's image can be made, the providers answer for it, and for the image itself if the
-- strategy asks for that; where the mirror has credentials, there is a place for them.
pub record MirrorAnswers (lib : UrlLib) (convert : Convert) (providers : List Provider)
    (ref : ReferenceLib) (cfg : MirrorConfig) (img : Text) : Type 0 where
  pub mirrored : Text
  pub has_mirror_image : mirror_image lib cfg img ≡ ok mirrored
  pub at_mirror : All (HasAnswer convert mirrored) providers
  pub at_origin :
      (cfg.credentials_strategy ≡ mirror_credentials_only) ⊎ All (HasAnswer convert img) providers
  pub mirror_found : Found
  pub finds : get_credentials_for_image lib convert mirrored providers ≡ ok mirror_found
  pub has_place : (mirror_found.found ≡ false) ⊎ IsPlaceable ref cfg img

abbrev pub CanAnswer :
    UrlLib → Convert → List Provider → ReferenceLib → Option MirrorConfig → Text → Type 0
CanAnswer lib convert providers ref none img = All (HasAnswer convert img) providers
CanAnswer lib convert providers ref (some cfg) img = MirrorAnswers lib convert providers ref cfg img

module _ (lib : UrlLib) (convert : Convert) (faithful : IsFaithful convert)
    (providers : List Provider) (ref : ReferenceLib) where
  origin_credentials_iff :
      (mirror : Option MirrorConfig) (img : Text) (m : Found)
      → ((x : Dict AuthConfig × Duration) × (origin_credentials lib convert providers mirror img m
            ≡ ok x))
        ↔ ((is_registry_credentials_only mirror ≡ true) ⊎ All (HasAnswer convert img) providers)
  unfolding origin_credentials
  origin_credentials_iff mirror img m = (λ (x, h). there x h, back)
    where
      there :
          (x : Dict AuthConfig × Duration)
          → origin_credentials lib convert providers mirror img m ≡ ok x
          → (is_registry_credentials_only mirror ≡ true) ⊎ All (HasAnswer convert img) providers
      there x h = elim (Bool-cases (is_registry_credentials_only mirror)) [
        | inl only ↦ inl only
        | inr asks ↦ elim (Result-cases (get_credentials_for_image lib convert img providers)) [
          | inl (c, e) ↦ absurd (ground arith)
          | inr (inl (e, p)) ↦ absurd (ground arith)
          | inr (inr (origin, e)) ↦
              inr ((get_credentials_for_image_iff lib convert img faithful providers).0 (origin, e))
        ]
      ]

      back :
          (is_registry_credentials_only mirror ≡ true) ⊎ All (HasAnswer convert img) providers
          → (x : Dict AuthConfig × Duration) × (origin_credentials lib convert providers mirror img
                m
              ≡ ok x)
      back answers = elim (Bool-cases (is_registry_credentials_only mirror)) [
        | inl only ↦ (([], m.cache_duration), rw only refl)
        | inr asks ↦ elim answers [
          | inl only ↦ absurd (ground arith)
          | inr a ↦
              let (origin, e) =
                (get_credentials_for_image_iff lib convert img faithful providers).1 a in
              (
                (
                  insert img origin.auth_config [],
                  if origin.found && (not m.found || exceeds m.cache_duration origin.cache_duration)
                      then origin.cache_duration
                      else m.cache_duration,
                ),
                rw (asks, e) refl,
              )
        ]
      ]

  mirror_entry_iff :
      (cfg : MirrorConfig) (img : Text) (m : Found) (auth_map : Dict AuthConfig)
      → ((auth : Dict AuthConfig) × (mirror_entry ref (some cfg) img m auth_map ≡ ok auth))
        ↔ ((m.found ≡ false) ⊎ IsPlaceable ref cfg img)
  unfolding mirror_entry update_auth_config_map_for_mirror
  mirror_entry_iff cfg img m auth_map = elim (Bool-cases m.found) [
    | inl f ↦ (
      λ (auth, h).
          let (globbed, g, h') =
            bind-ok (globbed_domain_for_image ref img)
              (λ globbed.
                place_mirror_auth cfg.credentials_strategy auth_map img globbed m.auth_config)
              (rw f at h) in
          inr (
            (place_mirror_auth_iff cfg.credentials_strategy auth_map img globbed m.auth_config).0
                (auth, h'),
            (globbed, g),
          ),
      λ p. elim p [
        | inl n ↦ absurd (ground arith)
        | inr (s, (globbed, g)) ↦
            let (auth, h) =
              (place_mirror_auth_iff cfg.credentials_strategy auth_map img globbed m.auth_config).1
                s in
            (auth, rw (f, g) h)
      ],
    )
    | inr n ↦ (λ h. inl n, λ h. (auth_map, rw n refl))
  ]

  -- With faithful conversions, GetCredentials returns a response, and neither an error nor a panic,
  -- exactly when the providers can answer: without a mirror, when each of them has nothing for the
  -- image or a response that can be converted; with one, when the mirrored image can be made, each
  -- of them answers so for it, and for the image itself unless the strategy is
  -- MirrorCredentialsOnly, and where the mirror has credentials the strategy is one of the three
  -- and the image is a reference.
  pub get_credentials_returns_iff :
      (mirror : Option MirrorConfig) (img : Text)
      → ((response : CredentialProviderResponse) × (get_credentials lib convert providers ref mirror
              img
            ≡ ok response))
        ↔ CanAnswer lib convert providers ref mirror img
  unfolding get_credentials get_mirror_credentials_for_image is_registry_credentials_only
      mirror_entry
  get_credentials_returns_iff none img = (
    λ (response, h).
        let (x, e, _) = bind-ok (origin_credentials lib convert providers none img not_found) _ h in
        elim ((origin_credentials_iff none img not_found).0 (x, e)) [
          | inl only ↦ absurd (ground arith)
          | inr a ↦ a
        ],
    λ a.
        let (x, e) = (origin_credentials_iff none img not_found).1 (inr a) in
        (record { cache_key_type = image_cache; cache_duration = some x.1; auth = x.0 }, rw e refl),
  )
  get_credentials_returns_iff (some cfg) img = (
    λ (response, h).
        let (m, e, h1) =
          bind-ok
            (wrapping "failed to get mirror credentials: %w" []
              (get_mirror_credentials_for_image lib convert providers (some cfg) img))
            _ h in
        let (x, e', h2) =
          bind-ok (origin_credentials lib convert providers (some cfg) img m) _ h1 in
        let (auth, e'', _) = bind-ok (mirror_entry ref (some cfg) img m x.0) _ h2 in
        let (mirrored, i, finds) =
          bind-ok (mirror_image lib cfg img)
            (λ mirrored. get_credentials_for_image lib convert mirrored providers)
            (wrapping-eq-ok _ [] _ e) in
        record {
          mirrored = mirrored;
          has_mirror_image = i;
          at_mirror =
              (get_credentials_for_image_iff lib convert mirrored faithful providers).0 (m, finds);
          at_origin = elim ((origin_credentials_iff (some cfg) img m).0 (x, e')) [
            | inl only ↦ inl ((is_registry_credentials_only_iff cfg).0 only)
            | inr answers ↦ inr answers
          ];
          mirror_found = m;
          finds = finds;
          has_place = (mirror_entry_iff cfg img m x.0).0 (auth, e'');
        },
    λ a.
        let (x, e) = (origin_credentials_iff (some cfg) img a.mirror_found).1 (elim a.at_origin [
          | inl o ↦ inl ((is_registry_credentials_only_iff cfg).1 o)
          | inr answers ↦ inr answers
        ]) in
        let (auth, e') = (mirror_entry_iff cfg img a.mirror_found x.0).1 a.has_place in
        (
          record { cache_key_type = image_cache; cache_duration = some x.1; auth = auth },
          rw (a.has_mirror_image, a.finds, e, e') refl,
        ),
  )
