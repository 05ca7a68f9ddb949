-- ===== src/Webhooks/Validation/Laws.antt =====
-- The configurations that pass are exactly the valid ones.
use dynamic_credential_provi.Base.{
  All, List, Text, [], ap, codes, false, has_byte, lookup, ltb_ℤ, none, ok, ok-injective, pos, refl,
  some, ℕ, ◌+◌, ◌↔◌, ◌∷◌, ◌≡◌, ◌≢◌,
}
use dynamic_credential_provi.Webhooks.Validation.{required, child, index}
use dynamic_credential_provi.Apiversions.{api_versions}
use dynamic_credential_provi.Kubernetes.{Codec}
use dynamic_credential_provi.Api.{CredentialProvider, Duration, CredentialProviderConfig}
use dynamic_credential_provi.Urlglobber.Url.{parse_potentially_schemeless_url, Url, UrlLib}
use dynamic_credential_provi.Webhooks.Validation.{
  FieldPath, FieldError, match_image_errors, is_empty, providers_errors,
  validate_credential_provider_config, provider_errors,
}
use dynamic_credential_provi.Urlglobber.Matcher.{dot}
use dynamic_credential_provi.Webhooks.Validation.Checks.{
  match_image_errors-nil, api_version_errors-keep, duration_errors-nil, duration_errors-keep,
  name_errors-nil, append_if-nil, name_errors-keep, api_version_errors-nil,
}

pub record IsValidProvider (codec : Codec) (lib : UrlLib) (p : CredentialProvider) : Type 0 where
  pub no_slash : has_byte b'/' p.name ≡ false
  pub no_space : has_byte b' ' p.name ≡ false
  pub not_dot : p.name ≢ codes "."
  pub not_dots : p.name ≢ codes ".."
  pub has_version : p.api_version ≢ []
  pub known_version : lookup p.api_version (api_versions codec) ≢ none
  pub has_images : p.match_images ≢ []
  pub images_parse :
      All
        (λ image. (url : Url) × (parse_potentially_schemeless_url lib image ≡ ok url))
        p.match_images
  pub has_duration :
      (d : Duration) × (p.default_cache_duration ≡ some d) × (ltb_ℤ d (pos 0) ≡ false)

is_empty-ne {ℓ} : {A : Type ℓ} (xs : List A) → is_empty xs ≡ false → xs ≢ []
is_empty-ne [] h e = cc
is_empty-ne (x ∷ xs) h e = cc

ne-is_empty {ℓ} : {A : Type ℓ} (xs : List A) → xs ≢ [] → is_empty xs ≡ false
ne-is_empty [] n = absurd (n refl)
ne-is_empty (x ∷ xs) n = refl

module _ (codec : Codec) (lib : UrlLib) where
  provider_errors-IsValidProvider :
      (path : FieldPath) (p : CredentialProvider) (xs : List FieldError)
      → provider_errors codec lib path p xs ≡ []
      → IsValidProvider codec lib p × (xs ≡ [])
  unfolding provider_errors
  provider_errors-IsValidProvider path p xs h =
      let (lasting, h3) = duration_errors-nil _ p.default_cache_duration _ h in
      let (parsing, h2) = match_image_errors-nil lib _ p.match_images _ h3 in
      let (some_image, h1) = append_if-nil _ _ _ h2 in
      let (version, known, h0) = api_version_errors-nil codec _ p.api_version _ h1 in
      let (slash, space, dot, dots, e) = name_errors-nil _ p.name _ h0 in
      (
        record {
          no_slash = slash;
          no_space = space;
          not_dot = dot;
          not_dots = dots;
          has_version = version;
          known_version = known;
          has_images = is_empty-ne p.match_images some_image;
          images_parse = parsing;
          has_duration = lasting;
        },
        e,
      )

  match_image_errors-keep :
      (path : FieldPath) (images : List Text) (xs : List FieldError)
      → All (λ image. (url : Url) × (parse_potentially_schemeless_url lib image ≡ ok url)) images
      → match_image_errors lib path images xs ≡ xs
  unfolding match_image_errors
  match_image_errors-keep path [] xs a = refl
  match_image_errors-keep path (image ∷ images) xs ((url, p), a) =
      rw p (match_image_errors-keep path images xs a)

  IsValidProvider-provider_errors :
      (path : FieldPath) (p : CredentialProvider) (xs : List FieldError)
      → IsValidProvider codec lib p
      → provider_errors codec lib path p xs ≡ xs
  unfolding provider_errors
  IsValidProvider-provider_errors path p xs v =
      rw
        (
          name_errors-keep path p.name xs v.no_slash v.no_space v.not_dot v.not_dots,
          api_version_errors-keep codec path p.api_version xs v.has_version v.known_version,
          ne-is_empty p.match_images v.has_images,
          match_image_errors-keep path p.match_images xs v.images_parse,
        )
        (duration_errors-keep path p.default_cache_duration xs v.has_duration)

  providers_errors-nil :
      (path : FieldPath) (idx : ℕ) (ps : List CredentialProvider) (xs : List FieldError)
      → providers_errors codec lib path idx ps xs ≡ []
      → All (IsValidProvider codec lib) ps × (xs ≡ [])
  unfolding providers_errors
  providers_errors-nil path idx [] xs h = (tt, h)
  providers_errors-nil path idx (p ∷ ps) xs h =
      let (rest, e) = providers_errors-nil path (idx + 1) ps _ h in
      let (valid, e') = provider_errors-IsValidProvider (index path idx) p xs e in
      ((valid, rest), e')

  providers_errors-keep :
      (path : FieldPath) (idx : ℕ) (ps : List CredentialProvider) (xs : List FieldError)
      → All (IsValidProvider codec lib) ps
      → providers_errors codec lib path idx ps xs ≡ xs
  unfolding providers_errors
  providers_errors-keep path idx [] xs a = refl
  providers_errors-keep path idx (p ∷ ps) xs (v, a) =
      rw (IsValidProvider-provider_errors (index path idx) p xs v)
        (providers_errors-keep path (idx + 1) ps xs a)

  -- The validation reports no error exactly for the configurations with at least one provider in
  -- which each provider is valid: its name, API version, images and duration.
  pub validate_credential_provider_config_iff :
      (config : CredentialProviderConfig) (path : FieldPath)
      → (validate_credential_provider_config codec lib (some config) path ≡ ok [])
        ↔ ((config.providers ≢ []) × All (IsValidProvider codec lib) config.providers)
  unfolding validate_credential_provider_config
  validate_credential_provider_config_iff config path = (
    λ h.
        let (valid, e) = providers_errors-nil _ 0 config.providers _ (ok-injective h) in
        let (some_provider, _) =
          append_if-nil (is_empty config.providers)
            (required (child path "providers") "at least 1 item in plugins is required") [] e in
        (is_empty-ne config.providers some_provider, valid),
    λ v. ap ok (
        rw (ne-is_empty config.providers v.0)
          (providers_errors-keep (child path "providers") 0 config.providers [] v.1)),
  )
