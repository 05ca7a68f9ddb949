-- ===== src/Webhooks/Validation.antt =====
-- validateCredentialProviderConfig of webhooks/credentialproviderconfig_validation.go.
pub mod Fields
pub mod Checks
pub mod Laws
use dynamic_credential_provi.Base.{
  Bool, GoError, List, Option, Result, String, Text, [], codes, crash, err, false, has_byte,
  if◌then◌else◌, lookup, ltb_ℤ, map, nil_dereference, none, ok, pos, some, text_eq, true, ℕ, ◌++◌,
  ◌+◌, ◌∷◌,
}
use dynamic_credential_provi.Apiversions.{api_versions}
use dynamic_credential_provi.Kubernetes.{Codec}
use dynamic_credential_provi.Api.{CredentialProvider, CredentialProviderConfig, Duration}
use dynamic_credential_provi.Urlglobber.Url.{parse_potentially_schemeless_url, UrlLib}

-- A `field.Path`.
pub data FieldPath : Type 0 where
  root : String → FieldPath
  child : FieldPath → String → FieldPath
  index : FieldPath → ℕ → FieldPath

-- A `field.Error`; `invalid_image` has the parser's error for its detail.
pub data FieldError : Type 0 where
  required : FieldPath → String → FieldError
  invalid : FieldPath → Text → String → FieldError
  invalid_duration : FieldPath → Duration → String → FieldError
  invalid_image : FieldPath → Text → GoError → FieldError
  not_supported : FieldPath → Text → List Text → FieldError

-- `if test { allErrs = append(allErrs, e) }`
abbrev pub append_if : Bool → FieldError → List FieldError → List FieldError
append_if test e all_errs = if test then all_errs ++ e ∷ [] else all_errs

unfoldable pub name_errors : FieldPath → Text → List FieldError → List FieldError
name_errors path name all_errs =
    let field = child path "name" in
    let slash =
      append_if (has_byte b'/' name) (invalid field name "provider name cannot contain '/'")
        all_errs in
    let space =
      append_if (has_byte b' ' name) (invalid field name "provider name cannot contain spaces")
        slash in
    let single =
      append_if (text_eq name (codes ".")) (invalid field name "provider name cannot be '.'")
        space in
    append_if (text_eq name (codes "..")) (invalid field name "provider name cannot be '..'") single

unfoldable pub api_version_errors : Codec → FieldPath → Text → List FieldError → List FieldError
api_version_errors codec path api_version all_errs =
    if text_eq api_version []
    then all_errs ++ required (child path "apiVersion") "apiVersion is required" ∷ []
    else elim (lookup api_version (api_versions codec)) [
      | none ↦
          all_errs
          ++ not_supported (child path "apiVersion") api_version
              (map (λ entry. entry.0) (api_versions codec))
            ∷ []
      | some gv ↦ all_errs
    ]

-- The loop over `provider.MatchImages`.
unfoldable pub match_image_errors :
    UrlLib → FieldPath → List Text → List FieldError → List FieldError
match_image_errors lib path [] all_errs = all_errs
match_image_errors lib path (match_image ∷ match_images) all_errs =
    match_image_errors lib path match_images
      (elim (parse_potentially_schemeless_url lib match_image) [
        | err e ↦ all_errs ++ invalid_image (child path "matchImages") match_image e ∷ []
        | _ ↦ all_errs
      ])

unfoldable pub duration_errors : FieldPath → Option Duration → List FieldError → List FieldError
duration_errors path none all_errs =
    all_errs ++ required (child path "defaultCacheDuration") "defaultCacheDuration is required" ∷ []
duration_errors path (some duration) all_errs =
    append_if (ltb_ℤ duration (pos 0))
      (invalid_duration (child path "defaultCacheDuration") duration
        "defaultCacheDuration must be greater than or equal to 0")
      all_errs

abbrev pub is_empty {ℓ} : {A : Type ℓ} → List A → Bool
is_empty [] = true
is_empty (x ∷ xs) = false

module _ (codec : Codec) (lib : UrlLib) where
  -- One round of the loop over `config.Providers`.
  unfoldable pub provider_errors :
      FieldPath → CredentialProvider → List FieldError → List FieldError
  provider_errors path provider all_errs =
      let named = name_errors path provider.name all_errs in
      let versioned = api_version_errors codec path provider.api_version named in
      let some_image =
        append_if (is_empty provider.match_images)
          (required (child path "matchImages") "at least 1 item in matchImages is required")
          versioned in
      duration_errors path provider.default_cache_duration
        (match_image_errors lib path provider.match_images some_image)

  unfoldable pub providers_errors :
      FieldPath → ℕ → List CredentialProvider → List FieldError → List FieldError
  providers_errors path idx [] all_errs = all_errs
  providers_errors path idx (provider ∷ providers) all_errs =
      providers_errors path (idx + 1) providers (provider_errors (index path idx) provider all_errs)

  -- The configuration comes by a pointer, which is dereferenced at once.
  unfoldable pub validate_credential_provider_config :
      Option CredentialProviderConfig → FieldPath → Result (List FieldError)
  validate_credential_provider_config none root_path = crash nil_dereference
  validate_credential_provider_config (some config) root_path =
      let path = child root_path "providers" in
      ok (
        providers_errors path 0 config.providers (
          append_if (is_empty config.providers)
            (required path "at least 1 item in plugins is required") []))
