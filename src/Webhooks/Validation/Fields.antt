-- ===== src/Webhooks/Validation/Fields.antt =====
-- Where the errors of the validation point.
use dynamic_credential_provi.Base.{
  All, All-of_In, Bool, Bool-cases, In, In-append, List, Option, Option-cases, String, Text, [],
  arith, codes, false, has_byte, inl, inr, length, lookup, ltb_ℤ, none, ok, ok-injective, pos, refl,
  some, subst, sym, text_eq, true, ℕ, ◌++◌, ◌+◌, ◌<◌, ◌∷◌, ◌≡◌, ◌≤◌, ◌⊎◌,
}
use dynamic_credential_provi.Webhooks.Validation.{
  required, invalid, child, index, duration_errors, provider_errors, providers_errors, FieldPath,
  invalid_image, not_supported, match_image_errors, invalid_duration, name_errors, append_if,
  FieldError, validate_credential_provider_config, api_version_errors, is_empty,
}
use dynamic_credential_provi.Apiversions.{api_versions}
use dynamic_credential_provi.Kubernetes.{Codec}
use dynamic_credential_provi.Api.{CredentialProvider, CredentialProviderConfig, Duration}
use dynamic_credential_provi.Urlglobber.Url.{parse_potentially_schemeless_url_cases, UrlLib}

abbrev pub error_path : FieldError → FieldPath
error_path (required path _) = path
error_path (invalid path _ _) = path
error_path (invalid_duration path _ _) = path
error_path (invalid_image path _ _) = path
error_path (not_supported path _ _) = path

-- The error is about a field of one of the first `n` providers.
abbrev pub InRange : FieldPath → ℕ → FieldError → Type 0
InRange path n e = (i : ℕ) × (name : String) × (error_path e ≡ child (index path i) name) × (i < n)

-- Every error of the list has the property.
record Every (P : FieldError → Type 0) (xs : List FieldError) : Type 0 where
  holds : (e : FieldError) → In e xs → P e

Every-append :
    {P : FieldError → Type 0} (e : FieldError) {xs : List FieldError}
    → P e
    → Every P xs
    → Every P (xs ++ e ∷ [])
Every-append {P} e {xs} p a = record {
  holds = λ x i. elim (In-append x xs (e ∷ []) i) [
    | inl j ↦ a.holds x j
    | inr (inl q) ↦ subst P (sym q) p
    | inr (inr j) ↦ absurd j
  ];
}

Every-append_if :
    {P : FieldError → Type 0} (test : Bool) (e : FieldError) {xs : List FieldError}
    → P e
    → Every P xs
    → Every P (append_if test e xs)
Every-append_if true e p a = Every-append e p a
Every-append_if false e p a = a

-- A predicate that holds of every error about a field at this path.
abbrev HoldsAt : FieldPath → (FieldError → Type 0) → Type 0
HoldsAt path P = (e : FieldError) (name : String) → error_path e ≡ child path name → P e

module _ (P : FieldError → Type 0) (path : FieldPath) (at : HoldsAt path P) where
  Every-name_errors :
      (name : Text) (xs : List FieldError) → Every P xs → Every P (name_errors path name xs)
  unfolding name_errors
  Every-name_errors name xs a =
      let wrong = λ (text : String). invalid (child path "name") name text in
      let named = λ (text : String). at (wrong text) "name" refl in
      Every-append_if (text_eq name (codes "..")) (wrong "provider name cannot be '..'")
        (named "provider name cannot be '..'")
        (Every-append_if (text_eq name (codes ".")) (wrong "provider name cannot be '.'")
          (named "provider name cannot be '.'")
          (Every-append_if (has_byte b' ' name) (wrong "provider name cannot contain spaces")
            (named "provider name cannot contain spaces")
            (Every-append_if (has_byte b'/' name) (wrong "provider name cannot contain '/'")
              (named "provider name cannot contain '/'") a)))

  Every-api_version_errors :
      (codec : Codec) (version : Text) (xs : List FieldError)
      → Every P xs
      → Every P (api_version_errors codec path version xs)
  unfolding api_version_errors
  Every-api_version_errors codec version xs a = elim (Bool-cases (text_eq version [])) [
    | inl e ↦ rw e (
        Every-append (required (child path "apiVersion") "apiVersion is required")
          (at _ "apiVersion" refl) a)
    | inr e ↦ elim (Option-cases (lookup version (api_versions codec))) [
      | inl n ↦ rw (e, n) (Every-append _ (at _ "apiVersion" refl) a)
      | inr (gv, s) ↦ rw (e, s) a
    ]
  ]

  Every-match_image_errors :
      (lib : UrlLib) (images : List Text) (xs : List FieldError)
      → Every P xs
      → Every P (match_image_errors lib path images xs)
  unfolding match_image_errors
  Every-match_image_errors lib [] xs a = a
  Every-match_image_errors lib (image ∷ images) xs a =
      elim (parse_potentially_schemeless_url_cases lib image) [
        | inl (e, p) ↦ rw p (
            Every-match_image_errors lib images _ (
              Every-append (invalid_image (child path "matchImages") image e)
                (at _ "matchImages" refl) a))
        | inr (url, p) ↦ rw p (Every-match_image_errors lib images xs a)
      ]

  Every-duration_errors :
      (duration : Option Duration) (xs : List FieldError)
      → Every P xs
      → Every P (duration_errors path duration xs)
  unfolding duration_errors
  Every-duration_errors none xs a =
      Every-append (required (child path "defaultCacheDuration") "defaultCacheDuration is required")
        (at _ "defaultCacheDuration" refl) a
  Every-duration_errors (some d) xs a =
      Every-append_if (ltb_ℤ d (pos 0))
        (invalid_duration (child path "defaultCacheDuration") d
          "defaultCacheDuration must be greater than or equal to 0")
        (at _ "defaultCacheDuration" refl) a

  Every-provider_errors :
      (codec : Codec) (lib : UrlLib) (p : CredentialProvider) (xs : List FieldError)
      → Every P xs
      → Every P (provider_errors codec lib path p xs)
  unfolding provider_errors
  Every-provider_errors codec lib p xs a = Every-duration_errors p.default_cache_duration _ (
      Every-match_image_errors lib p.match_images _ (
        Every-append_if (is_empty p.match_images)
          (required (child path "matchImages") "at least 1 item in matchImages is required")
          (at _ "matchImages" refl)
          (Every-api_version_errors codec p.api_version _ (Every-name_errors p.name xs a))))

module _ (codec : Codec) (lib : UrlLib) (path : FieldPath) (n : ℕ) where
  Every-providers_errors :
      (P : FieldError → Type 0)
      → ((e : FieldError) → InRange path n e → P e)
      → (idx : ℕ) (ps : List CredentialProvider) (xs : List FieldError) → idx + length ps ≤ n
      → Every P xs
      → Every P (providers_errors codec lib path idx ps xs)
  unfolding providers_errors
  Every-providers_errors P keep idx [] xs h a = a
  Every-providers_errors P keep idx (p ∷ ps) xs h a =
      Every-providers_errors P keep (idx + 1) ps _ (omega arith) (
        Every-provider_errors P (index path idx) (λ e name q. keep e (idx, name, q, omega arith))
          codec lib p xs a)

Every-none :
    (path : FieldPath) (ps : List CredentialProvider) (P : FieldError → Type 0)
    → ((e : FieldError) → (error_path e ≡ path) × (ps ≡ []) → P e)
    → Every P (append_if (is_empty ps) (required path "at least 1 item in plugins is required") [])
Every-none path [] P keep =
    Every-append (required path "at least 1 item in plugins is required") {xs = []}
      (keep (required path "at least 1 item in plugins is required") (refl, refl))
      (record { holds = λ e i. absurd i })
Every-none path (p ∷ ps) P keep = record { holds = λ e i. absurd i }

-- Every error of the validation points to a field of a provider by an index below the number of
-- providers, but for the one that asks for a provider, which comes only where there is none.
pub validate_credential_provider_config-InRange :
    (codec : Codec) (lib : UrlLib) (config : CredentialProviderConfig) (root_path : FieldPath)
    (errors : List FieldError)
    → validate_credential_provider_config codec lib (some config) root_path ≡ ok errors
    → All
        (λ e.
          ((error_path e ≡ child root_path "providers") × (config.providers ≡ []))
          ⊎ InRange (child root_path "providers") (length config.providers) e)
        errors
unfolding validate_credential_provider_config
validate_credential_provider_config-InRange codec lib config root_path errors h =
    let path = child root_path "providers" in
    let P = λ (e : FieldError).
      ((error_path e ≡ path) × (config.providers ≡ []))
      ⊎ InRange path (length config.providers) e in
    let every =
      Every-providers_errors codec lib path (length config.providers) P (λ e r. inr r) 0
        config.providers _ (omega arith) (Every-none path config.providers P (λ e q. inl q)) in
    All-of_In errors (λ e i. every.holds e (subst (λ xs. In e xs) (sym (ok-injective h)) i))
