-- ===== src/Webhooks/Validation/Checks.antt =====
-- When each check of the validation adds no error.
use dynamic_credential_provi.Base.{
  All, Bool, Bool-cases, List, Option, Option-cases, Text, [], codes, false, has_byte, inl, inr,
  lookup, ltb_ℤ, map, none, ok, pos, refl, some, text_eq, text_eq-false, text_eq→ne, true, ◌++◌,
  ◌∷◌, ◌≡◌, ◌≢◌,
}
use dynamic_credential_provi.Apiversions.{api_versions}
use dynamic_credential_provi.Kubernetes.{Codec}
use dynamic_credential_provi.Api.{Duration}
use dynamic_credential_provi.Urlglobber.Url.{
  parse_potentially_schemeless_url_cases, parse_potentially_schemeless_url, UrlLib, Url,
}
use dynamic_credential_provi.Urlglobber.Matcher.{dot}
use dynamic_credential_provi.Webhooks.Validation.{
  child, required, match_image_errors, api_version_errors, invalid_image, name_errors,
  not_supported, FieldError, append_if, duration_errors, FieldPath,
}

append-ne : (xs : List FieldError) (e : FieldError) → xs ++ e ∷ [] ≢ []
append-ne [] e h = cc
append-ne (x ∷ xs) e h = cc

pub append_if-nil :
    (test : Bool) (e : FieldError) (xs : List FieldError)
    → append_if test e xs ≡ []
    → (test ≡ false) × (xs ≡ [])
append_if-nil true e xs h = absurd (append-ne xs e h)
append_if-nil false e xs h = (refl, h)

pub name_errors-nil :
    (path : FieldPath) (name : Text) (xs : List FieldError)
    → name_errors path name xs ≡ []
    → (has_byte b'/' name ≡ false)
      × (has_byte b' ' name ≡ false)
      × (name ≢ codes ".")
      × (name ≢ codes "..")
      × (xs ≡ [])
unfolding name_errors
name_errors-nil path name xs h =
    let (d2, h3) = append_if-nil _ _ _ h in
    let (d1, h2) = append_if-nil _ _ _ h3 in
    let (sp, h1) = append_if-nil _ _ _ h2 in
    let (sl, h0) = append_if-nil _ _ _ h1 in (sl, sp, text_eq→ne _ _ d1, text_eq→ne _ _ d2, h0)

pub api_version_errors-nil :
    (codec : Codec) (path : FieldPath) (version : Text) (xs : List FieldError)
    → api_version_errors codec path version xs ≡ []
    → (version ≢ []) × (lookup version (api_versions codec) ≢ none) × (xs ≡ [])
unfolding api_version_errors
api_version_errors-nil codec path version xs h = elim (Bool-cases (text_eq version [])) [
  | inl e ↦
      absurd
        (append-ne xs (required (child path "apiVersion") "apiVersion is required") (rw e at h))
  | inr e ↦ elim (Option-cases (lookup version (api_versions codec))) [
    | inl n ↦ absurd (
        append-ne xs
          (not_supported (child path "apiVersion") version
            (map (λ entry. entry.0) (api_versions codec)))
          (rw (e, n) at h))
    | inr (gv, s) ↦ (text_eq→ne version [] e, λ n. cc, rw (e, s) at h)
  ]
]

pub match_image_errors-nil :
    (lib : UrlLib) (path : FieldPath) (images : List Text) (xs : List FieldError)
    → match_image_errors lib path images xs ≡ []
    → All (λ image. (url : Url) × (parse_potentially_schemeless_url lib image ≡ ok url)) images
      × (xs ≡ [])
unfolding match_image_errors
match_image_errors-nil lib path [] xs h = (tt, h)
match_image_errors-nil lib path (image ∷ images) xs h =
    let (rest, e) = match_image_errors-nil lib path images _ h in
    elim (parse_potentially_schemeless_url_cases lib image) [
      | inl (x, p) ↦
          absurd (append-ne xs (invalid_image (child path "matchImages") image x) (rw p at e))
      | inr (url, p) ↦ (((url, p), rest), rw p at e)
    ]

pub duration_errors-nil :
    (path : FieldPath) (duration : Option Duration) (xs : List FieldError)
    → duration_errors path duration xs ≡ []
    → ((d : Duration) × (duration ≡ some d) × (ltb_ℤ d (pos 0) ≡ false)) × (xs ≡ [])
unfolding duration_errors
duration_errors-nil path none xs h = absurd (append-ne xs _ h)
duration_errors-nil path (some d) xs h = let (a, b) = append_if-nil _ _ _ h in ((d, refl, a), b)

pub name_errors-keep :
    (path : FieldPath) (name : Text) (xs : List FieldError)
    → has_byte b'/' name ≡ false
    → has_byte b' ' name ≡ false
    → name ≢ codes "."
    → name ≢ codes ".."
    → name_errors path name xs ≡ xs
unfolding name_errors
name_errors-keep path name xs slash space dot dots =
    rw (slash, space, text_eq-false name (codes ".") dot, text_eq-false name (codes "..") dots)

pub api_version_errors-keep :
    (codec : Codec) (path : FieldPath) (version : Text) (xs : List FieldError)
    → version ≢ []
    → lookup version (api_versions codec) ≢ none
    → api_version_errors codec path version xs ≡ xs
unfolding api_version_errors
api_version_errors-keep codec path version xs n known =
    elim (Option-cases (lookup version (api_versions codec))) [
      | inl e ↦ absurd (known e)
      | inr (gv, e) ↦ rw (text_eq-false version [] n, e)
    ]

pub duration_errors-keep :
    (path : FieldPath) (duration : Option Duration) (xs : List FieldError)
    → (d : Duration) × (duration ≡ some d) × (ltb_ℤ d (pos 0) ≡ false)
    → duration_errors path duration xs ≡ xs
unfolding duration_errors
duration_errors-keep path duration xs (d, e, h) = rw (e, duration_errors, h)
