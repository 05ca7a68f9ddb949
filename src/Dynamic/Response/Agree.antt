-- ===== src/Dynamic/Response/Agree.antt =====
-- The credentials depend on the providers only by their answers for the images that are asked for.
use dynamic_credential_provi.Base.{
  Bool-cases, Dict, List, Option, Result, Result-cases, Text, [], ap, ap₂, arith, false, fun_ext,
  inl, inr, none, ok, refl, some, wrapping, ◌++◌, ◌>>=◌, ◌∷◌, ◌≡◌, ◌≢◌, ◌⊎◌,
}
use dynamic_credential_provi.Api.{
  CredentialProviderResponse, AuthConfig, MirrorConfig, Duration, image_cache,
  mirror_credentials_only,
}
use dynamic_credential_provi.Dynamic.Select.{
  visit_provider, visit_providers, start, finish, visit, visit_auth, get_credentials_for_image,
  Best, response_duration, Found,
}
use dynamic_credential_provi.Dynamic.Provider.{Convert, Provider}
use dynamic_credential_provi.Urlglobber.Url.{UrlLib}
use dynamic_credential_provi.Dynamic.Response.{
  get_credentials, origin_credentials, mirror_entry, get_mirror_credentials_for_image, mirror_image,
  is_registry_credentials_only,
}
use dynamic_credential_provi.Urlglobber.Globber.{ReferenceLib}
use dynamic_credential_provi.Dynamic.Response.Strategy.{is_registry_credentials_only_iff}

-- The two providers answer alike for this image.
pub record Agree (img : Text) (p q : Provider) : Type 0 where
  pub same_answer : p.provide img ≡ q.provide img
  pub same_default : p.default_cache_duration ≡ q.default_cache_duration

module _ (lib : UrlLib) (convert : Convert) where
  visit-Agree :
      (img : Text) (p q : Provider) (resp v1_resp : CredentialProviderResponse) (k : Text)
      (v : AuthConfig) (best : Best)
      → Agree img p q
      → visit lib convert img p resp v1_resp k v best
        ≡ visit lib convert img q resp v1_resp k v best
  unfolding visit response_duration
  visit-Agree img p q resp v1_resp k v best a = ground (arith, a.same_default)

  visit_auth-Agree :
      (img : Text) (p q : Provider) (resp v1_resp : CredentialProviderResponse)
      (auth : Dict AuthConfig) (best : Best)
      → Agree img p q
      → visit_auth lib convert img p resp v1_resp auth best
        ≡ visit_auth lib convert img q resp v1_resp auth best
  unfolding visit_auth
  visit_auth-Agree img p q resp v1_resp [] best a = refl
  visit_auth-Agree img p q resp v1_resp ((k, v) ∷ auth) best a =
      ap₂ (λ (x : Result Best) (f : Best → Result Best). x >>= f)
        (visit-Agree img p q resp v1_resp k v best a)
        (fun_ext (λ best'. visit_auth-Agree img p q resp v1_resp auth best' a))

  visit_provider-Agree :
      (img : Text) (p q : Provider) (best : Best)
      → Agree img p q
      → visit_provider lib convert img p best ≡ visit_provider lib convert img q best
  unfolding visit_provider
  visit_provider-Agree img p q best a =
      ap₂
        (λ (answer : Result (Option CredentialProviderResponse))
            (f : Option CredentialProviderResponse → Result Best).
          wrapping "failed to call plugin: %w" [] answer >>= f)
        a.same_answer (fun_ext (λ (answer : Option CredentialProviderResponse). go answer))
    where
      go :
          (answer : Option CredentialProviderResponse)
          → ◌≡◌ {A = Result Best}
              (elim answer as (λ x. Result Best) [
                | none ↦ ok best
                | some resp ↦
                    wrapping "failed to convert response from type %T to type %T: %w" []
                      (convert resp)
                    >>= λ v1_resp. visit_auth lib convert img p resp v1_resp v1_resp.auth best
              ])
              (elim answer as (λ x. Result Best) [
                | none ↦ ok best
                | some resp ↦
                    wrapping "failed to convert response from type %T to type %T: %w" []
                      (convert resp)
                    >>= λ v1_resp. visit_auth lib convert img q resp v1_resp v1_resp.auth best
              ])
      go none = refl
      go (some resp) =
          ap
            (λ (f : CredentialProviderResponse → Result Best).
              wrapping "failed to convert response from type %T to type %T: %w" [] (convert resp)
              >>= f)
            (fun_ext (λ v1_resp. visit_auth-Agree img p q resp v1_resp v1_resp.auth best a))

  visit_providers-Agree :
      (img : Text) (before after : List Provider) (p q : Provider) (best : Best)
      → Agree img p q
      → visit_providers lib convert img (before ++ p ∷ after) best
        ≡ visit_providers lib convert img (before ++ q ∷ after) best
  unfolding visit_providers
  visit_providers-Agree img [] after p q best a =
      ap (λ (x : Result Best). x >>= visit_providers lib convert img after)
        (visit_provider-Agree img p q best a)
  visit_providers-Agree img (other ∷ before) after p q best a =
      ap (λ (f : Best → Result Best). visit_provider lib convert img other best >>= f)
        (fun_ext (λ best'. visit_providers-Agree img before after p q best' a))

  pub get_credentials_for_image-Agree :
      (img : Text) (before after : List Provider) (p q : Provider)
      → Agree img p q
      → get_credentials_for_image lib convert img (before ++ p ∷ after)
        ≡ get_credentials_for_image lib convert img (before ++ q ∷ after)
  unfolding get_credentials_for_image
  get_credentials_for_image-Agree img before after p q a =
      ap (λ (x : Result Best). x >>= λ best. ok (finish best))
        (visit_providers-Agree img before after p q start a)

-- The images that GetCredentials asks its providers for: the image itself unless the strategy is
-- MirrorCredentialsOnly, and the mirrored image if it can be made.
abbrev pub Asked : UrlLib → Option MirrorConfig → Text → Text → Type 0
Asked lib none img asked = asked ≡ img
Asked lib (some cfg) img asked =
    ((cfg.credentials_strategy ≢ mirror_credentials_only) × (asked ≡ img))
    ⊎ (mirror_image lib cfg img ≡ ok asked)

Asked-img :
    (lib : UrlLib) (mirror : Option MirrorConfig) (img : Text)
    → is_registry_credentials_only mirror ≡ false
    → Asked lib mirror img img
Asked-img lib none img asks = refl
Asked-img lib (some cfg) img asks =
    inl (λ o. absurd (ground (arith, (is_registry_credentials_only_iff cfg).1 o)), refl)

module _ (lib : UrlLib) (convert : Convert) (before after : List Provider) (p q : Provider) where
  get_mirror_credentials_for_image-Agree :
      (mirror : Option MirrorConfig) (img : Text)
      → ((asked : Text) → Asked lib mirror img asked → Agree asked p q)
      → get_mirror_credentials_for_image lib convert (before ++ p ∷ after) mirror img
        ≡ get_mirror_credentials_for_image lib convert (before ++ q ∷ after) mirror img
  unfolding get_mirror_credentials_for_image
  get_mirror_credentials_for_image-Agree none img a = refl
  get_mirror_credentials_for_image-Agree (some cfg) img a =
      elim (Result-cases (mirror_image lib cfg img)) [
        | inl (c, e) ↦ rw e
        | inr (inl (x, e)) ↦ rw e
        | inr (inr (mirrored, e)) ↦ rw e (
            get_credentials_for_image-Agree lib convert mirrored before after p q
              (a mirrored (inr e)))
      ]

  origin_credentials-Agree :
      (mirror : Option MirrorConfig) (img : Text) (mirror_found : Found)
      → ((asked : Text) → Asked lib mirror img asked → Agree asked p q)
      → origin_credentials lib convert (before ++ p ∷ after) mirror img mirror_found
        ≡ origin_credentials lib convert (before ++ q ∷ after) mirror img mirror_found
  unfolding origin_credentials
  origin_credentials-Agree mirror img mirror_found a =
      elim (Bool-cases (is_registry_credentials_only mirror)) [
        | inl only ↦ rw only
        | inr asks ↦ rw (
            get_credentials_for_image-Agree lib convert img before after p q
              (a img (Asked-img lib mirror img asks)))
      ]

  -- A provider can be replaced by one that answers alike, for each of the images that it is asked
  -- for, without a change to the response or the error.
  pub get_credentials-Agree :
      (ref : ReferenceLib) (mirror : Option MirrorConfig) (img : Text)
      → ((asked : Text) → Asked lib mirror img asked → Agree asked p q)
      → get_credentials lib convert (before ++ p ∷ after) ref mirror img
        ≡ get_credentials lib convert (before ++ q ∷ after) ref mirror img
  unfolding get_credentials
  get_credentials-Agree ref mirror img a =
      ap₂
        (λ (m : Result Found) (origin : Found → Result (Dict AuthConfig × Duration)). (do
          mirror_found ← wrapping "failed to get mirror credentials: %w" [] m
          (auth_map, cache_duration) ← origin mirror_found
          auth ← mirror_entry ref mirror img mirror_found auth_map
          ok (record {
            cache_key_type = image_cache;
            cache_duration = some cache_duration;
            auth = auth;
          })))
        (get_mirror_credentials_for_image-Agree mirror img a)
        (fun_ext (λ (mirror_found : Found). origin_credentials-Agree mirror img mirror_found a))
