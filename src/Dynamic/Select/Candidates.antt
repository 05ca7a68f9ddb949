-- ===== src/Dynamic/Select/Candidates.antt =====
-- The loops of getCredentialsForImage are the fold over the candidates.
use dynamic_credential_provi.Base.{
  Dict, List, Option, Result, Text, [], ap, arith, crash, err, if◌then◌else◌, none, ok, refl, some,
  sym, wrapping, ◌++◌, ◌>>=◌, ◌∙◌, ◌∷◌, ◌≡◌,
}
use mathlib.Core.Option
use dynamic_credential_provi.Api.{CredentialProviderResponse, Duration, AuthConfig}
use dynamic_credential_provi.Dynamic.Provider.{Provider, Convert, IsFaithful}
use dynamic_credential_provi.Dynamic.Select.{
  Best, response_duration, visit, visit_auth, visit_providers, start, get_credentials_for_image,
  visit_provider, finish,
}
use dynamic_credential_provi.Dynamic.Select.Pick.{Candidate, pick_all, pick_all-append, pick}
use dynamic_credential_provi.Urlglobber.Url.{UrlLib}
use dynamic_credential_provi.Urlglobber.Matcher.Spec.{is_match, matched_lem}

module _ (lib : UrlLib) (img : Text) where
  -- The entries of a response whose key covers the image.
  unfoldable pub candidates_of : Duration → Dict AuthConfig → List Candidate
  candidates_of duration [] = []
  candidates_of duration ((k, v) ∷ auth) =
      let rest = candidates_of duration auth in
      if is_match lib k img
      then record { key = k; auth_config = v; cache_duration = duration } ∷ rest
      else rest

  candidates_of_nil : (duration : Duration) → candidates_of duration [] ≡ []
  unfolding candidates_of
  candidates_of_nil duration = refl

  candidates_of_cons :
      (duration : Duration) (k : Text) (v : AuthConfig) (auth : Dict AuthConfig)
      → candidates_of duration ((k, v) ∷ auth)
        ≡ candidates_of duration ((k, v) ∷ []) ++ candidates_of duration auth
  unfolding candidates_of
  candidates_of_cons duration k v auth = ground arith

pick_all_nil : (best : Best) (cs : List Candidate) → cs ≡ [] → pick_all best cs ≡ best
unfolding pick_all
pick_all_nil best cs e = ground arith

module _ (lib : UrlLib) (convert : Convert) (img : Text) where
  unfoldable pub answer_candidates : Provider → Result (List Candidate)
  answer_candidates prov = do
    answer ← wrapping "failed to call plugin: %w" [] (prov.provide img)
    elim answer [
      | none ↦ ok []
      | some resp ↦ do
        v1_resp ←
            wrapping "failed to convert response from type %T to type %T: %w" [] (convert resp)
        ok (
            candidates_of lib img (Option.get_or resp.cache_duration prov.default_cache_duration)
              resp.auth)
    ]

  -- All candidates, in the order in which the loops meet them.
  unfoldable pub all_candidates : List Provider → Result (List Candidate)
  all_candidates [] = ok []
  all_candidates (prov ∷ providers) = do
    cs ← answer_candidates prov
    ds ← all_candidates providers
    ok (cs ++ ds)

  visit_lem :
      (prov : Provider) (resp v1_resp : CredentialProviderResponse) (k : Text) (v : AuthConfig)
      (best : Best)
      → v1_resp.cache_duration ≡ resp.cache_duration
      → visit lib convert img prov resp v1_resp k v best
        ≡ ok (
            pick_all best (
              candidates_of lib img
                (Option.get_or resp.cache_duration prov.default_cache_duration)
                ((k, v) ∷ [])))
  unfolding visit pick_all pick candidates_of response_duration
  visit_lem prov resp v1_resp k v best e = ground (arith, matched_lem lib k img)

  visit_auth_lem :
      (prov : Provider) (resp v1_resp : CredentialProviderResponse) (auth : Dict AuthConfig)
      (best : Best)
      → v1_resp.cache_duration ≡ resp.cache_duration
      → visit_auth lib convert img prov resp v1_resp auth best
        ≡ ok (
            pick_all best (
              candidates_of lib img
                (Option.get_or resp.cache_duration prov.default_cache_duration)
                auth))
  unfolding visit_auth
  visit_auth_lem prov resp v1_resp [] best e =
      rw (pick_all_nil best (candidates_of lib img _ []) (candidates_of_nil lib img _))
  visit_auth_lem prov resp v1_resp ((k, v) ∷ auth) best e =
      let duration = Option.get_or resp.cache_duration prov.default_cache_duration in
      rw (visit_lem prov resp v1_resp k v best e) (
        visit_auth_lem prov resp v1_resp auth _ e
        ∙ ap ok (
            sym (
              pick_all-append best (candidates_of lib img duration ((k, v) ∷ []))
                (candidates_of lib img duration auth))
            ∙ ap (pick_all best) (sym (candidates_of_cons lib img duration k v auth))))

  visit_provider_lem :
      IsFaithful convert
      → (prov : Provider) (best : Best)
      → visit_provider lib convert img prov best
        ≡ (do cs ← answer_candidates prov; ok (pick_all best cs))
  unfolding visit_provider answer_candidates
  visit_provider_lem faithful prov best = go (prov.provide img) refl
    where
      converted :
          (resp : CredentialProviderResponse) (r : Result CredentialProviderResponse)
          → prov.provide img ≡ ok (some resp)
          → convert resp ≡ r
          → visit_provider lib convert img prov best
            ≡ (do cs ← answer_candidates prov; ok (pick_all best cs))
      converted resp (ok v1_resp) p q =
          let (same_auth, same_duration) = faithful.keeps_fields resp v1_resp q in
          ground (arith, visit_auth_lem prov resp v1_resp v1_resp.auth best same_duration)
      converted resp (err e) p q = ground arith
      converted resp (crash c) p q = ground arith

      go :
          (a : Result (Option CredentialProviderResponse))
          → prov.provide img ≡ a
          → visit_provider lib convert img prov best
            ≡ (do cs ← answer_candidates prov; ok (pick_all best cs))
      go (ok none) p = ground (arith, pick_all_nil best [] refl)
      go (ok (some resp)) p = converted resp (convert resp) p refl
      go (err e) p = ground arith
      go (crash c) p = ground arith

  visit_providers_lem :
      IsFaithful convert
      → (providers : List Provider) (best : Best)
      → visit_providers lib convert img providers best
        ≡ (do cs ← all_candidates providers; ok (pick_all best cs))
  unfolding visit_providers all_candidates
  visit_providers_lem faithful [] best = ap ok (sym (pick_all_nil best [] refl))
  visit_providers_lem faithful (prov ∷ providers) best =
      go (visit_providers_lem faithful providers) (answer_candidates prov)
        (all_candidates providers) refl refl
    where
      go :
          ((b : Best)
            → visit_providers lib convert img providers b
              ≡ (do ds ← all_candidates providers; ok (pick_all b ds)))
          → (a b : Result (List Candidate)) → answer_candidates prov ≡ a
          → all_candidates providers ≡ b
          → visit_providers lib convert img (prov ∷ providers) best
            ≡ (do cs ← all_candidates (prov ∷ providers); ok (pick_all best cs))
      go ih (ok cs) (ok ds) p q = ground (
        arith,
        visit_provider_lem faithful prov best,
        ih (pick_all best cs),
        pick_all-append best cs ds,
      )
      go ih (ok cs) b p q =
          ground (arith, visit_provider_lem faithful prov best, ih (pick_all best cs))
      go ih a b p q = ground (arith, visit_provider_lem faithful prov best)

  -- With faithful conversions, getCredentialsForImage is the fold of the choice over all keys of
  -- all providers that cover the image, or the first error of a plugin or of a conversion.
  pub get_credentials_for_image-all_candidates :
      IsFaithful convert
      → (providers : List Provider)
      → get_credentials_for_image lib convert img providers
        ≡ (do cs ← all_candidates providers; ok (finish (pick_all start cs)))
  unfolding get_credentials_for_image
  get_credentials_for_image-all_candidates faithful providers = go (all_candidates providers) refl
    where
      go :
          (a : Result (List Candidate))
          → all_candidates providers ≡ a
          → get_credentials_for_image lib convert img providers
            ≡ (do cs ← all_candidates providers; ok (finish (pick_all start cs)))
      go (ok cs) p = ground (arith, visit_providers_lem faithful providers start)
      go (err e) p = ground (arith, visit_providers_lem faithful providers start)
      go (crash c) p = ground (arith, visit_providers_lem faithful providers start)
