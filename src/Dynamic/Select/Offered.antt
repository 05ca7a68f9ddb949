-- ===== src/Dynamic/Select/Offered.antt =====
-- Where the candidates come from: the responses of the providers.
use dynamic_credential_provi.Base.{
  Bool-cases, Dict, In, In-append, List, Option, Result, Text, [], arith, bind-ok, crash, err, inl,
  inr, none, ok, ok-injective, refl, some, true, wrapping, ◌>>=◌, ◌∷◌, ◌≡◌,
}
use mathlib.Core.Option
use dynamic_credential_provi.Api.{Duration, CredentialProviderResponse, AuthConfig}
use dynamic_credential_provi.Dynamic.Provider.{Convert, Provider}
use dynamic_credential_provi.Dynamic.Select.Pick.{Candidate}
use dynamic_credential_provi.Dynamic.Select.Candidates.{
  answer_candidates, candidates_of, all_candidates,
}
use dynamic_credential_provi.Urlglobber.Url.{UrlLib}
use dynamic_credential_provi.Urlglobber.Matcher.Spec.{is_match}

-- A response of the provider has this entry, its key covers the image, and this is its duration.
pub record Offers (lib : UrlLib) (img : Text) (prov : Provider) (c : Candidate) : Type 0 where
  pub response : CredentialProviderResponse
  pub answered : prov.provide img ≡ ok (some response)
  pub listed : In (c.key, c.auth_config) response.auth
  pub covers : is_match lib c.key img ≡ true
  pub lasts : c.cache_duration ≡ Option.get_or response.cache_duration prov.default_cache_duration

module _ (lib : UrlLib) (convert : Convert) (img : Text) where
  candidates_of-In :
      (duration : Duration) (auth : Dict AuthConfig) (c : Candidate)
      → In c (candidates_of lib img duration auth)
      → In (c.key, c.auth_config) auth
        × (is_match lib c.key img ≡ true)
        × (c.cache_duration ≡ duration)
  unfolding candidates_of
  candidates_of-In duration [] c i = absurd i
  candidates_of-In duration ((k, v) ∷ auth) c i = elim (Bool-cases (is_match lib k img)) [
    | inl t ↦ elim (rw t at i) [
      | inl e ↦ (inl (λ j. ((e j).key, (e j).auth_config)), rw e t, λ j. (e j).cache_duration)
      | inr j ↦ let (a, b, d) = candidates_of-In duration auth c j in (inr a, b, d)
    ]
    | inr f ↦ let (a, b, d) = candidates_of-In duration auth c (rw f at i) in (inr a, b, d)
  ]

  -- The branch behind `prov.Provide`.
  abbrev answered_candidates :
      Provider → Option CredentialProviderResponse → Result (List Candidate)
  answered_candidates prov none = ok []
  answered_candidates prov (some resp) = do
    v1_resp ← wrapping "failed to convert response from type %T to type %T: %w" [] (convert resp)
    ok (
        candidates_of lib img (Option.get_or resp.cache_duration prov.default_cache_duration)
          resp.auth)

  answered_candidates-Offers :
      (prov : Provider) (a : Option CredentialProviderResponse) (cs : List Candidate)
      (c : Candidate)
      → prov.provide img ≡ ok a
      → answered_candidates prov a ≡ ok cs
      → In c cs
      → Offers lib img prov c
  answered_candidates-Offers prov none cs c p q i =
      let nothing : [] ≡ cs = cc in absurd (rw (← nothing) at i)
  answered_candidates-Offers prov (some resp) cs c p q i =
      let (v1_resp, _, t) = bind-ok (wrapping _ _ (convert resp)) _ q in
      let (listed, covers, lasts) = candidates_of-In _ resp.auth c (rw (← ok-injective t) at i) in
      record { response = resp; answered = p; listed = listed; covers = covers; lasts = lasts }

  answer_candidates-answered :
      (prov : Provider) (cs : List Candidate)
      → answer_candidates lib convert img prov ≡ ok cs
      → (a : Option CredentialProviderResponse) × (prov.provide img ≡ ok a)
        × (answered_candidates prov a ≡ ok cs)
  unfolding answer_candidates
  answer_candidates-answered prov cs e = go (prov.provide img) refl
    where
      go :
          (r : Result (Option CredentialProviderResponse))
          → prov.provide img ≡ r
          → (a : Option CredentialProviderResponse) × (prov.provide img ≡ ok a)
            × (answered_candidates prov a ≡ ok cs)
      go (ok none) p = (none, p, ground arith)
      go (ok (some resp)) p = (some resp, p, ground arith)
      go (err x) p = absurd (ground arith)
      go (crash x) p = absurd (ground arith)

  answer_candidates-Offers :
      (prov : Provider) (cs : List Candidate) (c : Candidate)
      → answer_candidates lib convert img prov ≡ ok cs
      → In c cs
      → Offers lib img prov c
  answer_candidates-Offers prov cs c e i =
      let (a, p, q) = answer_candidates-answered prov cs e in
      answered_candidates-Offers prov a cs c p q i

  -- Every candidate is offered by one of the providers.
  pub all_candidates-Offers :
      (providers : List Provider) (cs : List Candidate) (c : Candidate)
      → all_candidates lib convert img providers ≡ ok cs
      → In c cs
      → (prov : Provider) × In prov providers × Offers lib img prov c
  unfolding all_candidates
  all_candidates-Offers [] cs c e i = let nothing : [] ≡ cs = cc in absurd (rw (← nothing) at i)
  all_candidates-Offers (prov ∷ providers) cs c e i =
      let (ds, p, q) = bind-ok (answer_candidates lib convert img prov) _ e in
      let (es, p', q') = bind-ok (all_candidates lib convert img providers) _ q in
      elim (In-append c ds es (rw (← ok-injective q') at i)) [
        | inl j ↦ (prov, inl refl, answer_candidates-Offers prov ds c p j)
        | inr j ↦ let (other, k, o) = all_candidates-Offers providers es c p' j in (other, inr k, o)
      ]
