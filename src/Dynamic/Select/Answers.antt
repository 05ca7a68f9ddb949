-- ===== src/Dynamic/Select/Answers.antt =====
-- When getCredentialsForImage returns without an error.
use dynamic_credential_provi.Base.{
  All, List, Option, Result, Result-cases, Text, [], arith, bind-ok, crash, err, inl, inr, none, ok,
  refl, some, sym, ◌++◌, ◌↔◌, ◌∙◌, ◌∷◌, ◌≡◌, ◌⊎◌,
}
use mathlib.Core.Option
use dynamic_credential_provi.Api.{CredentialProviderResponse}
use dynamic_credential_provi.Dynamic.Select.{Found, start, finish, get_credentials_for_image}
use dynamic_credential_provi.Dynamic.Provider.{Provider, Convert, IsFaithful}
use dynamic_credential_provi.Dynamic.Select.Pick.{Candidate, pick_all}
use dynamic_credential_provi.Dynamic.Select.Candidates.{
  all_candidates, answer_candidates, candidates_of, get_credentials_for_image-all_candidates,
}
use dynamic_credential_provi.Urlglobber.Url.{UrlLib}

-- The provider has nothing for the image, or a response that can be converted.
abbrev pub HasAnswer : Convert → Text → Provider → Type 0
HasAnswer convert img prov =
    (prov.provide img ≡ ok none)
    ⊎ ((resp : CredentialProviderResponse) × (v1_resp : CredentialProviderResponse) × (prov.provide
            img
          ≡ ok (some resp))
        × (convert resp ≡ ok v1_resp))

module _ (lib : UrlLib) (convert : Convert) (img : Text) where
  answer_candidates_iff :
      (prov : Provider)
      → ((cs : List Candidate) × (answer_candidates lib convert img prov ≡ ok cs))
        ↔ HasAnswer convert img prov
  unfolding answer_candidates
  answer_candidates_iff prov = (λ (cs, h). there cs h (prov.provide img) refl, back)
    where
      there :
          (cs : List Candidate)
          → answer_candidates lib convert img prov ≡ ok cs
          → (a : Result (Option CredentialProviderResponse)) → prov.provide img ≡ a
          → HasAnswer convert img prov
      there cs h (crash c) p = absurd (ground arith)
      there cs h (err e) p = absurd (ground arith)
      there cs h (ok none) p = inl p
      there cs h (ok (some resp)) p = elim (Result-cases (convert resp)) [
        | inl (c, q) ↦ absurd (ground arith)
        | inr (inl (e, q)) ↦ absurd (ground arith)
        | inr (inr (v1_resp, q)) ↦ inr (resp, v1_resp, p, q)
      ]

      back :
          HasAnswer convert img prov
          → (cs : List Candidate) × (answer_candidates lib convert img prov ≡ ok cs)
      back (inl p) = ([], ground arith)
      back (inr (resp, v1_resp, p, q)) = (
        candidates_of lib img (Option.get_or resp.cache_duration prov.default_cache_duration)
            resp.auth,
        ground arith,
      )

  all_candidates_iff :
      (providers : List Provider)
      → ((cs : List Candidate) × (all_candidates lib convert img providers ≡ ok cs))
        ↔ All (HasAnswer convert img) providers
  unfolding all_candidates
  all_candidates_iff [] = (λ h. tt, λ h. ([], refl))
  all_candidates_iff (prov ∷ providers) = (
    λ (cs, h).
        let (ds, p, h') = bind-ok (answer_candidates lib convert img prov) _ h in
        let (es, q, _) = bind-ok (all_candidates lib convert img providers) _ h' in
        ((answer_candidates_iff prov).0 (ds, p), (all_candidates_iff providers).0 (es, q)),
    λ (a, rest).
        let (ds, p) = (answer_candidates_iff prov).1 a in
        let (es, q) = (all_candidates_iff providers).1 rest in (ds ++ es, rw (p, q) refl),
  )

  -- With faithful conversions, getCredentialsForImage returns without an error or a panic exactly
  -- when each of the providers has nothing for the image, or a response that can be converted.
  pub get_credentials_for_image_iff :
      IsFaithful convert
      → (providers : List Provider)
      → ((r : Found) × (get_credentials_for_image lib convert img providers ≡ ok r))
        ↔ All (HasAnswer convert img) providers
  get_credentials_for_image_iff faithful providers = (there, back)
    where
      there :
          (r : Found) × (get_credentials_for_image lib convert img providers ≡ ok r)
          → All (HasAnswer convert img) providers
      there (r, h) =
          let (cs, p, _) = bind-ok (all_candidates lib convert img providers) _ (
            sym (get_credentials_for_image-all_candidates lib convert img faithful providers)
            ∙ h) in
          (all_candidates_iff providers).0 (cs, p)

      back :
          All (HasAnswer convert img) providers
          → (r : Found) × (get_credentials_for_image lib convert img providers ≡ ok r)
      back a =
          let (cs, p) = (all_candidates_iff providers).1 a in
          (
            finish (pick_all start cs),
            rw (get_credentials_for_image-all_candidates lib convert img faithful providers, p)
                refl,
          )
