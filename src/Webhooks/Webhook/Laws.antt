-- ===== src/Webhooks/Webhook/Laws.antt =====
-- What the webhook admits.
use dynamic_credential_provi.Base.{
  All, List, Result, Text, [], ap, arith, crash, err, ok, ok-injective, refl, some, ◌>>=◌, ◌↔◌, ◌∷◌,
  ◌≡◌, ◌≢◌,
}
use dynamic_credential_provi.Webhooks.Webhook.{admitted, admission}
use dynamic_credential_provi.Webhooks.Validation.{root, FieldError}
use dynamic_credential_provi.Kubernetes.{Codec, config_object}
use dynamic_credential_provi.Api.{CredentialProviderConfig, DynamicCredentialProviderConfig}
use dynamic_credential_provi.Urlglobber.Url.{UrlLib}
use dynamic_credential_provi.Webhooks.Webhook.{validate, validate_create}
use dynamic_credential_provi.Webhooks.Validation.Laws.{
  IsValidProvider, validate_credential_provider_config_iff,
}

admission-admitted :
    (name : Text) (errors : List FieldError) → admission name errors ≡ admitted → errors ≡ []
admission-admitted name [] h = refl
admission-admitted name (e ∷ errors) h = cc

admission-result :
    (name : Text) (errors : Result (List FieldError))
    → ((errors >>= λ all_errs. ok (admission name all_errs)) ≡ ok admitted) ↔ (errors ≡ ok [])
admission-result name (ok errors) = (
  λ h. ap ok (admission-admitted name errors (ok-injective h)),
  λ h. ap (λ es. ok (admission name es)) (ok-injective h),
)
admission-result name (err e) = (λ h. ground arith, λ h. ground arith)
admission-result name (crash e) = (λ h. ground arith, λ h. ground arith)

module _ (codec : Codec) (lib : UrlLib) (c : DynamicCredentialProviderConfig) where
  -- The webhook admits the creation of a configuration that has the field for providers exactly if
  -- there is at least one provider and each of them is valid.
  pub validate_create_iff :
      (providers : CredentialProviderConfig)
      → c.credential_providers ≡ some providers
      → (validate_create codec lib (config_object c) ≡ ok admitted)
        ↔ ((providers.providers ≢ []) × All (IsValidProvider codec lib) providers.providers)
  unfolding validate_create validate
  validate_create_iff providers e =
      let valid =
        validate_credential_provider_config_iff codec lib providers (root "credentialProviders") in
      rw e (
        λ h. valid.0 ((admission-result c.name _).0 h),
        λ h. (admission-result c.name _).1 (valid.1 h),
      )
