-- ===== src/Webhooks/Webhook.antt =====
-- The handlers of webhooks/dynamiccredentialprovideconfig_webhook.go.
pub mod Laws
use dynamic_credential_provi.Base.{List, Result, Text, [], ok, ◌>>=◌, ◌∷◌}
use dynamic_credential_provi.Kubernetes.{Codec, Object, config_object}
use dynamic_credential_provi.Webhooks.Validation.{
  root, validate_credential_provider_config, FieldError,
}
use dynamic_credential_provi.Urlglobber.Url.{UrlLib}

-- The answer of a handler: no error, a `BadRequest` for an object of another type, or an `Invalid`
-- with the object's name and the errors found. There are never warnings.
pub data Admission : Type 0 where
  admitted : Admission
  bad_request : Admission
  invalid_object : Text → List FieldError → Admission

abbrev pub admission : Text → List FieldError → Admission
admission name [] = admitted
admission name (e ∷ errors) = invalid_object name (e ∷ errors)

module _ (codec : Codec) (lib : UrlLib) where
  unfoldable pub validate : Object → Result Admission
  validate (config_object c) = do
    all_errs ←
        validate_credential_provider_config codec lib c.credential_providers
          (root "credentialProviders")
    ok (admission c.name all_errs)
  validate _ = ok bad_request

  unfoldable pub validate_create : Object → Result Admission
  validate_create obj = validate obj

  unfoldable pub validate_update : Object → Object → Result Admission
  validate_update old obj = validate obj

  unfoldable pub validate_delete : Object → Result Admission
  validate_delete obj = ok admitted
