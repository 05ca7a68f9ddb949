-- ===== src/Dynamic/Provider.antt =====
-- The `Provider` interface of dynamic/plugin_executor.go, as its two methods answer during a call.
use dynamic_credential_provi.Base.{Option, Result, Text, ok, ◌≡◌}
use dynamic_credential_provi.Api.{CredentialProviderResponse, Duration}

pub record Provider : Type 0 where
  pub provide : Text → Result (Option CredentialProviderResponse)
  pub default_cache_duration : Duration

-- `scheme.Convert(resp, v1Resp, nil)`, from the internal version to v1.
abbrev pub Convert : Type 0
Convert = CredentialProviderResponse → Result CredentialProviderResponse

-- The conversions between the versions copy these fields.
pub record IsFaithful (convert : Convert) : Type 0 where
  pub keeps_fields :
      (resp v1_resp : CredentialProviderResponse)
      → convert resp ≡ ok v1_resp
      → (v1_resp.auth ≡ resp.auth) × (v1_resp.cache_duration ≡ resp.cache_duration)
