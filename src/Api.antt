-- ===== src/Api.antt =====
-- The API types: apis/config/v1alpha1, and what the program uses of the kubelet's configuration
-- and credential provider APIs.
pub mod DeepCopy
use dynamic_credential_provi.Base.{
  Bool, Dict, List, Option, Text, [], codes, false, text_eq, ℤ, ◌||◌, ◌≡◌,
}

-- `time.Duration`, in nanoseconds.
abbrev pub Duration : Type 0
Duration = ℤ

-- The text is that of one of the three constants.
unfoldable pub is_strategy_constant : Text → Bool
is_strategy_constant s =
    text_eq s (codes "MirrorCredentialsFirst")
    || text_eq s (codes "MirrorCredentialsLast")
    || text_eq s (codes "MirrorCredentialsOnly")

-- A MirrorCredentialsStrategy is a string: one of three constants, or any other text but theirs.
pub data MirrorCredentialsStrategy : Type 0 where
  mirror_credentials_first mirror_credentials_last mirror_credentials_only :
      MirrorCredentialsStrategy
  other_strategy : (s : Text) → is_strategy_constant s ≡ false → MirrorCredentialsStrategy

pub record MirrorConfig : Type 0 where
  pub endpoint : Text
  pub credentials_strategy : MirrorCredentialsStrategy

-- An `ExecEnvVar` of the kubelet configuration.
pub record EnvVar : Type 0 where
  pub name : Text
  pub value : Text

-- A `CredentialProvider` of the kubelet configuration. `none` is a nil duration.
pub record CredentialProvider : Type 0 where
  pub name : Text
  pub match_images : List Text
  pub default_cache_duration : Option Duration
  pub api_version : Text
  pub args : List Text
  pub env : List EnvVar

pub record CredentialProviderConfig : Type 0 where
  pub providers : List CredentialProvider

-- `none` is a nil pointer. `name` is that of the object's metadata.
pub record DynamicCredentialProviderConfig : Type 0 where
  pub name : Text
  pub mirror : Option MirrorConfig
  pub credential_providers : Option CredentialProviderConfig
  pub credential_provider_plugin_bin_dir : Text

pub record AuthConfig : Type 0 where
  pub username : Text
  pub password : Text

-- `AuthConfig{}`
abbrev pub no_auth : AuthConfig
no_auth = record { username = []; password = [] }

pub data CacheKeyType : Type 0 where
  image_cache registry_cache global_cache : CacheKeyType

-- A `CredentialProviderResponse`, of the internal version or of v1.
pub record CredentialProviderResponse : Type 0 where
  pub cache_key_type : CacheKeyType
  pub cache_duration : Option Duration
  pub auth : Dict AuthConfig
