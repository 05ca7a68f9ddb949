-- ===== src/Dynamic/Select.antt =====
-- `getCredentialsForImage` of dynamic/dynamic.go: the choice among the keys that cover an image.
pub mod Pick
pub mod Order
pub mod Candidates
pub mod Offered
pub mod Answers
pub mod Laws
use dynamic_credential_provi.Base.{
  Bool, Dict, List, Result, Text, [], crash, if◌then◌else◌, length, ltb, nil_dereference, none, not,
  ok, pos, some, text_eq, text_lt, wrapping, ◌&&◌, ◌>>=◌, ◌||◌, ◌∷◌,
}
use dynamic_credential_provi.Api.{AuthConfig, no_auth, CredentialProviderResponse, Duration}
use dynamic_credential_provi.Dynamic.Provider.{Convert, Provider}
use dynamic_credential_provi.Urlglobber.Url.{UrlLib}
use dynamic_credential_provi.Urlglobber.Matcher.{matched}

-- The loop's variables: `longestMatchedURL`, `authConfig` and `cacheDuration`.
pub record Best : Type 0 where
  pub longest_matched_url : Text
  pub auth_config : AuthConfig
  pub cache_duration : Duration

abbrev pub start : Best
start = record { longest_matched_url = []; auth_config = no_auth; cache_duration = pos 0 }

-- `len(longestMatchedURL) < len(k) || longestMatchedURL < k`
unfoldable pub replaces : Text → Text → Bool
replaces longest k = ltb (length longest) (length k) || text_lt longest k

-- The results of getCredentialsForImage and getMirrorCredentialsForImage but the error.
pub record Found : Type 0 where
  pub auth_config : AuthConfig
  pub cache_duration : Duration
  pub found : Bool

-- The default of the provider, or the response's own duration; `v1Resp.CacheDuration.Duration`
-- panics where the conversion has lost it.
unfoldable pub response_duration :
    Provider → CredentialProviderResponse → CredentialProviderResponse → Result Duration
response_duration prov resp v1_resp = elim resp.cache_duration [
  | none ↦ ok prov.default_cache_duration
  | some _ ↦ elim v1_resp.cache_duration [ none ↦ crash nil_dereference | some d ↦ ok d ]
]

abbrev pub finish : Best → Found
finish best = record {
  auth_config = best.auth_config;
  cache_duration = best.cache_duration;
  found = not (text_eq best.longest_matched_url []);
}

module _ (lib : UrlLib) (convert : Convert) (img : Text) where
  -- One round of the loop over `v1Resp.Auth`.
  unfoldable pub visit :
      Provider
      → CredentialProviderResponse
      → CredentialProviderResponse
      → Text
      → AuthConfig
      → Best
      → Result Best
  visit prov resp v1_resp k v best = do
    m ← matched lib k img
    if m && replaces best.longest_matched_url k
        then (do
          d ← response_duration prov resp v1_resp
          ok (record { longest_matched_url = k; auth_config = v; cache_duration = d }))
        else ok best

  unfoldable pub visit_auth :
      Provider
      → CredentialProviderResponse
      → CredentialProviderResponse
      → Dict AuthConfig
      → Best
      → Result Best
  visit_auth prov resp v1_resp [] best = ok best
  visit_auth prov resp v1_resp ((k, v) ∷ auth) best = do
    best' ← visit prov resp v1_resp k v best
    visit_auth prov resp v1_resp auth best'

  -- One round of the loop over `p.providers`.
  unfoldable pub visit_provider : Provider → Best → Result Best
  visit_provider prov best = do
    answer ← wrapping "failed to call plugin: %w" [] (prov.provide img)
    elim answer [
      | none ↦ ok best
      | some resp ↦ do
        v1_resp ←
            wrapping "failed to convert response from type %T to type %T: %w" [] (convert resp)
        visit_auth prov resp v1_resp v1_resp.auth best
    ]

  unfoldable pub visit_providers : List Provider → Best → Result Best
  visit_providers [] best = ok best
  visit_providers (prov ∷ providers) best = do
    best' ← visit_provider prov best
    visit_providers providers best'

  -- The map `p.providers` in the order in which the loop meets its values.
  unfoldable pub get_credentials_for_image : List Provider → Result Found
  unfolding visit_providers visit_provider visit_auth visit response_duration replaces
  get_credentials_for_image providers = do best ← visit_providers providers start; ok (finish best)
