-- ===== src/Dynamic/Response.antt =====
-- `GetCredentials`, `getMirrorCredentialsForImage`, `updateAuthConfigMapForMirror` and
-- `isRegistryCredentialsOnly` of dynamic/dynamic.go.
pub mod Strategy
pub mod Caching
pub mod Agree
pub mod Returns
pub mod Laws
use dynamic_credential_provi.Base.{
  Bool, Dict, List, Option, Result, Text, [], codes, err, false, if◌then◌else◌, insert, lookup,
  ltb_ℤ, none, not, ok, pos, sentinel, some, trim_prefix, true,
  unsupported_mirror_credential_strategy, wrap, wrapping, ◌&&◌, ◌>>=◌, ◌||◌, ◌∷◌,
}
use dynamic_credential_provi.Api.{
  mirror_credentials_first, mirror_credentials_last, mirror_credentials_only, other_strategy,
  no_auth, MirrorCredentialsStrategy, AuthConfig, CredentialProviderResponse, Duration,
  MirrorConfig,
}
use dynamic_credential_provi.Dynamic.Provider.{Provider, Convert}
use dynamic_credential_provi.Api.{image_cache}
use dynamic_credential_provi.Dynamic.Select.{Found, get_credentials_for_image}
use dynamic_credential_provi.Urlglobber.Url.{UrlLib, parse_potentially_schemeless_url}
use dynamic_credential_provi.Urlglobber.Globber.{globbed_domain_for_image, ReferenceLib}

unfoldable pub is_registry_credentials_only : Option MirrorConfig → Bool
is_registry_credentials_only none = false
is_registry_credentials_only (some cfg) = elim cfg.credentials_strategy [
  | mirror_credentials_only ↦ true
  | _ ↦ false
]

-- The `switch` of updateAuthConfigMapForMirror.
unfoldable pub place_mirror_auth :
    MirrorCredentialsStrategy
    → Dict AuthConfig
    → Text
    → Text
    → AuthConfig
    → Result (Dict AuthConfig)
place_mirror_auth mirror_credentials_only auth_map img globbed mirror_auth =
    ok (insert img mirror_auth auth_map)
place_mirror_auth mirror_credentials_last auth_map img globbed mirror_auth =
    ok (insert globbed mirror_auth auth_map)
place_mirror_auth mirror_credentials_first auth_map img globbed mirror_auth =
    elim (lookup img auth_map) [
      | some existing ↦ ok (insert img mirror_auth (insert globbed existing auth_map))
      | none ↦ ok (insert img mirror_auth auth_map)
    ]
place_mirror_auth (other_strategy s n) auth_map img globbed mirror_auth =
    err (wrap "%w: %q" (s ∷ []) (sentinel unsupported_mirror_credential_strategy))

-- `duration > other`
abbrev pub exceeds : Duration → Duration → Bool
exceeds duration other = ltb_ℤ other duration

module _ (ref : ReferenceLib) where
  unfoldable pub update_auth_config_map_for_mirror :
      Dict AuthConfig → Text → MirrorCredentialsStrategy → AuthConfig → Result (Dict AuthConfig)
  update_auth_config_map_for_mirror auth_map img strategy mirror_auth = do
    globbed ← globbed_domain_for_image ref img
    place_mirror_auth strategy auth_map img globbed mirror_auth

  unfoldable pub mirror_entry :
      Option MirrorConfig → Text → Found → Dict AuthConfig → Result (Dict AuthConfig)
  mirror_entry none img mirror_found auth_map = ok auth_map
  mirror_entry (some cfg) img mirror_found auth_map =
      if mirror_found.found
      then update_auth_config_map_for_mirror auth_map img cfg.credentials_strategy
          mirror_found.auth_config
      else ok auth_map

-- Nothing was found.
abbrev pub not_found : Found
not_found = record { auth_config = no_auth; cache_duration = pos 0; found = false }

module _ (lib : UrlLib) where
  -- The mirror image: the endpoint's URL with the image's path joined on, without its `//`.
  unfoldable pub mirror_image : MirrorConfig → Text → Result Text
  mirror_image cfg img = do
    img_url ←
        wrapping "failed to parse image %q to a URL: %w" (img ∷ [])
          (parse_potentially_schemeless_url lib img)
    mirror_url ←
        wrapping "failed to parse mirror %q to a URL: %w" (img ∷ [])
          (parse_potentially_schemeless_url lib cfg.endpoint)
    ok (trim_prefix (lib.to_string (lib.join_path mirror_url img_url.path)) (codes "//"))

module _ (lib : UrlLib) (convert : Convert) (providers : List Provider) where
  unfoldable pub get_mirror_credentials_for_image : Option MirrorConfig → Text → Result Found
  get_mirror_credentials_for_image none img = ok not_found
  get_mirror_credentials_for_image (some cfg) img = do
    mirrored ← mirror_image lib cfg img
    get_credentials_for_image lib convert mirrored providers

  -- The variables `authMap` and `cacheDuration` behind the origin's part.
  unfoldable pub origin_credentials :
      Option MirrorConfig → Text → Found → Result (Dict AuthConfig × Duration)
  origin_credentials mirror img mirror_found =
      if is_registry_credentials_only mirror then ok ([], mirror_found.cache_duration) else (do
        origin ←
            wrapping "failed to get origin credentials: %w" []
              (get_credentials_for_image lib convert img providers)
        ok (
          insert img origin.auth_config [],
          (if origin.found
                && (not mirror_found.found
                    || exceeds mirror_found.cache_duration origin.cache_duration)
              then origin.cache_duration
              else mirror_found.cache_duration),
        ))

  unfoldable pub get_credentials :
      ReferenceLib → Option MirrorConfig → Text → Result CredentialProviderResponse
  get_credentials ref mirror img = do
    mirror_found ←
        wrapping "failed to get mirror credentials: %w" []
          (get_mirror_credentials_for_image mirror img)
    (auth_map, cache_duration) ← origin_credentials mirror img mirror_found
    auth ← mirror_entry ref mirror img mirror_found auth_map
    ok (record { cache_key_type = image_cache; cache_duration = some cache_duration; auth = auth })
