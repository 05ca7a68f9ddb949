-- ===== src/Dynamic/Response/Laws.antt =====
-- What the response says of each strategy, and how long it may be cached.
use dynamic_credential_provi.Base.{
  GoError, List, Option, Text, Wraps, [], arith, err, false, if◌then◌else◌, insert, lookup, none,
  ok, pos, refl, sentinel, some, true, unsupported_mirror_credential_strategy, wrap, ◌∷◌, ◌≡◌,
}
use dynamic_credential_provi.Api.{
  mirror_credentials_first, mirror_credentials_last, mirror_credentials_only, other_strategy,
  MirrorCredentialsStrategy, CredentialProviderResponse, MirrorConfig, Duration, image_cache,
  is_strategy_constant,
}
use dynamic_credential_provi.Dynamic.Response.{
  place_mirror_auth, is_registry_credentials_only, get_mirror_credentials_for_image, exceeds,
  get_credentials, origin_credentials, update_auth_config_map_for_mirror, mirror_entry,
}
use dynamic_credential_provi.Dynamic.Select.{Found, get_credentials_for_image}
use dynamic_credential_provi.Dynamic.Provider.{Provider, Convert}
use dynamic_credential_provi.Urlglobber.Url.{UrlLib}
use dynamic_credential_provi.Urlglobber.Globber.{globbed_domain_for_image, ReferenceLib}
use dynamic_credential_provi.Dynamic.Response.Strategy.{
  IsSupported, promised, place_mirror_auth-promised, origin_map,
}

-- How long both answers may be cached: the shorter duration of those found.
abbrev pub shorter_duration : Found → Found → Duration
shorter_duration mirror origin =
    if origin.found
    then (if mirror.found
        then (if exceeds mirror.cache_duration origin.cache_duration
            then origin.cache_duration
            else mirror.cache_duration)
        else origin.cache_duration)
    else mirror.cache_duration

abbrev pub promised_duration : MirrorCredentialsStrategy → Found → Found → Duration
promised_duration mirror_credentials_only mirror origin = mirror.cache_duration
promised_duration _ mirror origin = shorter_duration mirror origin

module _ (lib : UrlLib) (convert : Convert) (providers : List Provider) (ref : ReferenceLib)
    (img : Text) where
  -- Without a mirror the response has the origin's answer under the image, found or not, and is
  -- cached for the origin's duration if it was found, and not at all if it was not.
  pub get_credentials-no_mirror :
      (origin : Found)
      → get_credentials_for_image lib convert img providers ≡ ok origin
      → get_credentials lib convert providers ref none img
        ≡ ok (record {
          cache_key_type = image_cache;
          cache_duration = some (if origin.found then origin.cache_duration else pos 0);
          auth = (img, origin.auth_config) ∷ [];
        })
  unfolding get_credentials get_mirror_credentials_for_image origin_credentials mirror_entry
      is_registry_credentials_only insert
  get_credentials-no_mirror origin e = ground arith

  -- An error of the mirror's part is returned, whatever the origin would answer.
  pub get_credentials-mirror_error :
      (mirror : Option MirrorConfig) (e : GoError)
      → get_mirror_credentials_for_image lib convert providers mirror img ≡ err e
      → get_credentials lib convert providers ref mirror img
        ≡ err (wrap "failed to get mirror credentials: %w" [] e)
  unfolding get_credentials
  get_credentials-mirror_error mirror e h = ground arith

  module _ (endpoint : Text) (strategy : MirrorCredentialsStrategy) (mirror origin : Found) where
    abbrev pub mirror_config : MirrorConfig
    mirror_config = record { endpoint = endpoint; credentials_strategy = strategy }

    origin_credentials-promised :
        IsSupported strategy
        → get_credentials_for_image lib convert img providers ≡ ok origin
        → origin_credentials lib convert providers (some mirror_config) img mirror
          ≡ ok
              (origin_map strategy img origin.auth_config, promised_duration strategy mirror origin)
    unfolding origin_credentials is_registry_credentials_only
    origin_credentials-promised s e = go strategy refl s
      where
        go :
            (t : MirrorCredentialsStrategy)
            → strategy ≡ t
            → IsSupported t
            → origin_credentials lib convert providers (some mirror_config) img mirror
              ≡ ok (
                origin_map strategy img origin.auth_config,
                promised_duration strategy mirror origin,
              )
        go mirror_credentials_first p s = ground arith
        go mirror_credentials_last p s = ground arith
        go mirror_credentials_only p s = ground arith
        go (other_strategy x n) p s = absurd s

    -- Where both lookups and the globbing succeed, the mirror's credentials are found and the
    -- strategy is one of the three, the response has exactly the entries that the strategy
    -- promises, and the duration that it promises: the mirror's under MirrorCredentialsOnly, and
    -- the shorter of those found under the other two.
    pub get_credentials-promised :
        (globbed : Text)
        → IsSupported strategy
        → get_mirror_credentials_for_image lib convert providers (some mirror_config) img
          ≡ ok mirror
        → get_credentials_for_image lib convert img providers ≡ ok origin
        → globbed_domain_for_image ref img ≡ ok globbed
        → mirror.found ≡ true
        → (response : CredentialProviderResponse) × (get_credentials lib convert providers ref
              (some mirror_config)
              img
            ≡ ok response)
          × ((j : Text)
              → lookup j response.auth
                ≡ promised strategy img globbed mirror.auth_config origin.auth_config j)
          × (response.cache_duration ≡ some (promised_duration strategy mirror origin))
    unfolding get_credentials mirror_entry update_auth_config_map_for_mirror
    get_credentials-promised globbed s m o g f =
        let (auth, placed, listed) =
          place_mirror_auth-promised strategy img globbed mirror.auth_config origin.auth_config s in
        (
          record {
            cache_key_type = image_cache;
            cache_duration = some (promised_duration strategy mirror origin);
            auth = auth;
          },
          ground (arith, origin_credentials-promised s o),
          listed,
          refl,
        )

    -- Where the mirror has no credentials for the image, only the origin's entry is left, and no
    -- entry at all under MirrorCredentialsOnly.
    pub get_credentials-mirror_not_found :
        get_mirror_credentials_for_image lib convert providers (some mirror_config) img ≡ ok mirror
        → get_credentials_for_image lib convert img providers ≡ ok origin
        → mirror.found ≡ false
        → get_credentials lib convert providers ref (some mirror_config) img
          ≡ ok (record {
            cache_key_type = image_cache;
            cache_duration = some (promised_duration strategy mirror origin);
            auth = origin_map strategy img origin.auth_config;
          })
    unfolding get_credentials mirror_entry origin_credentials is_registry_credentials_only insert
    get_credentials-mirror_not_found m o f = go strategy refl
      where
        go :
            (t : MirrorCredentialsStrategy)
            → strategy ≡ t
            → get_credentials lib convert providers ref (some mirror_config) img
              ≡ ok (record {
                cache_key_type = image_cache;
                cache_duration = some (promised_duration strategy mirror origin);
                auth = origin_map strategy img origin.auth_config;
              })
        go mirror_credentials_first p = ground arith
        go mirror_credentials_last p = ground arith
        go mirror_credentials_only p = ground arith
        go (other_strategy x n) p = ground arith

  -- Where both lookups and the globbing succeed and the mirror's credentials are found, a strategy
  -- with a text other than those of the three constants is refused with an error that is
  -- ErrUnsupportedMirrorCredentialStrategy.
  pub get_credentials-unsupported :
      (endpoint text globbed : Text) (n : is_strategy_constant text ≡ false) (mirror origin : Found)
      → get_mirror_credentials_for_image lib convert providers
          (some (mirror_config endpoint (other_strategy text n) mirror origin))
          img
        ≡ ok mirror
      → get_credentials_for_image lib convert img providers ≡ ok origin
      → globbed_domain_for_image ref img ≡ ok globbed
      → mirror.found ≡ true
      → (e : GoError) × (get_credentials lib convert providers ref
            (some (mirror_config endpoint (other_strategy text n) mirror origin))
            img
          ≡ err e)
        × Wraps unsupported_mirror_credential_strategy e
  unfolding get_credentials mirror_entry origin_credentials is_registry_credentials_only
      update_auth_config_map_for_mirror place_mirror_auth
  get_credentials-unsupported endpoint text globbed n mirror origin m o g f = (
    wrap "%w: %q" (text ∷ []) (sentinel unsupported_mirror_credential_strategy),
    ground arith,
    refl,
  )
