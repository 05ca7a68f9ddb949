-- ===== src/Tests/Answering.antt =====
-- GetCredentials with a mirror.
use dynamic_credential_provi.Base.{
  All, GoError, Text, Wraps, [], codes, cut, err, false, has_byte, has_prefix, insert, lookup, none,
  ok, pos, refl, some, text_eq, text_lt, trim_prefix, true, unsupported_mirror_credential_strategy,
  ◌↔◌, ◌∷◌, ◌≡◌,
}
use dynamic_credential_provi.Dynamic.Response.{
  get_credentials, is_registry_credentials_only, get_mirror_credentials_for_image, mirror_image,
  origin_credentials, place_mirror_auth, update_auth_config_map_for_mirror, mirror_entry,
}
use dynamic_credential_provi.Api.{
  MirrorConfig, CredentialProviderResponse, other_strategy, mirror_credentials_only,
  mirror_credentials_first, mirror_credentials_last, no_auth, image_cache,
  MirrorCredentialsStrategy, is_strategy_constant,
}
use dynamic_credential_provi.Tests.Samples.{
  plain_lib, identity, plain_reference, constant, auth, identity-IsFaithful,
}
use dynamic_credential_provi.Go.Glob.{filepath_match}
use dynamic_credential_provi.Go.HostPort.{join_host_port, split_host_port}
use dynamic_credential_provi.Go.Strings.{split}
use dynamic_credential_provi.Dynamic.Select.{Found, get_credentials_for_image}
use dynamic_credential_provi.Dynamic.Provider.{Provider}
use dynamic_credential_provi.Dynamic.Response.Laws.{
  get_credentials-promised, get_credentials-mirror_not_found, get_credentials-no_mirror,
  get_credentials-unsupported,
}
use dynamic_credential_provi.Dynamic.Response.Strategy.{promised}
use dynamic_credential_provi.Urlglobber.Url.{parse_potentially_schemeless_url}
use dynamic_credential_provi.Urlglobber.Globber.{globbed_domain_for_image, globbed_domain}
use dynamic_credential_provi.Urlglobber.Matcher.{
  urls_match_str, urls_match, split_url, matched, split_host,
}
use dynamic_credential_provi.Dynamic.Select.Answers.{HasAnswer}
use dynamic_credential_provi.Dynamic.Response.Returns.{get_credentials_returns_iff, CanAnswer}

abbrev pub app_image : Text
app_image = codes "foo.io/app"

abbrev pub origin_provider : Provider
origin_provider =
    constant ((codes "foo.io", auth "origin") ∷ (codes "mirror.local", auth "mirror") ∷ [])
      (some (pos 30))

abbrev pub origin_answer : Found
origin_answer = record { auth_config = auth "origin"; cache_duration = pos 30; found = true }

abbrev pub mirror_answer : Found
mirror_answer = record { auth_config = auth "mirror"; cache_duration = pos 30; found = true }

abbrev nothing : Found
nothing = record { auth_config = no_auth; cache_duration = pos 0; found = false }

pub origin_found :
    get_credentials_for_image plain_lib identity app_image (origin_provider ∷ []) ≡ ok origin_answer
unfolding get_credentials_for_image text_lt matched urls_match_str parse_potentially_schemeless_url
    plain_lib urls_match split_url split_host split_host_port split filepath_match has_prefix
    has_byte cut text_eq
origin_found = refl

abbrev pub local_mirror : MirrorCredentialsStrategy → MirrorConfig
local_mirror strategy = record {
  endpoint = codes "https://mirror.local/cache";
  credentials_strategy = strategy;
}

pub mirror_found :
    (strategy : MirrorCredentialsStrategy)
    → get_mirror_credentials_for_image plain_lib identity
        (origin_provider ∷ [])
        (some (local_mirror strategy))
        app_image
      ≡ ok mirror_answer
unfolding get_mirror_credentials_for_image mirror_image trim_prefix get_credentials_for_image
    text_lt matched urls_match_str parse_potentially_schemeless_url plain_lib urls_match split_url
    split_host split_host_port split filepath_match has_prefix has_byte cut text_eq
mirror_found strategy = refl

globbed : globbed_domain_for_image plain_reference app_image ≡ ok (codes "*.*")
unfolding globbed_domain_for_image plain_reference globbed_domain join_host_port split_host_port
    has_byte cut
globbed = refl

pub first_response :
    get_credentials plain_lib identity
      (origin_provider ∷ [])
      plain_reference
      (some (local_mirror mirror_credentials_first))
      app_image
    ≡ ok (record {
      cache_key_type = image_cache;
      cache_duration = some (pos 30);
      auth = (app_image, auth "mirror") ∷ (codes "*.*", auth "origin") ∷ [];
    })
unfolding get_credentials origin_credentials mirror_entry is_registry_credentials_only
    update_auth_config_map_for_mirror place_mirror_auth insert lookup
    get_mirror_credentials_for_image mirror_image trim_prefix get_credentials_for_image text_lt
    matched urls_match_str parse_potentially_schemeless_url plain_lib urls_match split_url
    split_host split_host_port split filepath_match has_prefix has_byte cut text_eq
    globbed_domain_for_image plain_reference globbed_domain join_host_port
first_response = refl

get_credentials_returns_iff_example :
    ((response : CredentialProviderResponse) × (get_credentials plain_lib identity
          (origin_provider ∷ [])
          plain_reference
          (some (local_mirror mirror_credentials_first))
          app_image
        ≡ ok response))
    ↔ CanAnswer plain_lib identity
        (origin_provider ∷ [])
        plain_reference
        (some (local_mirror mirror_credentials_first))
        app_image
get_credentials_returns_iff_example =
    get_credentials_returns_iff plain_lib identity identity-IsFaithful (origin_provider ∷ [])
      plain_reference (some (local_mirror mirror_credentials_first)) app_image

-- The response of the sample needs an answer for the mirrored image.
asks_mirror : (mirrored : Text) × All (HasAnswer identity mirrored) (origin_provider ∷ [])
asks_mirror =
    let a = get_credentials_returns_iff_example.0 (_, first_response) in (a.mirrored, a.at_mirror)

get_credentials-no_mirror_example :
    get_credentials plain_lib identity (origin_provider ∷ []) plain_reference none app_image
    ≡ ok (record {
      cache_key_type = image_cache;
      cache_duration = some (pos 30);
      auth = (app_image, auth "origin") ∷ [];
    })
get_credentials-no_mirror_example =
    get_credentials-no_mirror plain_lib identity (origin_provider ∷ []) plain_reference app_image
      origin_answer origin_found

get_credentials-promised_example :
    (response : CredentialProviderResponse) × (get_credentials plain_lib identity
        (origin_provider ∷ [])
        plain_reference
        (some (local_mirror mirror_credentials_last))
        app_image
      ≡ ok response)
    × ((j : Text)
        → lookup j response.auth
          ≡ promised mirror_credentials_last app_image
              (codes "*.*")
              (auth "mirror")
              (auth "origin")
              j)
    × (response.cache_duration ≡ some (pos 30))
get_credentials-promised_example =
    get_credentials-promised plain_lib identity (origin_provider ∷ []) plain_reference app_image
      (codes "https://mirror.local/cache") mirror_credentials_last mirror_answer origin_answer
      (codes "*.*") tt (mirror_found mirror_credentials_last) origin_found globbed refl

never_other : is_strategy_constant (codes "Never") ≡ false
unfolding is_strategy_constant text_eq
never_other = refl

get_credentials-unsupported_example :
    (e : GoError) × (get_credentials plain_lib identity
        (origin_provider ∷ [])
        plain_reference
        (some (local_mirror (other_strategy (codes "Never") never_other)))
        app_image
      ≡ err e)
    × Wraps unsupported_mirror_credential_strategy e
get_credentials-unsupported_example =
    get_credentials-unsupported plain_lib identity (origin_provider ∷ []) plain_reference app_image
      (codes "https://mirror.local/cache") (codes "Never") (codes "*.*") never_other mirror_answer
      origin_answer (mirror_found (other_strategy (codes "Never") never_other)) origin_found globbed
      refl

-- A provider that knows the origin alone.
abbrev lone_provider : Provider
lone_provider = constant ((codes "foo.io", auth "origin") ∷ []) (some (pos 30))

lone_origin :
    get_credentials_for_image plain_lib identity app_image (lone_provider ∷ []) ≡ ok origin_answer
unfolding get_credentials_for_image text_lt matched urls_match_str parse_potentially_schemeless_url
    plain_lib urls_match split_url split_host split_host_port split filepath_match has_prefix
    has_byte cut text_eq
lone_origin = refl

lone_mirror :
    get_mirror_credentials_for_image plain_lib identity
      (lone_provider ∷ [])
      (some (local_mirror mirror_credentials_only))
      app_image
    ≡ ok nothing
unfolding get_mirror_credentials_for_image mirror_image trim_prefix get_credentials_for_image
    text_lt matched urls_match_str parse_potentially_schemeless_url plain_lib urls_match split_url
    split_host split_host_port split filepath_match has_prefix has_byte cut text_eq
lone_mirror = refl

lone_response :
    get_credentials plain_lib identity
      (lone_provider ∷ [])
      plain_reference
      (some (local_mirror mirror_credentials_only))
      app_image
    ≡ ok (record { cache_key_type = image_cache; cache_duration = some (pos 0); auth = [] })
lone_response =
    get_credentials-mirror_not_found plain_lib identity (lone_provider ∷ []) plain_reference
      app_image (codes "https://mirror.local/cache") mirror_credentials_only nothing origin_answer
      lone_mirror lone_origin refl
