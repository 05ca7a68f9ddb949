-- ===== src/Tests/Samples.antt =====
-- Concrete stand-ins for the libraries, and test data.
use dynamic_credential_provi.Base.{
  Dict, GoError, Option, Result, String, Text, [], ap, codes, cut, err, false, has_byte, has_prefix,
  inl, inr, leaf, none, ok, ok-injective, pos, some, sym, trim_prefix, true, ◌++◌, ◌∷◌, ◌⊎◌,
}
use dynamic_credential_provi.Urlglobber.Globber.{ReferenceLib}
use dynamic_credential_provi.Api.{AuthConfig, image_cache, CredentialProviderResponse, Duration}
use dynamic_credential_provi.Dynamic.Provider.{IsFaithful, Convert, Provider}
use dynamic_credential_provi.Urlglobber.Url.{https, http, Url, UrlLib}

-- A text without its scheme.
without_scheme : Text → Text
without_scheme u = trim_prefix (trim_prefix u https) http

-- A parser for URLs of a scheme, a host and a path; a blank is an error.
parse_plain : Text → GoError ⊎ Url
parse_plain u = elim (has_byte b' ' u) [
  | true ↦ inl (leaf "invalid character in host name" [])
  | false ↦ elim (cut b'/' (without_scheme u)) [
    | none ↦ inr (record { scheme = []; host = without_scheme u; path = []; extra = [] })
    | some (host, path) ↦ inr (record { scheme = []; host = host; path = b'/' ∷ path; extra = [] })
  ]
]

unfoldable pub plain_lib : UrlLib
unfolding parse_plain without_scheme has_byte cut trim_prefix has_prefix
plain_lib = record {
  parse = parse_plain;
  join_path = λ u p. record u { path = u.path ++ p };
  to_string = λ u. codes "//" ++ u.host ++ u.path;
}

-- A domain is what stands before the first slash; an empty text is no reference.
parse_reference : Text → Result Text
parse_reference [] = err (leaf "invalid reference format" [])
parse_reference (c ∷ s) = elim (cut b'/' (c ∷ s)) [
  | none ↦ ok (codes "docker.io")
  | some (domain, _) ↦ ok domain
]

unfoldable pub plain_reference : ReferenceLib
unfolding parse_reference cut
plain_reference = record {
  Named = Text;
  parse_normalized_named = parse_reference;
  domain = λ named. named;
}

abbrev pub url : String → String → Url
url host path = record { scheme = []; host = codes host; path = codes path; extra = [] }

abbrev pub auth : String → AuthConfig
auth name = record { username = codes name; password = codes "secret" }

abbrev pub identity : Convert
identity resp = ok resp

pub identity-IsFaithful : IsFaithful identity
identity-IsFaithful = record {
  keeps_fields = λ resp v1_resp e. (
    ap (λ (r : CredentialProviderResponse). r.auth) (sym (ok-injective e)),
    ap (λ (r : CredentialProviderResponse). r.cache_duration) (sym (ok-injective e)),
  );
}

-- A provider that answers every image alike.
abbrev pub constant : Dict AuthConfig → Option Duration → Provider
constant entries duration = record {
  provide = λ img.
      ok
        (some (record { cache_key_type = image_cache; cache_duration = duration; auth = entries }));
  default_cache_duration = pos 60;
}
