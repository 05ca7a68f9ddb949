-- ===== src/Tests/Copying.antt =====
-- Deep copies, the bounds of the answers, and the loops over files.
use dynamic_credential_provi.Base.{
  All, [], arith, codes, cut, has_byte, has_prefix, if◌then◌else◌, inr, lookup, none, ok, pos, refl,
  some, suc, text_eq, trim_prefix, true, zero, ◌==◌, ◌∷◌, ◌≡◌, ◌⊎◌,
}
use dynamic_credential_provi.Install.Files.{eof}
use dynamic_credential_provi.Apiversions.{api_versions}
use dynamic_credential_provi.Kubernetes.{gv_string}
use dynamic_credential_provi.Api.{
  mirror_credentials_first, CredentialProviderConfig, MirrorConfig, CredentialProvider, Duration,
  image_cache, CredentialProviderResponse,
}
use dynamic_credential_provi.Api.DeepCopy.{
  SharesNothing, deep_copy, ConfigObject, deep_copy-SameValue, Memory, SameValue,
}
use dynamic_credential_provi.Tests.Samples.{auth, identity, plain_reference, plain_lib}
use dynamic_credential_provi.Tests.Running.{provider_named, v1_text}
use dynamic_credential_provi.Tests.Answering.{
  local_mirror, mirror_found, app_image, mirror_answer, origin_found, first_response, origin_answer,
  origin_provider,
}
use dynamic_credential_provi.Dynamic.Response.Caching.{Within, get_credentials_bounds}
use dynamic_credential_provi.Urlglobber.Url.{parse_potentially_schemeless_url}
use dynamic_credential_provi.Webhooks.Validation.{
  child, index, required, root, provider_errors, FieldPath, match_image_errors, providers_errors,
  validate_credential_provider_config, name_errors, duration_errors, api_version_errors,
}
use dynamic_credential_provi.Webhooks.Validation.Fields.{
  validate_credential_provider_config-InRange, error_path, InRange,
}
use dynamic_credential_provi.Install.Compare.{compare_reads, switch}
use dynamic_credential_provi.Install.Compare.Loop.{
  reads_from, Progresses, compare_loop-eq-compare_reads, Reader, compare_loop,
}
use dynamic_credential_provi.Tests.Serving.{plain_codec}

abbrev small_mirror : MirrorConfig
small_mirror = record {
  endpoint = codes "https://m.io";
  credentials_strategy = mirror_credentials_first;
}

-- One mirror, at address 0.
abbrev small_memory : Memory
small_memory = record {
  mirrors = λ a. if a == 0 then some small_mirror else none;
  provider_configs = λ a. none;
  next = 1;
}

abbrev small_object : ConfigObject
small_object = record {
  object_name = codes "config";
  mirror_pointer = some 0;
  providers_pointer = none;
  bin_dir = codes "bin";
}

deep_copy-SameValue_example :
    (m' : Memory) × (c' : ConfigObject) × (deep_copy (λ v. v) (some small_object) small_memory
      ≡ ok (m', some c'))
    × SameValue small_memory small_object m' c'
    × SameValue small_memory small_object m' small_object
    × SharesNothing small_object c'
deep_copy-SameValue_example =
    deep_copy-SameValue (λ v. v) (λ v. refl) small_memory small_object
      (record {
        mirror_there = λ e. cc;
        providers_there = λ e. cc;
        free_mirrors = λ a h. ground (arith, h);
        free_providers = λ a h. refl;
      })

-- A file of three bytes, read in pieces of two.
unfoldable small_file : Reader
small_file zero = (codes "ab", none)
small_file (suc zero) = ([], some eof)
small_file (suc (suc zero)) = (codes "c", none)
small_file (suc (suc (suc i))) = ([], some eof)

small_file-Progresses : Progresses small_file 3
unfolding small_file
small_file-Progresses zero h = ground arith
small_file-Progresses (suc zero) h = absurd (ground arith)
small_file-Progresses (suc (suc zero)) h = ground arith
small_file-Progresses (suc (suc (suc i))) h = absurd (ground arith)

compare_loop-eq-compare_reads_example :
    compare_loop 4 small_file small_file 0 0
    ≡ some (compare_reads (reads_from 4 small_file 0) (reads_from 4 small_file 0))
compare_loop-eq-compare_reads_example =
    compare_loop-eq-compare_reads 4 small_file small_file 3 3 0 0 small_file-Progresses
      small_file-Progresses (omega arith) (omega arith)

-- The loop ends after the third read.
compared : compare_loop 4 small_file small_file 0 0 ≡ some (ok true)
unfolding compare_loop text_eq switch small_file
compared = refl

abbrev first_answer : CredentialProviderResponse
first_answer = record {
  cache_key_type = image_cache;
  cache_duration = some (pos 30);
  auth = (app_image, auth "mirror") ∷ (codes "*.*", auth "origin") ∷ [];
}

get_credentials_bounds_example :
    (d : Duration) × (first_answer.cache_duration ≡ some d)
    × Within (some (local_mirror mirror_credentials_first)) mirror_answer origin_answer d
get_credentials_bounds_example =
    get_credentials_bounds plain_lib identity (origin_provider ∷ []) plain_reference app_image
      (some (local_mirror mirror_credentials_first)) mirror_answer origin_answer first_answer
      (mirror_found mirror_credentials_first) (inr origin_found) first_response

-- A provider without patterns, of an unknown version.
abbrev wrong_provider : CredentialProvider
wrong_provider = record {
  name = codes "a";
  match_images = [];
  default_cache_duration = some (pos 5);
  api_version = v1_text;
  args = [];
  env = [];
}

abbrev wrong_config : CredentialProviderConfig
wrong_config = record { providers = provider_named "a" ∷ wrong_provider ∷ [] }

abbrev patterns_path : FieldPath
patterns_path = child (index (child (root "credentialProviders") "providers") 1) "matchImages"

-- The second provider has no pattern.
pointed :
    validate_credential_provider_config plain_codec plain_lib
      (some wrong_config)
      (root "credentialProviders")
    ≡ ok (required patterns_path "at least 1 item in matchImages is required" ∷ [])
unfolding validate_credential_provider_config providers_errors provider_errors name_errors
    api_version_errors match_image_errors duration_errors plain_codec plain_lib
    parse_potentially_schemeless_url has_byte text_eq lookup api_versions gv_string has_prefix cut
    trim_prefix
pointed = refl

validate_credential_provider_config-InRange_example :
    All
      (λ e.
        ((error_path e ≡ child (root "credentialProviders") "providers")
          × (wrong_config.providers ≡ []))
        ⊎ InRange (child (root "credentialProviders") "providers") 2 e)
      (required patterns_path "at least 1 item in matchImages is required" ∷ [])
validate_credential_provider_config-InRange_example =
    validate_credential_provider_config-InRange plain_codec plain_lib wrong_config
      (root "credentialProviders")
      (required patterns_path "at least 1 item in matchImages is required" ∷ []) pointed
