-- ===== src/Tests/Serving.antt =====
-- The kubelet's plugin call, with a codec that knows one response.
use dynamic_credential_provi.Base.{
  GoError, Sentinel, Text, Wraps, [], codes, err, false, if◌then◌else◌, inr, leaf, length, none, ok,
  refl, some, text_eq, true, unsupported_api_version, ◌↔◌, ◌≡◌, ◌≤◌, ◌⊎◌,
}
use dynamic_credential_provi.Static
use dynamic_credential_provi.Kubernetes.{
  Codec, GroupVersionKind, gv_string, response_object, GroupVersion, Object, request_object,
}
use dynamic_credential_provi.Api.{image_cache, CredentialProviderResponse}
use dynamic_credential_provi.Plugin.{
  write, flush, CredentialSource, run_plugin, decode_request, respond, encode_response, Writer,
  write_buffered, buffer_size,
}
use dynamic_credential_provi.Tests.Answering.{app_image}
use dynamic_credential_provi.Plugin.Laws.{respond_iff, run_plugin-refused, run_plugin-reports_iff}
use dynamic_credential_provi.Plugin.Answers.{Answers}

abbrev pub v1_group : GroupVersion
v1_group = record { group = codes "credentialprovider.kubelet.k8s.io"; version = codes "v1" }

abbrev pub request_kind : GroupVersionKind
request_kind = record { group_version = v1_group; kind = codes "CredentialProviderRequest" }

abbrev pub response_kind : GroupVersionKind
response_kind = record { group_version = v1_group; kind = codes "CredentialProviderResponse" }

abbrev pub small_response : CredentialProviderResponse
small_response = record { cache_key_type = image_cache; cache_duration = none; auth = [] }

-- A request is the text of its image; the text `!` stands for a stored response.
decode_text : Text → GoError ⊎ (Object × GroupVersionKind)
decode_text t = elim (text_eq t (codes "!")) [
  | true ↦ inr (response_object small_response, response_kind)
  | false ↦ inr (request_object t, request_kind)
]

unfoldable pub plain_codec : Codec
unfolding decode_text text_eq
plain_codec = record {
  interpret = λ t. inr (
      if text_eq t (codes "old")
      then record request_kind { group_version = record v1_group { version = codes "v0" } }
      else request_kind);
  decode = decode_text;
  is_not_registered = λ e. false;
  encode = λ r. inr (codes "{}");
  encode_request = λ gv t. inr t;
  supports_json = true;
  group_name = codes "credentialprovider.kubelet.k8s.io";
  v1 = v1_group;
  v1beta1 = record v1_group { version = codes "v1beta1" };
  v1alpha1 = record v1_group { version = codes "v1alpha1" };
}

abbrev pub read_stored : Text → GoError ⊎ Text
read_stored name = inr (codes "!")

abbrev file_source : CredentialSource
file_source = λ image args.
    Static.get_credentials plain_codec read_stored (record { credentials_file = codes "creds" })
      image args

runs : respond plain_codec file_source (inr app_image) [] ≡ ok (codes "{}")
unfolding respond plain_codec Static.get_credentials encode_response decode_request text_eq
    gv_string
runs = refl

respond_iff_example :
    (respond plain_codec file_source (inr app_image) [] ≡ ok (codes "{}"))
    ↔ Answers plain_codec file_source [] app_image (codes "{}")
respond_iff_example = respond_iff plain_codec file_source [] app_image (codes "{}")

run_plugin-refused_example :
    (e : GoError) × (run_plugin plain_codec file_source (inr (codes "old")) (λ t. (t, none)) []
      ≡ ([], err e))
    × ((s : Sentinel) → Wraps s e ↔ (s ≡ unsupported_api_version))
unfolding plain_codec text_eq
run_plugin-refused_example =
    run_plugin-refused plain_codec file_source [] (codes "old") (λ t. (t, none))
      unsupported_api_version
      (record request_kind { group_version = record v1_group { version = codes "v0" } }, refl, refl)

-- A pipe that nobody reads.
abbrev broken_pipe : Writer
broken_pipe text = ([], some (leaf "broken pipe" []))

run_plugin-reports_iff_example :
    ((run_plugin plain_codec file_source (inr app_image) broken_pipe []).1 ≡ ok tt)
    ↔ ((length (codes "{}") ≤ buffer_size) ⊎ ((broken_pipe (codes "{}")).1 ≡ none))
run_plugin-reports_iff_example =
    run_plugin-reports_iff plain_codec file_source [] (inr app_image) broken_pipe (codes "{}") runs

-- Nothing has arrived of a response that is reported as a success.
lost : run_plugin plain_codec file_source (inr app_image) broken_pipe [] ≡ ([], ok tt)
unfolding run_plugin write_buffered write flush respond plain_codec Static.get_credentials
    encode_response decode_request text_eq gv_string
lost = refl
