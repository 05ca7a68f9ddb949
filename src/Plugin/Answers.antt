-- ===== src/Plugin/Answers.antt =====
-- A request that is answered, and how requests are decoded and responses encoded.
use dynamic_credential_provi.Base.{
  Bool, Bool-cases, GoError, List, Text, [], arith, codes, false, guarded-eq-ok, inl, inr, not, ok,
  refl, some, text_eq_iff, text_eq→eq, true, wrapping-eq-ok, ◌≡◌, ◌≢◌, ◌⊎◌,
}
use dynamic_credential_provi.Kubernetes.{
  config_object, unknown_object, request_object, response_object, Object, Codec, GroupVersionKind,
  same_group_version, from_sum-eq-ok,
}
use dynamic_credential_provi.Api.{CredentialProviderResponse}
use dynamic_credential_provi.Plugin.{encode_response, CredentialSource, decode_request}

-- The request decodes to one for this image, of the credential provider group.
pub record Requests (codec : Codec) (request image : Text) : Type 0 where
  pub decoded : GroupVersionKind
  pub decodes : codec.decode request ≡ inr (request_object image, decoded)
  pub is_request : decoded.kind ≡ codes "CredentialProviderRequest"
  pub in_group : decoded.group_version.group ≡ codec.group_name

-- The request is a v1 request for this image, and the source's response to it is encoded so.
pub record Answers (codec : Codec) (source : CredentialSource) (args : List Text)
    (request encoded : Text) : Type 0 where
  pub interpreted : GroupVersionKind
  pub interprets : codec.interpret request ≡ inr interpreted
  pub is_v1 : same_group_version interpreted.group_version codec.v1 ≡ true
  pub image : Text
  pub requests : Requests codec request image
  pub has_image : image ≢ []
  pub response : CredentialProviderResponse
  pub responds : source image args ≡ ok (some response)
  pub has_encoder : codec.supports_json ≡ true
  pub encodes : codec.encode response ≡ inr encoded

pub true_of_not : (b : Bool) → not b ≡ false → b ≡ true
true_of_not true h = refl
true_of_not false h = cc

pub Requests-decode_request :
    (codec : Codec) (request image : Text)
    → Requests codec request image
    → decode_request codec request ≡ ok image
unfolding decode_request
Requests-decode_request codec request image h = ground (
  arith,
  h.decodes,
  text_eq_iff h.decoded.kind (codes "CredentialProviderRequest"),
  text_eq_iff h.decoded.group_version.group codec.group_name,
)

pub decode_request-Requests :
    (codec : Codec) (request image : Text)
    → decode_request codec request ≡ ok image
    → Requests codec request image
unfolding decode_request
decode_request-Requests codec request image h = go (codec.decode request) refl
  where
    go :
        (d : GoError ⊎ (Object × GroupVersionKind))
        → codec.decode request ≡ d
        → Requests codec request image
    go (inl e) p = elim (Bool-cases (codec.is_not_registered e)) [
      | inl b ↦ absurd (ground arith)
      | inr b ↦ absurd (ground arith)
    ]
    go (inr (request_object other, gvk)) p = record {
      decoded = gvk;
      decodes = ground arith;
      is_request = text_eq→eq gvk.kind (codes "CredentialProviderRequest") (ground arith);
      in_group = text_eq→eq gvk.group_version.group codec.group_name (ground arith);
    }
    go (inr (response_object _, gvk)) p = absurd (ground arith)
    go (inr (config_object _, gvk)) p = absurd (ground arith)
    go (inr (unknown_object, gvk)) p = absurd (ground arith)

pub encode_response-eq-ok :
    (codec : Codec) (response : CredentialProviderResponse) (encoded : Text)
    → encode_response codec response ≡ ok encoded
    → (codec.supports_json ≡ true) × (codec.encode response ≡ inr encoded)
unfolding encode_response
encode_response-eq-ok codec response encoded h =
    let (b, h') = guarded-eq-ok (not codec.supports_json) _ _ h in
    (true_of_not _ b, from_sum-eq-ok _ (wrapping-eq-ok _ _ _ h'))
