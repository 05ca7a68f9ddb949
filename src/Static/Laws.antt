-- ===== src/Static/Laws.antt =====
-- The static provider answers every request with the content of its file.
use dynamic_credential_provi.Base.{
  GoError, List, Option, Text, arith, codes, inl, inr, ok, refl, some, subst, text_eq_iff,
  text_eq→eq, ◌↔◌, ◌≡◌, ◌⊎◌,
}
use dynamic_credential_provi.Static.{get_credentials, decode_response, StaticProvider}
use dynamic_credential_provi.Kubernetes.{Codec, response_object, Object, GroupVersionKind}
use dynamic_credential_provi.Api.{CredentialProviderResponse}

-- The file holds a response, of the credential provider group.
pub record Holds (codec : Codec) (text : Text) (response : CredentialProviderResponse)
    : Type 0 where
  pub decoded : GroupVersionKind
  pub decodes : codec.decode text ≡ inr (response_object response, decoded)
  pub is_response : decoded.kind ≡ codes "CredentialProviderResponse"
  pub in_group : decoded.group_version.group ≡ codec.group_name

module _ (codec : Codec) where
  Holds-decode_response :
      (text : Text) (response : CredentialProviderResponse)
      → Holds codec text response
      → decode_response codec text ≡ ok (some response)
  unfolding decode_response
  Holds-decode_response text response h = ground (
    arith,
    text_eq_iff h.decoded.kind (codes "CredentialProviderResponse"),
    text_eq_iff h.decoded.group_version.group codec.group_name,
  )

  decode_response-Holds :
      (text : Text) (answer : Option CredentialProviderResponse)
      → decode_response codec text ≡ ok answer
      → (response : CredentialProviderResponse) × (answer ≡ some response)
        × Holds codec text response
  unfolding decode_response
  decode_response-Holds text answer h = go (codec.decode text) refl
    where
      go :
          (d : GoError ⊎ (Object × GroupVersionKind))
          → codec.decode text ≡ d
          → (response : CredentialProviderResponse) × (answer ≡ some response)
            × Holds codec text response
      go (inl e) p = absurd (ground arith)
      go (inr (response_object response, gvk)) p = (
        response,
        ground arith,
        record {
          decoded = gvk;
          decodes = p;
          is_response = text_eq→eq gvk.kind (codes "CredentialProviderResponse") (ground arith);
          in_group = text_eq→eq gvk.group_version.group codec.group_name (ground arith);
        },
      )
      go (inr (other, gvk)) p = absurd (ground arith)

  -- The static provider answers with a response, whatever the image and the arguments, exactly when
  -- its file can be read and holds that response.
  pub get_credentials_iff :
      (read_file : Text → GoError ⊎ Text) (s : StaticProvider) (image : Text) (args : List Text)
      (response : CredentialProviderResponse)
      → (get_credentials codec read_file s image args ≡ ok (some response))
        ↔ ((text : Text) × (read_file s.credentials_file ≡ inr text) × Holds codec text response)
  unfolding get_credentials
  get_credentials_iff read_file s image args response =
      (there (read_file s.credentials_file) refl, back)
    where
      there :
          (r : GoError ⊎ Text)
          → read_file s.credentials_file ≡ r
          → get_credentials codec read_file s image args ≡ ok (some response)
          → (text : Text) × (read_file s.credentials_file ≡ inr text) × Holds codec text response
      there (inl e) p h = absurd (ground arith)
      there (inr text) p h =
          let (found, same, held) = decode_response-Holds text (some response) (ground arith) in
          let e : found ≡ response = cc in (text, p, subst (λ r. Holds codec text r) e held)

      back :
          (text : Text) × (read_file s.credentials_file ≡ inr text) × Holds codec text response
          → get_credentials codec read_file s image args ≡ ok (some response)
      back (text, p, held) = ground (arith, Holds-decode_response text response held)
