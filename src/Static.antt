-- ===== src/Static.antt =====
-- pkg/credentialprovider/static/static_credentials.go: the provider that reads a file.
pub mod Laws
use dynamic_credential_provi.Base.{
  GoError, List, Option, Result, Text, [], codes, err, if◌then◌else◌, leaf, not, ok, some, text_eq,
  wrapping, ◌>>=◌, ◌∷◌, ◌⊎◌,
}
use dynamic_credential_provi.Kubernetes.{Codec, response_object, from_sum}
use dynamic_credential_provi.Api.{CredentialProviderResponse}

-- A staticProvider.
pub record StaticProvider : Type 0 where
  pub credentials_file : Text

-- NewProvider, which never reports an error.
unfoldable pub new_provider : Text → Result StaticProvider
new_provider credentials_file = ok (record { credentials_file = credentials_file })

module _ (codec : Codec) where
  unfoldable pub decode_response : Text → Result (Option CredentialProviderResponse)
  decode_response text = do
    (obj, gvk) ← from_sum (codec.decode text)
    (if not (text_eq gvk.kind (codes "CredentialProviderResponse"))
        then err (leaf "kind was %q, expected CredentialProviderResponse" (gvk.kind ∷ []))
        else if not (text_eq gvk.group_version.group codec.group_name)
        then err
            (leaf "group was %q, expected %s" (gvk.group_version.group ∷ codec.group_name ∷ []))
        else elim obj [
          | response_object response ↦ ok (some response)
          | _ ↦ err (leaf "unable to convert %T to *CredentialProviderResponse" [])
        ])

  -- GetCredentials, with `os.ReadFile`; the image and the arguments are not looked at.
  unfoldable pub get_credentials :
      (Text → GoError ⊎ Text)
      → StaticProvider
      → Text
      → List Text
      → Result (Option CredentialProviderResponse)
  unfolding decode_response
  get_credentials read_file s image args = do
    credentials ←
        wrapping "error reading credentials file: %w" [] (from_sum (read_file s.credentials_file))
    decode_response credentials
