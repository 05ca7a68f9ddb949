-- ===== src/Kubernetes.antt =====
-- What the program uses of the Kubernetes libraries: the codecs, as an interface.
use dynamic_credential_provi.Base.{
  Bool, GoError, Result, Text, [], err, if◌then◌else◌, inl, inr, ok, text_eq, ◌&&◌, ◌++◌, ◌∷◌, ◌≡◌,
  ◌⊎◌,
}
use dynamic_credential_provi.Api.{CredentialProviderResponse, DynamicCredentialProviderConfig}

pub record GroupVersion : Type 0 where
  pub group : Text
  pub version : Text

pub record GroupVersionKind : Type 0 where
  pub group_version : GroupVersion
  pub kind : Text

-- `GroupVersion.String()`
unfoldable pub gv_string : GroupVersion → Text
gv_string gv = if text_eq gv.group [] then gv.version else gv.group ++ b'/' ∷ gv.version

-- `gv != other`
abbrev pub same_group_version : GroupVersion → GroupVersion → Bool
same_group_version gv other = text_eq gv.group other.group && text_eq gv.version other.version

-- A `runtime.Object`, by the types that the program asks for. A request is its image.
pub data Object : Type 0 where
  request_object : Text → Object
  response_object : CredentialProviderResponse → Object
  config_object : DynamicCredentialProviderConfig → Object
  unknown_object : Object

-- `interpret` is `json.DefaultMetaFactory.Interpret`, `decode` a `UniversalDecoder`'s `Decode`,
-- `is_not_registered` is `runtime.IsNotRegisteredError`. `supports_json` says that the JSON media
-- type has a serializer. The last four are the credential provider API's names and versions.
pub record Codec : Type 0 where
  pub interpret : Text → GoError ⊎ GroupVersionKind
  pub decode : Text → GoError ⊎ (Object × GroupVersionKind)
  pub is_not_registered : GoError → Bool
  pub encode : CredentialProviderResponse → GoError ⊎ Text
  pub encode_request : GroupVersion → Text → GoError ⊎ Text
  pub supports_json : Bool
  pub group_name : Text
  pub v1 : GroupVersion
  pub v1beta1 : GroupVersion
  pub v1alpha1 : GroupVersion

abbrev pub from_sum {ℓ} : {A : Type ℓ} → GoError ⊎ A → Result A
from_sum (inl e) = err e
from_sum (inr a) = ok a

pub from_sum-eq-ok {ℓ} : {A : Type ℓ} (s : GoError ⊎ A) {a : A} → from_sum s ≡ ok a → s ≡ inr a
from_sum-eq-ok (inl e) h = cc
from_sum-eq-ok (inr b) h = cc
