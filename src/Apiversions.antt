-- ===== src/Apiversions.antt =====
-- pkg/credentialprovider/dynamic/apiversions: the versions that a plugin may speak.
use dynamic_credential_provi.Base.{Dict, [], ◌∷◌}
use dynamic_credential_provi.Kubernetes.{Codec, GroupVersion, gv_string}

unfoldable pub api_versions : Codec → Dict GroupVersion
api_versions codec =
    (gv_string codec.v1alpha1, codec.v1alpha1)
    ∷ (gv_string codec.v1beta1, codec.v1beta1)
    ∷ (gv_string codec.v1, codec.v1)
    ∷ []
