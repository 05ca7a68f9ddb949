-- ===== src/Dynamic/Response/Caching.antt =====
-- For how long the response may be cached.
use dynamic_credential_provi.Base.{
  Bool-cases, List, Option, Text, arith, false, inl, inr, ltb_ℤ, negsuc, ok, pos, refl, some, true,
  ℤ, ◌≡◌, ◌≤ℤ◌, ◌⊎◌,
}
use dynamic_credential_provi.Api.{MirrorConfig, Duration, CredentialProviderResponse}
use dynamic_credential_provi.Dynamic.Select.{Found, get_credentials_for_image}
use dynamic_credential_provi.Dynamic.Response.{
  get_credentials, is_registry_credentials_only, exceeds, get_mirror_credentials_for_image,
  origin_credentials,
}
use dynamic_credential_provi.Dynamic.Provider.{Convert, Provider}
use dynamic_credential_provi.Urlglobber.Url.{UrlLib}
use dynamic_credential_provi.Urlglobber.Globber.{ReferenceLib}
use dynamic_credential_provi.Dynamic.Response.Laws.{shorter_duration}

-- The duration is no longer than that of the mirror's answer and of the origin's, of those that
-- were found and asked for.
abbrev pub Within : Option MirrorConfig → Found → Found → Duration → Type 0
Within mirror mirror_found origin d =
    ((mirror_found.found ≡ false) ⊎ (d ≤ℤ mirror_found.cache_duration))
    × ((is_registry_credentials_only mirror ≡ true)
        ⊎ (origin.found ≡ false)
        ⊎ (d ≤ℤ origin.cache_duration))

-- `a < b` is exactly the test, either way.
lt-within : (a b : ℤ) → ltb_ℤ a b ≡ true → a ≤ℤ b
lt-within (pos a) (pos b) h = ground arith
lt-within (pos a) (negsuc b) h = absurd (ground arith)
lt-within (negsuc a) (pos b) h = tt
lt-within (negsuc a) (negsuc b) h = ground arith

not_lt-within : (a b : ℤ) → ltb_ℤ a b ≡ false → b ≤ℤ a
not_lt-within (pos a) (pos b) h = ground arith
not_lt-within (pos a) (negsuc b) h = tt
not_lt-within (negsuc a) (pos b) h = absurd (ground arith)
not_lt-within (negsuc a) (negsuc b) h = ground arith

within_self : (a : ℤ) → a ≤ℤ a
within_self (pos a) = omega arith
within_self (negsuc a) = omega arith

shorter-within :
    (m o : Found)
    → ((m.found ≡ false) ⊎ (shorter_duration m o ≤ℤ m.cache_duration))
      × ((o.found ≡ false) ⊎ (shorter_duration m o ≤ℤ o.cache_duration))
shorter-within m o = elim (Bool-cases o.found) [
  | inl f ↦ elim (Bool-cases m.found) [
    | inl g ↦ elim (Bool-cases (exceeds m.cache_duration o.cache_duration)) [
      | inl x ↦
          rw (f, g, x)
            (
              inr (lt-within o.cache_duration m.cache_duration x),
              inr (within_self o.cache_duration),
            )
      | inr x ↦
          rw (f, g, x)
            (
              inr (within_self m.cache_duration),
              inr (not_lt-within o.cache_duration m.cache_duration x),
            )
    ]
    | inr g ↦ rw (f, g) (inl refl, inr (within_self o.cache_duration))
  ]
  | inr f ↦ rw f (inr (within_self m.cache_duration), inl refl)
]

module _ (lib : UrlLib) (convert : Convert) (providers : List Provider) (ref : ReferenceLib)
    (img : Text) where
  -- The response is cached no longer than the mirror's credentials where they were found, and no
  -- longer than the origin's where they were asked for and found.
  pub get_credentials_bounds :
      (mirror : Option MirrorConfig) (m o : Found) (response : CredentialProviderResponse)
      → get_mirror_credentials_for_image lib convert providers mirror img ≡ ok m
      → (is_registry_credentials_only mirror ≡ true)
        ⊎ (get_credentials_for_image lib convert img providers ≡ ok o)
      → get_credentials lib convert providers ref mirror img ≡ ok response
      → (d : Duration) × (response.cache_duration ≡ some d) × Within mirror m o d
  unfolding get_credentials origin_credentials
  get_credentials_bounds mirror m o response e f h =
      elim (Bool-cases (is_registry_credentials_only mirror)) [
        | inl only ↦
            (m.cache_duration, ground arith, (inr (within_self m.cache_duration), inl only))
        | inr asked ↦ elim f [
          | inl only ↦ absurd (ground arith)
          | inr found ↦ (
            shorter_duration m o,
            ground arith,
            ((shorter-within m o).0, inr (shorter-within m o).1),
          )
        ]
      ]
