-- ===== src/Urlglobber/Url.antt =====
-- `net/url` as the program uses it, and ParsePotentiallySchemelessURL of pkg/urlglobber/matcher.go.
use dynamic_credential_provi.Base.{
  GoError, Result, Text, [], arith, codes, err, has_prefix, if◌then◌else◌, inl, inr, not, ok, refl,
  ◌&&◌, ◌++◌, ◌≡◌, ◌⊎◌,
}

-- A `*url.URL`. `extra` stands for the user, the query and the fragment.
pub record Url : Type 0 where
  pub scheme : Text
  pub host : Text
  pub path : Text
  pub extra : Text

-- `url.Parse`, `(*URL).JoinPath` on one element and `(*URL).String`.
pub record UrlLib : Type 0 where
  pub parse : Text → GoError ⊎ Url
  pub join_path : Url → Text → Url
  pub to_string : Url → Text

abbrev pub https : Text
https = codes "https://"

abbrev pub http : Text
http = codes "http://"

-- The scheme that is put in front where there is none.
unfoldable pub with_scheme : Text → Text
with_scheme u = if not (has_prefix u https) && not (has_prefix u http) then https ++ u else u

unfoldable pub parse_potentially_schemeless_url : UrlLib → Text → Result Url
unfolding with_scheme
parse_potentially_schemeless_url lib u = elim (lib.parse (with_scheme u)) [
  | inl e ↦ err e
  | inr parsed ↦ ok (record parsed { scheme = [] })
]

pub parse_potentially_schemeless_url_cases :
    (lib : UrlLib) (u : Text)
    → ((e : GoError) × (parse_potentially_schemeless_url lib u ≡ err e))
      ⊎ ((url : Url) × (parse_potentially_schemeless_url lib u ≡ ok url))
unfolding parse_potentially_schemeless_url
parse_potentially_schemeless_url_cases lib u = go (lib.parse (with_scheme u)) refl
  where
    go :
        (r : GoError ⊎ Url)
        → lib.parse (with_scheme u) ≡ r
        → ((e : GoError) × (parse_potentially_schemeless_url lib u ≡ err e))
          ⊎ ((url : Url) × (parse_potentially_schemeless_url lib u ≡ ok url))
    go (inl e) p = inl (e, ground arith)
    go (inr url) p = inr (record url { scheme = [] }, ground arith)
