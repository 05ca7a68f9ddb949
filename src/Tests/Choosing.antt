-- ===== src/Tests/Choosing.antt =====
-- getCredentialsForImage on two providers' worth of keys.
use dynamic_credential_provi.Base.{
  In, List, Text, [], arith, codes, cut, false, has_byte, has_prefix, inl, inr, length, map, ok,
  pos, refl, some, sym, text_eq, text_eq→ne, text_lt, true, ◌<◌, ◌>>=◌, ◌∙◌, ◌∷◌, ◌≡◌, ◌≢◌, ◌≤◌,
}
use dynamic_credential_provi.Dynamic.Select.Pick.{Candidate, pick_all}
use dynamic_credential_provi.Api.{AuthConfig, no_auth}
use dynamic_credential_provi.Tests.Samples.{
  auth, identity, plain_lib, constant, identity-IsFaithful,
}
use dynamic_credential_provi.Go.Glob.{filepath_match}
use dynamic_credential_provi.Go.HostPort.{split_host_port}
use dynamic_credential_provi.Go.Strings.{split}
use dynamic_credential_provi.Dynamic.Select.{Found, get_credentials_for_image, start, finish}
use dynamic_credential_provi.Dynamic.Provider.{Provider}
use dynamic_credential_provi.Dynamic.Select.Order.{Coherent, KeysDetermine}
use dynamic_credential_provi.Dynamic.Select.Candidates.{
  all_candidates, answer_candidates, candidates_of, get_credentials_for_image-all_candidates,
}
use dynamic_credential_provi.Urlglobber.Url.{parse_potentially_schemeless_url}
use dynamic_credential_provi.Urlglobber.Matcher.{
  urls_match, split_host, urls_match_str, matched, split_url,
}
use dynamic_credential_provi.Urlglobber.Matcher.Spec.{is_match}
use dynamic_credential_provi.Dynamic.Select.Laws.{
  get_credentials_for_image-Offers, get_credentials_for_image-order,
  get_credentials_for_image-longest, get_credentials_for_image-last_wins,
}
use dynamic_credential_provi.Dynamic.Select.Offered.{Offers}

abbrev img : Text
img = codes "foo.io/org/app"

abbrev short_key : Candidate
short_key = record { key = codes "foo.io"; auth_config = auth "short"; cache_duration = pos 5 }

-- Longer, and smaller as a text.
abbrev long_key : Candidate
long_key = record { key = codes "*.io/org"; auth_config = auth "long"; cache_duration = pos 5 }

-- Longer and greater.
abbrev path_key : Candidate
path_key = record { key = codes "foo.io/org"; auth_config = auth "path"; cache_duration = pos 5 }

abbrev entry : Candidate → Text × AuthConfig
entry c = (c.key, c.auth_config)

abbrev answering : List Candidate → List Provider
answering cs = constant ((codes "bar.io", auth "bar") ∷ map entry cs) (some (pos 5)) ∷ []

lists_candidates :
    (all_candidates plain_lib identity img (answering (short_key ∷ long_key ∷ []))
      ≡ ok (short_key ∷ long_key ∷ []))
    × (all_candidates plain_lib identity img (answering (long_key ∷ short_key ∷ []))
        ≡ ok (long_key ∷ short_key ∷ []))
    × (all_candidates plain_lib identity img (answering (short_key ∷ path_key ∷ []))
        ≡ ok (short_key ∷ path_key ∷ []))
    × (all_candidates plain_lib identity img (answering (path_key ∷ short_key ∷ []))
        ≡ ok (path_key ∷ short_key ∷ []))
unfolding all_candidates answer_candidates candidates_of is_match matched urls_match_str
    parse_potentially_schemeless_url plain_lib urls_match split_url split_host split_host_port split
    filepath_match has_prefix has_byte cut text_eq
lists_candidates = (refl, refl, refl, refl)

abbrev best_of : Candidate → Found
best_of c = record { auth_config = c.auth_config; cache_duration = pos 5; found = true }

chooses_path :
    get_credentials_for_image plain_lib identity img (answering (path_key ∷ short_key ∷ []))
    ≡ ok (best_of path_key)
unfolding get_credentials_for_image text_lt matched urls_match_str parse_potentially_schemeless_url
    plain_lib urls_match split_url split_host split_host_port split filepath_match has_prefix
    has_byte cut text_eq
chooses_path = refl

nothing_found :
    get_credentials_for_image plain_lib identity img (answering [])
    ≡ ok (record { auth_config = no_auth; cache_duration = pos 0; found = false })
unfolding get_credentials_for_image text_lt matched urls_match_str parse_potentially_schemeless_url
    plain_lib urls_match split_url split_host split_host_port split filepath_match has_prefix
    has_byte cut text_eq
nothing_found = refl

no_candidates : all_candidates plain_lib identity img (answering []) ≡ ok []
unfolding all_candidates answer_candidates candidates_of is_match matched urls_match_str
    parse_potentially_schemeless_url plain_lib urls_match split_url split_host split_host_port split
    filepath_match has_prefix has_byte cut text_eq
no_candidates = refl

Coherent-keys : Coherent (path_key ∷ short_key ∷ [])
unfolding text_lt
Coherent-keys c d (inl p) (inl q) h = absurd (let k : 10 < 10 = rw (p, q) at h in omega arith)
Coherent-keys c d (inl p) (inr (inl q)) h = absurd (let k : 10 < 6 = rw (p, q) at h in omega arith)
Coherent-keys c d (inr (inl p)) (inl q) h = rw (p, q)
Coherent-keys c d (inr (inl p)) (inr (inl q)) h =
    absurd (let k : 6 < 6 = rw (p, q) at h in omega arith)
Coherent-keys c d (inl p) (inr (inr q)) h = absurd q
Coherent-keys c d (inr (inl p)) (inr (inr q)) h = absurd q
Coherent-keys c d (inr (inr p)) q h = absurd p

different_keys : codes "foo.io/org" ≢ codes "foo.io"
unfolding text_eq
different_keys e = text_eq→ne (codes "foo.io/org") (codes "foo.io") refl e

keys_determine : KeysDetermine (path_key ∷ short_key ∷ [])
keys_determine c d (inl p) (inl q) h = p ∙ sym q
keys_determine c d (inl p) (inr (inl q)) h = absurd (different_keys (rw (p, q) at h))
keys_determine c d (inr (inl p)) (inl q) h = absurd (different_keys (sym (rw (p, q) at h)))
keys_determine c d (inr (inl p)) (inr (inl q)) h = p ∙ sym q
keys_determine c d (inl p) (inr (inr q)) h = absurd q
keys_determine c d (inr (inl p)) (inr (inr q)) h = absurd q
keys_determine c d (inr (inr p)) q h = absurd p

swap_pair : (a b c : Candidate) → In c (a ∷ b ∷ []) → In c (b ∷ a ∷ [])
swap_pair a b c (inl p) = inr (inl p)
swap_pair a b c (inr (inl p)) = inl p
swap_pair a b c (inr (inr p)) = absurd p

get_credentials_for_image-all_candidates_example :
    get_credentials_for_image plain_lib identity img (answering (path_key ∷ short_key ∷ [])) ≡ (do
      cs ← all_candidates plain_lib identity img (answering (path_key ∷ short_key ∷ []))
      ok (finish (pick_all start cs)))
get_credentials_for_image-all_candidates_example =
    get_credentials_for_image-all_candidates plain_lib identity img identity-IsFaithful
      (answering (path_key ∷ short_key ∷ []))

get_credentials_for_image-Offers_example :
    (prov : Provider) × (c : Candidate) × In prov (answering (path_key ∷ short_key ∷ []))
    × Offers plain_lib img prov c
    × (c.key ≢ [])
    × (auth "path" ≡ c.auth_config)
    × (pos 5 ≡ c.cache_duration)
get_credentials_for_image-Offers_example =
    get_credentials_for_image-Offers plain_lib identity img identity-IsFaithful
      (answering (path_key ∷ short_key ∷ [])) (best_of path_key) chooses_path refl

get_credentials_for_image-longest_example :
    (d : Candidate) × In d (path_key ∷ short_key ∷ [])
    × (6 ≤ length d.key)
    × (best_of path_key
        ≡ record { auth_config = d.auth_config; cache_duration = d.cache_duration; found = true })
get_credentials_for_image-longest_example =
    get_credentials_for_image-longest plain_lib identity img identity-IsFaithful
      (answering (path_key ∷ short_key ∷ [])) (best_of path_key) (path_key ∷ short_key ∷ [])
      short_key chooses_path lists_candidates.3 Coherent-keys (inr (inl refl)) (λ e. cc)

get_credentials_for_image-order_example :
    get_credentials_for_image plain_lib identity img (answering (path_key ∷ short_key ∷ []))
    ≡ get_credentials_for_image plain_lib identity img (answering (short_key ∷ path_key ∷ []))
get_credentials_for_image-order_example =
    get_credentials_for_image-order plain_lib identity img identity-IsFaithful
      (answering (path_key ∷ short_key ∷ [])) (answering (short_key ∷ path_key ∷ []))
      (path_key ∷ short_key ∷ []) (short_key ∷ path_key ∷ []) lists_candidates.3 lists_candidates.2
      Coherent-keys keys_determine
      (λ c. (swap_pair path_key short_key c, swap_pair short_key path_key c))

get_credentials_for_image-last_wins_example :
    (get_credentials_for_image plain_lib identity img (answering (short_key ∷ long_key ∷ []))
      ≡ ok (best_of long_key))
    × (get_credentials_for_image plain_lib identity img (answering (long_key ∷ short_key ∷ []))
        ≡ ok (best_of short_key))
unfolding text_lt text_eq
get_credentials_for_image-last_wins_example =
    get_credentials_for_image-last_wins plain_lib identity img identity-IsFaithful
      (answering (short_key ∷ long_key ∷ [])) (answering (long_key ∷ short_key ∷ [])) short_key
      long_key lists_candidates.0 lists_candidates.1 (λ e. cc) (omega arith) refl
