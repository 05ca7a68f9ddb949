-- ===== src/Urlglobber/Matcher/Plain.antt =====
-- A key without wild cards covers its own host only.
use dynamic_credential_provi.Base.{
  All, List, Text, [], ap₂, has_prefix, ok, refl, text_eq_refl, text_eq→eq, true, ◌↔◌, ◌∙◌, ◌∷◌,
  ◌≡◌,
}
use dynamic_credential_provi.Urlglobber.Matcher.Spec.{Covers, MatchesAll, urls_match_iff}
use dynamic_credential_provi.Go.Glob.Laws.{is_plain, filepath_match-is_plain}
use dynamic_credential_provi.Urlglobber.Url.{Url}
use dynamic_credential_provi.Urlglobber.Matcher.{split_host, urls_match, split_url}
use dynamic_credential_provi.Urlglobber.Matcher.Hosts.{split_host-all_bytes}

MatchesAll→eq :
    (globs targets : List Text)
    → All (λ part. is_plain part ≡ true) globs
    → MatchesAll globs targets
    → globs ≡ targets
MatchesAll→eq [] [] p h = refl
MatchesAll→eq [] (t ∷ targets) p h = absurd h
MatchesAll→eq (g ∷ globs) [] p h = absurd h
MatchesAll→eq (g ∷ globs) (t ∷ targets) p h =
    ap₂ ◌∷◌ (text_eq→eq g t (cc (filepath_match-is_plain g t p.0)))
      (MatchesAll→eq globs targets p.1 h.1)

MatchesAll-is_plain :
    (parts : List Text) → All (λ part. is_plain part ≡ true) parts → MatchesAll parts parts
MatchesAll-is_plain [] p = tt
MatchesAll-is_plain (g ∷ parts) p =
    (filepath_match-is_plain g g p.0 ∙ rw (text_eq_refl g), MatchesAll-is_plain parts p.1)

Covers→split_host :
    (glob target : Url)
    → is_plain glob.host ≡ true
    → Covers glob target
    → (split_host glob.host ≡ split_host target.host) × (has_prefix target.path glob.path ≡ true)
unfolding split_url
Covers→split_host glob target p h = (
  λ i. (MatchesAll→eq _ _ (split_host-all_bytes _ glob.host p) h.parts i, h.same_port i),
  h.path_prefix,
)

split_host→Covers :
    (glob target : Url)
    → is_plain glob.host ≡ true
    → split_host glob.host ≡ split_host target.host
    → has_prefix target.path glob.path ≡ true
    → Covers glob target
unfolding split_url
split_host→Covers glob target p e h = record {
  same_port = rw e;
  parts = rw (← e) (MatchesAll-is_plain _ (split_host-all_bytes _ glob.host p));
  path_prefix = h;
}

-- For a key whose host has none of the bytes of a pattern, URLsMatch answers true exactly when the
-- two hosts split into the same parts and port, and the target's path begins with the path of the
-- key.
pub urls_match-is_plain :
    (glob target : Url)
    → is_plain glob.host ≡ true
    → (urls_match glob target ≡ ok true) ↔ (
        (split_host glob.host ≡ split_host target.host) × (has_prefix target.path glob.path ≡ true))
urls_match-is_plain glob target p = (
  λ h. Covers→split_host glob target p ((urls_match_iff glob target).0 h),
  λ h. (urls_match_iff glob target).1 (split_host→Covers glob target p h.0 h.1),
)
