-- ===== src/Urlglobber/Matcher/Spec.antt =====
-- When a key covers an image, said without the loop, and that URLsMatch decides it.
use dynamic_credential_provi.Base.{
  Bool, Crash, List, Result, Text, [], arith, crash, err, false, has_prefix, inl, inr, length, ok,
  refl, some, suc, text_eq_iff, true, ℕ, ◌↔◌, ◌∷◌, ◌≡◌, ◌≢◌,
}
use dynamic_credential_provi.Go.Glob.{filepath_match}
use dynamic_credential_provi.Urlglobber.Url.{Url, UrlLib, parse_potentially_schemeless_url_cases}
use dynamic_credential_provi.Urlglobber.Matcher.{
  split_url, match_parts, urls_match, urls_match_str, matched,
}

-- The lists have one length, and each pattern matches the part at its place.
abbrev pub MatchesAll : List Text → List Text → Type 0
MatchesAll [] [] = Unit
MatchesAll [] (t ∷ ts) = ⊥
MatchesAll (g ∷ gs) [] = ⊥
MatchesAll (g ∷ gs) (t ∷ ts) = (filepath_match g t ≡ some true) × MatchesAll gs ts

pub record Covers (glob target : Url) : Type 0 where
  pub same_port : (split_url glob).1 ≡ (split_url target).1
  pub parts : MatchesAll (split_url glob).0 (split_url target).0
  pub path_prefix : has_prefix target.path glob.path ≡ true

match_parts-cons :
    (k : ℕ) (globs : List Text) (t : Text) (targets : List Text)
    → match_parts (suc k) globs (t ∷ targets) ≡ match_parts k globs targets
unfolding match_parts
match_parts-cons k [] t targets = refl
match_parts-cons k (g ∷ globs) t targets = ground (arith, match_parts-cons (suc k) globs t targets)

match_parts-MatchesAll :
    (globs targets : List Text)
    → length globs ≡ length targets
    → match_parts 0 globs targets ≡ ok true
    → MatchesAll globs targets
unfolding match_parts
match_parts-MatchesAll [] [] e h = tt
match_parts-MatchesAll [] (t ∷ targets) e h = absurd (omega arith)
match_parts-MatchesAll (g ∷ globs) [] e h = absurd (omega arith)
match_parts-MatchesAll (g ∷ globs) (t ∷ targets) e h =
    ground (arith, match_parts-cons 0 globs t targets, match_parts-MatchesAll globs targets)

MatchesAll-match_parts :
    (globs targets : List Text)
    → MatchesAll globs targets
    → (length globs ≡ length targets) × (match_parts 0 globs targets ≡ ok true)
unfolding match_parts
MatchesAll-match_parts [] [] h = (refl, refl)
MatchesAll-match_parts [] (t ∷ targets) h = absurd h
MatchesAll-match_parts (g ∷ globs) [] h = absurd h
MatchesAll-match_parts (g ∷ globs) (t ∷ targets) h =
    ground (arith, match_parts-cons 0 globs t targets, MatchesAll-match_parts globs targets h.1)

match_parts-ne-crash :
    (globs targets : List Text) (c : Crash)
    → length globs ≡ length targets
    → match_parts 0 globs targets ≢ crash c
unfolding match_parts
match_parts-ne-crash [] targets c e h = cc
match_parts-ne-crash (g ∷ globs) [] c e h = omega arith
match_parts-ne-crash (g ∷ globs) (t ∷ targets) c e h =
    ground (arith, match_parts-cons 0 globs t targets, match_parts-ne-crash globs targets c)

urls_match-Covers : (glob target : Url) → urls_match glob target ≡ ok true → Covers glob target
unfolding urls_match
urls_match-Covers glob target h = ground (
  arith,
  text_eq_iff (split_url glob).1 (split_url target).1,
  match_parts-MatchesAll (split_url glob).0 (split_url target).0,
)

Covers-urls_match : (glob target : Url) → Covers glob target → urls_match glob target ≡ ok true
unfolding urls_match
Covers-urls_match glob target h = ground (
  arith,
  text_eq_iff (split_url glob).1 (split_url target).1,
  MatchesAll-match_parts (split_url glob).0 (split_url target).0 h.parts,
)

-- URLsMatch answers true exactly when the ports agree, the hosts have as many parts and each part
-- of the target is matched by the pattern at its place, and the target's path begins with the path
-- of the glob.
pub urls_match_iff : (glob target : Url) → (urls_match glob target ≡ ok true) ↔ Covers glob target
urls_match_iff glob target = (urls_match-Covers glob target, Covers-urls_match glob target)

-- URLsMatch never reads a part out of range.
pub urls_match-ne-crash : (glob target : Url) (c : Crash) → urls_match glob target ≢ crash c
unfolding urls_match
urls_match-ne-crash glob target c h =
    ground (arith, match_parts-ne-crash (split_url glob).0 (split_url target).0 c)

-- What callers read of URLsMatchStr: an error counts as no match.
unfoldable pub is_match : UrlLib → Text → Text → Bool
is_match lib glob target = elim (matched lib glob target) [ ok b ↦ b | _ ↦ false ]

urls_match_str-ne-crash :
    (lib : UrlLib) (glob target : Text) (c : Crash) → urls_match_str lib glob target ≢ crash c
unfolding urls_match_str
urls_match_str-ne-crash lib glob target c h =
    elim (parse_potentially_schemeless_url_cases lib glob) [
      | inl (e, p) ↦ ground arith
      | inr (g, p) ↦ elim (parse_potentially_schemeless_url_cases lib target) [
        | inl (e, q) ↦ ground arith
        | inr (t, q) ↦ ground (arith, urls_match-ne-crash g t c)
      ]
    ]

pub matched_lem :
    (lib : UrlLib) (glob target : Text) → matched lib glob target ≡ ok (is_match lib glob target)
unfolding matched is_match
matched_lem lib glob target = go (urls_match_str lib glob target) refl
  where
    go :
        (r : Result Bool)
        → urls_match_str lib glob target ≡ r
        → matched lib glob target ≡ ok (is_match lib glob target)
    go (ok b) e = ground arith
    go (err x) e = ground arith
    go (crash c) e = absurd (urls_match_str-ne-crash lib glob target c e)
