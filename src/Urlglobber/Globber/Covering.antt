-- ===== src/Urlglobber/Globber/Covering.antt =====
-- The globbed domain of an image covers that image.
use dynamic_credential_provi.Base.{
  All, Bool, Bool-cases, List, Option-cases, Text, [], all_bytes, all_bytes-has_byte, ap, arith,
  false, has_byte, has_byte-all_bytes, has_prefix, if◌then◌else◌, inl, inr, map, none, not, ok,
  refl, some, sym, true, ℕ, ◌==◌, ◌∙◌, ◌∷◌, ◌≡◌, ◌≢◌,
}
use dynamic_credential_provi.Go.Glob.{star_byte, separator, filepath_match}
use dynamic_credential_provi.Go.Glob.Laws.{filepath_match-star}
use dynamic_credential_provi.Go.Strings.{split, push, split_sep, split_other, split_cons}
use dynamic_credential_provi.Urlglobber.Matcher.{dot, split_host, split_url, urls_match}
use dynamic_credential_provi.Urlglobber.Matcher.Spec.{MatchesAll, urls_match_iff}
use dynamic_credential_provi.Urlglobber.Globber.{replace_segments, globbed_domain}
use dynamic_credential_provi.Go.HostPort.{
  join_host_port, split_host_port, colon, left_bracket, right_bracket,
}
use dynamic_credential_provi.Go.HostPort.Laws.{
  split_host_port-join_host_port, split_host_port-none, split_host_port-port,
}
use dynamic_credential_provi.Urlglobber.Url.{Url}
use dynamic_credential_provi.Urlglobber.Matcher.Hosts.{
  split_host-some, split_host-all_bytes, split_host-none,
}

-- Only dots and stars are left.
has_byte-replace_segments :
    (c : ℕ) (b : Bool) (s : Text)
    → (dot == c) ≡ false
    → (star_byte == c) ≡ false
    → has_byte c (replace_segments b s) ≡ false
unfolding has_byte replace_segments
has_byte-replace_segments c b [] d e = refl
has_byte-replace_segments c b (x ∷ s) d e =
    ground (arith, has_byte-replace_segments c (not (x == dot)) s d e)

-- What a part becomes.
abbrev starred : Text → Text
starred [] = []
starred (c ∷ s) = star_byte ∷ []

-- The parts behind a run whose star is already written.
abbrev starred_parts : Bool → List Text → List Text
starred_parts false parts = map starred parts
starred_parts true [] = []
starred_parts true (part ∷ parts) = [] ∷ map starred parts

push-starred_parts :
    (c : ℕ) (parts : List Text)
    → parts ≢ []
    → push star_byte (starred_parts true parts) ≡ map starred (push c parts)
push-starred_parts c [] h = absurd (h refl)
push-starred_parts c (part ∷ parts) h = refl

starred_parts-push :
    (c : ℕ) (parts : List Text)
    → parts ≢ []
    → starred_parts true (push c parts) ≡ starred_parts true parts
starred_parts-push c [] h = absurd (h refl)
starred_parts-push c (part ∷ parts) h = refl

replace_segments-dot :
    (b : Bool) (c : ℕ) (s : Text)
    → (c == dot) ≡ true
    → replace_segments b (c ∷ s) ≡ dot ∷ replace_segments false s
unfolding replace_segments
replace_segments-dot b c s h = rw h

replace_segments-other :
    (b : Bool) (c : ℕ) (s : Text)
    → (c == dot) ≡ false
    → replace_segments b (c ∷ s)
      ≡ (if b then replace_segments true s else star_byte ∷ replace_segments true s)
unfolding replace_segments
replace_segments-other b c s h = rw h

split-replace_segments_nil :
    (b : Bool) → split dot (replace_segments b []) ≡ starred_parts b (split dot [])
unfolding split replace_segments
split-replace_segments_nil false = refl
split-replace_segments_nil true = refl

split-replace_segments :
    (b : Bool) (s : Text) → split dot (replace_segments b s) ≡ starred_parts b (split dot s)
split-replace_segments b [] = split-replace_segments_nil b
split-replace_segments false (c ∷ s) = elim (Bool-cases (c == dot)) [
  | inl e ↦
      rw (replace_segments-dot false c s e, split_sep dot c s e)
        (split_sep dot dot _ refl ∙ ap (λ parts. [] ∷ parts) (split-replace_segments false s))
  | inr e ↦
      rw (replace_segments-other false c s e, split_other dot c s e)
        (split_other dot star_byte _ refl
          ∙ ap (push star_byte) (split-replace_segments true s)
          ∙ push-starred_parts c (split dot s) (split_cons dot s))
]
split-replace_segments true (c ∷ s) = elim (Bool-cases (c == dot)) [
  | inl e ↦
      rw (replace_segments-dot true c s e, split_sep dot c s e)
        (split_sep dot dot _ refl ∙ ap (λ parts. [] ∷ parts) (split-replace_segments false s))
  | inr e ↦
      rw (replace_segments-other true c s e, split_other dot c s e)
        (split-replace_segments true s
          ∙ sym (starred_parts-push c (split dot s) (split_cons dot s)))
]

filepath_match-nil : filepath_match [] [] ≡ some true
unfolding filepath_match
filepath_match-nil = refl

starred-MatchesAll :
    (parts : List Text)
    → All (λ part. all_bytes (λ x. not (x == separator)) part ≡ true) parts
    → MatchesAll (map starred parts) parts
starred-MatchesAll [] h = tt
starred-MatchesAll ([] ∷ parts) h = (filepath_match-nil, starred-MatchesAll parts h.1)
starred-MatchesAll ((c ∷ part) ∷ parts) h = (
  filepath_match-star (c ∷ part) ∙ rw (has_byte-all_bytes separator (c ∷ part) h.0),
  starred-MatchesAll parts h.1,
)

replace_segments-split_host_port : (s : Text) → split_host_port (replace_segments false s) ≡ none
replace_segments-split_host_port s =
    split_host_port-none (replace_segments false s)
      (has_byte-replace_segments colon false s refl refl)
      (rw (has_byte-replace_segments left_bracket false s refl refl)
        (has_byte-replace_segments right_bracket false s refl refl))

replace_segments-join_host_port :
    (d host port : Text)
    → split_host_port d ≡ some (host, port)
    → split_host_port (join_host_port (replace_segments false host) port)
      ≡ some (replace_segments false host, port)
replace_segments-join_host_port d host port e =
    let (no_colon, no_left, no_right) = split_host_port-port d host port e in
    split_host_port-join_host_port (replace_segments false host) port
      (has_byte-replace_segments colon false host refl refl)
      (rw (has_byte-replace_segments left_bracket false host refl refl)
        (has_byte-replace_segments right_bracket false host refl refl))
      no_colon (rw no_left no_right)

globbed_domain-none :
    (d : Text) → split_host_port d ≡ none → globbed_domain d ≡ replace_segments false d
unfolding globbed_domain
globbed_domain-none d e = ground arith

globbed_domain-some :
    (d host port : Text)
    → split_host_port d ≡ some (host, port)
    → globbed_domain d ≡ join_host_port (replace_segments false host) port
unfolding globbed_domain
globbed_domain-some d host port e = ground arith

-- Globbing replaces each part of the host that is not empty by a star, and keeps the port.
pub split_host-globbed_domain :
    (d : Text) → split_host (globbed_domain d) ≡ (map starred (split_host d).0, (split_host d).1)
split_host-globbed_domain d = elim (Option-cases (split_host_port d)) [
  | inl e ↦
      rw (globbed_domain-none d e, split_host-none d e)
        (split_host-none _ (replace_segments-split_host_port d)
          ∙ ap (λ parts. (parts, [])) (split-replace_segments false d))
  | inr (hp, e) ↦
      rw (globbed_domain-some d hp.0 hp.1 e, split_host-some d hp.0 hp.1 e)
        (split_host-some _ _ _ (replace_segments-join_host_port d hp.0 hp.1 e)
          ∙ ap (λ parts. (parts, hp.1)) (split-replace_segments false hp.0))
]

-- The key that GlobbedDomainForImage makes of a domain covers every image of that domain, whatever
-- its path, if the domain holds no slash and the key no path.
pub urls_match-globbed_domain :
    (glob target : Url)
    → glob.host ≡ globbed_domain target.host
    → glob.path ≡ []
    → has_byte separator target.host ≡ false
    → urls_match glob target ≡ ok true
unfolding split_url has_prefix
urls_match-globbed_domain glob target e no_path no_slash = (urls_match_iff glob target).1 (record {
  same_port = rw (e, split_host-globbed_domain target.host);
  parts =
      rw (e, split_host-globbed_domain target.host)
        (starred-MatchesAll _
          (split_host-all_bytes _ target.host (all_bytes-has_byte separator target.host no_slash)));
  path_prefix = rw no_path;
})
