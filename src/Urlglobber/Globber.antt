-- ===== src/Urlglobber/Globber.antt =====
-- pkg/urlglobber/globber.go: GlobbedDomainForImage.
pub mod Covering
use dynamic_credential_provi.Base.{
  Bool, Result, Text, [], both, crash, err, false, if◌then◌else◌, invalid_image_reference, none,
  not, ok, sentinel, some, ◌==◌, ◌∷◌,
}
use dynamic_credential_provi.Go.Glob.{star_byte}
use dynamic_credential_provi.Go.HostPort.{split_host_port, join_host_port}
use dynamic_credential_provi.Urlglobber.Matcher.{dot}

-- `github.com/distribution/reference`: ParseNormalizedNamed and Domain.
pub record ReferenceLib : Type 1 where
  pub Named : Type 0
  pub parse_normalized_named : Text → Result Named
  pub domain : Named → Text

-- `domainSegmentRE.ReplaceAllLiteralString(domain, "*")`: each longest run of bytes other than a
-- dot becomes one star. The flag says that the byte before belongs to a run.
unfoldable pub replace_segments : Bool → Text → Text
replace_segments in_run [] = []
replace_segments in_run (c ∷ s) =
    let rest = replace_segments (not (c == dot)) s in
    if c == dot then dot ∷ rest else if in_run then rest else star_byte ∷ rest

-- The body behind the parse: the port, if there is one, stays.
unfoldable pub globbed_domain : Text → Text
unfolding replace_segments
globbed_domain domain = elim (split_host_port domain) [
  | none ↦ replace_segments false domain
  | some (host, port) ↦ join_host_port (replace_segments false host) port
]

module _ (lib : ReferenceLib) where
  unfoldable pub globbed_domain_for_image : Text → Result Text
  globbed_domain_for_image img = elim (lib.parse_normalized_named img) [
    | ok named ↦ ok (globbed_domain (lib.domain named))
    | err e ↦ err (both (sentinel invalid_image_reference) e)
    | crash c ↦ crash c
  ]
