-- ===== src/Urlglobber/Matcher.antt =====
-- pkg/urlglobber/matcher.go: SplitURL, URLsMatch and URLsMatchStr.
pub mod Spec
pub mod Hosts
pub mod Plain
use dynamic_credential_provi.Base.{
  Bool, List, Result, Text, [], crash, err, false, get_elem?, has_prefix, if◌then◌else◌,
  index_out_of_range, leaf, length, none, not, ok, some, suc, text_eq, true, ℕ, ◌==◌, ◌>>=◌, ◌∷◌,
}
use dynamic_credential_provi.Go.Strings.{split}
use dynamic_credential_provi.Go.HostPort.{split_host_port}
use dynamic_credential_provi.Go.Glob.{filepath_match}
use dynamic_credential_provi.Urlglobber.Url.{Url, UrlLib, parse_potentially_schemeless_url}

abbrev pub dot : ℕ
dot = b'.'

-- The parts of the host and the port, which is empty where the host has none.
unfoldable pub split_host : Text → List Text × Text
split_host h = elim (split_host_port h) [
  | none ↦ (split dot h, [])
  | some (host, port) ↦ (split dot host, port)
]

unfoldable pub split_url : Url → List Text × Text
split_url u = split_host u.host

-- The loop over `globURLParts` from index `k`, with `targetURLParts[k]` read by index.
unfoldable pub match_parts : ℕ → List Text → List Text → Result Bool
match_parts k [] targets = ok true
match_parts k (glob ∷ globs) targets = elim (get_elem? targets k) [
  | none ↦ crash index_out_of_range
  | some target ↦ elim (filepath_match glob target) [
    | none ↦ err (leaf "syntax error in pattern" [])
    | some false ↦ ok false
    | some true ↦ match_parts (suc k) globs targets
  ]
]

unfoldable pub urls_match : Url → Url → Result Bool
unfolding match_parts
urls_match glob_url target_url =
    let (glob_parts, glob_port) = split_url glob_url in
    let (target_parts, target_port) = split_url target_url in
    if not (text_eq glob_port target_port)
    then ok false
    else if not (length glob_parts == length target_parts)
    then ok false
    else if not (has_prefix target_url.path glob_url.path)
    then ok false
    else match_parts 0 glob_parts target_parts

unfoldable pub urls_match_str : UrlLib → Text → Text → Result Bool
urls_match_str lib glob target = do
  glob_url ← parse_potentially_schemeless_url lib glob
  target_url ← parse_potentially_schemeless_url lib target
  urls_match glob_url target_url

-- `matched, _ := URLsMatchStr(glob, target)`: callers drop the error and read `false` with it.
unfoldable pub matched : UrlLib → Text → Text → Result Bool
matched lib glob target = elim (urls_match_str lib glob target) [
  | ok b ↦ ok b
  | err e ↦ ok false
  | crash c ↦ crash c
]
