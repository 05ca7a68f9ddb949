-- ===== src/Tests/Matching.antt =====
-- pkg/urlglobber at concrete hosts.
use dynamic_credential_provi.Base.{
  all_bytes, codes, cut, false, has_byte, has_prefix, ok, refl, text_eq, true, ◌↔◌, ◌≡◌,
}
use dynamic_credential_provi.Go.Strings.{split}
use dynamic_credential_provi.Go.HostPort.{split_host_port, join_host_port}
use dynamic_credential_provi.Tests.Samples.{url, plain_lib}
use dynamic_credential_provi.Go.Glob.{filepath_match}
use dynamic_credential_provi.Urlglobber.Url.{parse_potentially_schemeless_url}
use dynamic_credential_provi.Urlglobber.Globber.{globbed_domain}
use dynamic_credential_provi.Urlglobber.Matcher.{urls_match, urls_match_str, split_url, split_host}
use dynamic_credential_provi.Urlglobber.Matcher.Plain.{urls_match-is_plain}
use dynamic_credential_provi.Urlglobber.Matcher.Spec.{Covers, urls_match_iff}
use dynamic_credential_provi.Urlglobber.Globber.Covering.{urls_match-globbed_domain}

matches_subdomain :
    urls_match (url "*.kubernetes.io" "/blah") (url "prefix.kubernetes.io" "/blah/x") ≡ ok true
unfolding urls_match split_url split_host split_host_port split filepath_match has_prefix has_byte
    cut text_eq
matches_subdomain = refl

port_mismatch :
    urls_match (url "prefix.*.io" "/foo") (url "prefix.kubernetes.io:1111" "/foo/bar") ≡ ok false
unfolding urls_match split_url split_host split_host_port split filepath_match has_prefix has_byte
    cut text_eq
port_mismatch = refl

partial_part : urls_match (url "k*.io" "") (url "quay.io" "") ≡ ok false
unfolding urls_match split_url split_host split_host_port split filepath_match has_prefix has_byte
    cut text_eq
partial_part = refl

globbed_with_port : globbed_domain (codes "prefix.kubernetes.io:1111") ≡ codes "*.*.*:1111"
unfolding globbed_domain join_host_port split_host_port has_byte cut
globbed_with_port = refl

scheme_ignored :
    urls_match_str plain_lib (codes "https://*.kubernetes.io") (codes "prefix.kubernetes.io")
    ≡ ok true
unfolding urls_match_str parse_potentially_schemeless_url plain_lib urls_match split_url split_host
    split_host_port split filepath_match has_prefix has_byte cut text_eq
scheme_ignored = refl

urls_match_iff_example :
    (urls_match (url "k*.io" "/a") (url "kube.io" "/a/b") ≡ ok true)
    ↔ Covers (url "k*.io" "/a") (url "kube.io" "/a/b")
urls_match_iff_example = urls_match_iff (url "k*.io" "/a") (url "kube.io" "/a/b")

urls_match-is_plain_example :
    (urls_match (url "quay.io" "/org") (url "quay.io" "/org/app") ≡ ok true) ↔ (
      (split_host (codes "quay.io") ≡ split_host (codes "quay.io"))
      × (has_prefix (codes "/org/app") (codes "/org") ≡ true))
unfolding all_bytes
urls_match-is_plain_example =
    urls_match-is_plain (url "quay.io" "/org") (url "quay.io" "/org/app") refl

urls_match-globbed_domain_example :
    urls_match (url "*.*.*:1111" "") (url "prefix.kubernetes.io:1111" "/foo/bar") ≡ ok true
unfolding globbed_domain join_host_port split_host_port has_byte cut
urls_match-globbed_domain_example =
    urls_match-globbed_domain (url "*.*.*:1111" "") (url "prefix.kubernetes.io:1111" "/foo/bar")
      refl refl refl
