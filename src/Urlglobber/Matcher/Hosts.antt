-- ===== src/Urlglobber/Matcher/Hosts.antt =====
-- SplitURL on each kind of host, and the bytes of its parts.
use dynamic_credential_provi.Base.{
  All, Bool, Option-cases, Text, [], all_bytes, arith, inl, inr, none, some, true, ℕ, ◌≡◌,
}
use dynamic_credential_provi.Go.HostPort.{split_host_port}
use dynamic_credential_provi.Go.Strings.{split, split-all_bytes}
use dynamic_credential_provi.Go.HostPort.Laws.{split_host_port-all_bytes}
use dynamic_credential_provi.Urlglobber.Matcher.{split_host, dot}

pub split_host-none : (d : Text) → split_host_port d ≡ none → split_host d ≡ (split dot d, [])
unfolding split_host
split_host-none d e = ground arith

pub split_host-some :
    (d host port : Text)
    → split_host_port d ≡ some (host, port)
    → split_host d ≡ (split dot host, port)
unfolding split_host
split_host-some d host port e = ground arith

pub split_host-all_bytes :
    (p : ℕ → Bool) (d : Text)
    → all_bytes p d ≡ true
    → All (λ part. all_bytes p part ≡ true) (split_host d).0
split_host-all_bytes p d h = elim (Option-cases (split_host_port d)) [
  | inl e ↦ rw (split_host-none d e) (split-all_bytes p dot d h)
  | inr (hp, e) ↦
      rw (split_host-some d hp.0 hp.1 e)
        (split-all_bytes p dot hp.0 (split_host_port-all_bytes p d hp.0 hp.1 e h))
]
