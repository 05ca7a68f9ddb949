-- ===== src/Go/HostPort/Laws.antt =====
-- What a split gives, and that splitting undoes joining.
use dynamic_credential_provi.Base.{
  Bool, Bool-cases, Text, [], all_bytes, all_bytes-cut, arith, cut, false, has_byte, inl, inr, none,
  refl, some, true, ℕ, ◌++◌, ◌==◌, ◌∷◌, ◌≡◌,
}
use dynamic_credential_provi.Go.HostPort.{
  right_bracket, colon, left_bracket, right_bracket, has_bracket, split_host_port, join_host_port,
}

pub cut-append : (c : ℕ) (a b : Text) → has_byte c a ≡ false → cut c (a ++ c ∷ b) ≡ some (a, b)
unfolding cut has_byte
cut-append c [] b h = ground arith
cut-append c (x ∷ a) b h = ground (arith, cut-append c a b)

pub cut-has_byte : (c : ℕ) (s : Text) → has_byte c s ≡ false → cut c s ≡ none
unfolding cut has_byte
cut-has_byte c [] h = refl
cut-has_byte c (x ∷ s) h = ground (arith, cut-has_byte c s)

-- The port of a split has no colon and no bracket.
pub split_host_port-port :
    (s host port : Text)
    → split_host_port s ≡ some (host, port)
    → (has_byte colon port ≡ false)
      × (has_byte left_bracket port ≡ false)
      × (has_byte right_bracket port ≡ false)
unfolding split_host_port
split_host_port-port [] host port h = cc
split_host_port-port (c ∷ s) host port h = ground arith

-- Joining a plain host and a plain port and splitting again gives both back.
pub split_host_port-join_host_port :
    (host port : Text)
    → has_byte colon host ≡ false
    → has_bracket host ≡ false
    → has_byte colon port ≡ false
    → has_bracket port ≡ false
    → split_host_port (join_host_port host port) ≡ some (host, port)
unfolding split_host_port join_host_port has_byte cut
split_host_port-join_host_port [] port hc hb pc pb = ground arith
split_host_port-join_host_port (c ∷ host) port hc hb pc pb =
    ground (arith, cut-append colon host port)

-- Without a colon there is no port.
pub split_host_port-none :
    (s : Text) → has_byte colon s ≡ false → has_bracket s ≡ false → split_host_port s ≡ none
unfolding split_host_port has_byte
split_host_port-none [] h k = refl
split_host_port-none (c ∷ s) h k = ground (arith, cut-has_byte colon (c ∷ s))

-- The host of a split is made of the text's bytes.
pub split_host_port-all_bytes :
    (p : ℕ → Bool) (s host port : Text)
    → split_host_port s ≡ some (host, port)
    → all_bytes p s ≡ true
    → all_bytes p host ≡ true
unfolding split_host_port all_bytes
split_host_port-all_bytes p [] host port e h = cc
split_host_port-all_bytes p (c ∷ s) host port e h = elim (Bool-cases (c == left_bracket)) [
  | inl bracket ↦ ground (arith, all_bytes-cut p right_bracket s host (colon ∷ port))
  | inr other ↦ ground (arith, all_bytes-cut p colon (c ∷ s) host port)
]
