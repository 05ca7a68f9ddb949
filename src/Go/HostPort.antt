-- ===== src/Go/HostPort.antt =====
-- `net.SplitHostPort` and `net.JoinHostPort`. The callers ask only whether there is an error, so
-- the model has one: `none`.
pub mod Laws
use dynamic_credential_provi.Base.{
  Bool, Option, Text, [], cut, has_byte, if◌then◌else◌, none, some, ℕ, ◌++◌, ◌==◌, ◌||◌, ◌∷◌,
}

abbrev pub colon : ℕ
colon = b':'

abbrev pub left_bracket : ℕ
left_bracket = b'['

abbrev pub right_bracket : ℕ
right_bracket = b']'

-- `s` holds a byte that may not stand in a port.
abbrev pub has_bracket : Text → Bool
has_bracket s = has_byte left_bracket s || has_byte right_bracket s

-- Behind the `]`: a colon, which has to be the last one, and the port.
abbrev pub bracketed : Text → Text → Option (Text × Text)
bracketed host [] = none
bracketed host (c ∷ port) =
    if c == colon
    then (if has_byte colon port || has_bracket port || has_byte left_bracket host
        then none
        else some (host, port))
    else none

-- No bracket in front: the first colon has to be the last one.
abbrev pub plain : Text → Text → Option (Text × Text)
plain host port =
    if has_byte colon port || has_bracket port || has_bracket host then none else some (host, port)

unfoldable pub split_host_port : Text → Option (Text × Text)
split_host_port [] = none
split_host_port (c ∷ s) =
    if c == left_bracket
    then elim (cut right_bracket s) [ none ↦ none | some (host, rest) ↦ bracketed host rest ]
    else elim (cut colon (c ∷ s)) [ none ↦ none | some (host, port) ↦ plain host port ]

unfoldable pub join_host_port : Text → Text → Text
join_host_port host port =
    if has_byte colon host
    then left_bracket ∷ (host ++ right_bracket ∷ colon ∷ port)
    else host ++ colon ∷ port
