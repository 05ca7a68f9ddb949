-- ===== src/Go/Strings.antt =====
-- `strings.Split` on one byte, and its inverse.
use dynamic_credential_provi.Base.{
  All, Bool, Bool-cases, List, Text, [], all_bytes, arith, false, if◌then◌else◌, inl, inr, refl,
  true, ℕ, ◌++◌, ◌==◌, ◌∷◌, ◌≡◌, ◌≢◌,
}

-- Puts a byte in front of the first part.
abbrev pub push : ℕ → List Text → List Text
push c [] = (c ∷ []) ∷ []
push c (part ∷ parts) = (c ∷ part) ∷ parts

-- `strings.Split(s, sep)` for a separator of one byte: never empty, and `""` gives one empty part.
unfoldable pub split : ℕ → Text → List Text
split sep [] = [] ∷ []
split sep (c ∷ s) = let rest = split sep s in if c == sep then [] ∷ rest else push c rest

-- The text whose parts these are, for a list that is not empty.
unfoldable pub join : ℕ → List Text → Text
join sep [] = []
join sep (part ∷ []) = part
join sep (part ∷ p ∷ parts) = part ++ sep ∷ join sep (p ∷ parts)

pub split_cons : (sep : ℕ) (s : Text) → split sep s ≢ []
unfolding split
split_cons sep [] h = cc
split_cons sep (c ∷ s) h = ground (arith, split_cons sep s)

pub split_sep : (sep c : ℕ) (s : Text) → (c == sep) ≡ true → split sep (c ∷ s) ≡ [] ∷ split sep s
unfolding split
split_sep sep c s h = rw h

pub split_other :
    (sep c : ℕ) (s : Text) → (c == sep) ≡ false → split sep (c ∷ s) ≡ push c (split sep s)
unfolding split
split_other sep c s h = rw h

push-all_bytes :
    (p : ℕ → Bool) (c : ℕ) (parts : List Text)
    → p c ≡ true
    → All (λ part. all_bytes p part ≡ true) parts
    → All (λ part. all_bytes p part ≡ true) (push c parts)
unfolding all_bytes
push-all_bytes p c [] h a = (rw h, tt)
push-all_bytes p c (part ∷ parts) h a = (rw h a.0, a.1)

-- The parts of a text are made of its bytes.
pub split-all_bytes :
    (p : ℕ → Bool) (sep : ℕ) (s : Text)
    → all_bytes p s ≡ true
    → All (λ part. all_bytes p part ≡ true) (split sep s)
unfolding split all_bytes
split-all_bytes p sep [] h = (refl, tt)
split-all_bytes p sep (c ∷ s) h =
    let here : p c ≡ true = ground arith in
    let rest : All (λ part. all_bytes p part ≡ true) (split sep s) =
      split-all_bytes p sep s (ground arith) in
    elim (Bool-cases (c == sep)) [
      | inl e ↦ rw e (refl, rest)
      | inr e ↦ rw e (push-all_bytes p c (split sep s) here rest)
    ]
