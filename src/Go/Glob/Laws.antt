-- ===== src/Go/Glob/Laws.antt =====
-- The two patterns whose meaning the program relies on: a lone star, and a plain text.
use dynamic_credential_provi.Base.{
  Bool, Text, [], all_bytes, arith, has_byte, map, not, refl, some, text_eq, true, ℕ, ◌==◌, ◌||◌,
  ◌∷◌, ◌≡◌,
}
use dynamic_credential_provi.Go.Glob.{
  star, literal, top, star_byte, separator, backslash, compile, step, top_step, run, accepts,
  filepath_match,
}

run-star : (s : Text) → run (star ∷ []) s ≡ not (has_byte separator s)
unfolding run accepts has_byte
run-star [] = refl
run-star (c ∷ s) = ground (arith, run-star s)

-- A lone star matches exactly the names with no separator.
pub filepath_match-star :
    (s : Text) → filepath_match (star_byte ∷ []) s ≡ some (not (has_byte separator s))
unfolding filepath_match compile step top_step
filepath_match-star s = ground (arith, run-star s)

-- A byte that stands for itself outside brackets.
abbrev pub is_special : ℕ → Bool
is_special c = c == star_byte || c == b'?' || c == backslash || c == b'['

-- No byte of the text is special.
abbrev pub is_plain : Text → Bool
is_plain = all_bytes (λ c. not (is_special c))

compile-is_plain : (s : Text) → is_plain s ≡ true → compile top s ≡ some (map literal s)
unfolding compile step top_step all_bytes
compile-is_plain [] h = refl
compile-is_plain (c ∷ s) h = ground (arith, compile-is_plain s)

run-literal : (p s : Text) → run (map literal p) s ≡ text_eq p s
unfolding run accepts text_eq
run-literal [] [] = refl
run-literal [] (c ∷ s) = refl
run-literal (x ∷ p) [] = refl
run-literal (x ∷ p) (c ∷ s) = ground (arith, run-literal p s)

-- A pattern with no special byte matches its own text and no other.
pub filepath_match-is_plain :
    (p s : Text) → is_plain p ≡ true → filepath_match p s ≡ some (text_eq p s)
unfolding filepath_match
filepath_match-is_plain p s h = ground (arith, compile-is_plain p, run-literal p s)
