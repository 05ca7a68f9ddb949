-- ===== src/Base/Bytes.antt =====
-- Go strings as byte sequences, with the comparisons that the language and `strings` give.
use Prim.Native.Nat.{ℕ}
use Prim.Native.Char.{code}
use Prim.Native.String.{String}
use mathlib.Core.Path.{◌≡◌, refl}
use mathlib.Core.Logic.{◌↔◌, ◌⊎◌, ◌≢◌, inl, inr}
use mathlib.Core.Bool.{Bool, true, false, not, ◌&&◌}
use mathlib.Core.Option.{Option, none, some}
use mathlib.Core.List.{List, [], ◌∷◌, ◌++◌}
use native.Mathlib.Omega.{arith}
use dynamic_credential_provi.Base.Tests.{ltb, ◌==◌, if◌then◌else◌, Option-cases}

abbrev pub Text : Type 0
Text = List ℕ

-- The bytes of an ASCII literal.
abbrev pub codes : String → Text
codes String.[] = []
codes (String.◌∷◌ c s) = code c ∷ codes s

-- `a == b` on strings.
unfoldable pub text_eq : Text → Text → Bool
text_eq [] [] = true
text_eq [] (y ∷ ys) = false
text_eq (x ∷ xs) [] = false
text_eq (x ∷ xs) (y ∷ ys) = x == y && text_eq xs ys

pub text_eq→eq : (a b : Text) → text_eq a b ≡ true → a ≡ b
unfolding text_eq
text_eq→eq [] [] h = refl
text_eq→eq [] (y ∷ ys) h = cc
text_eq→eq (x ∷ xs) [] h = cc
text_eq→eq (x ∷ xs) (y ∷ ys) h = ground (arith, text_eq→eq xs ys)

pub text_eq_refl : (a : Text) → text_eq a a ≡ true
unfolding text_eq
text_eq_refl [] = refl
text_eq_refl (x ∷ xs) = ground (arith, text_eq_refl xs)

pub text_eq_iff : (a b : Text) → (text_eq a b ≡ true) ↔ (a ≡ b)
text_eq_iff a b = (text_eq→eq a b, λ e. rw e (text_eq_refl b))

pub Text-cases : (a : Text) → (a ≡ []) ⊎ (a ≢ [])
Text-cases [] = inl refl
Text-cases (x ∷ a) = inr (λ e. cc)

pub text_eq→ne : (a b : Text) → text_eq a b ≡ false → a ≢ b
text_eq→ne a b h e = ground (arith, text_eq_iff a b)

pub text_eq-false : (a b : Text) → a ≢ b → text_eq a b ≡ false
text_eq-false a b n = ground (arith, text_eq_iff a b)

-- `a < b` on strings: bytewise and lexicographic.
unfoldable pub text_lt : Text → Text → Bool
text_lt [] [] = false
text_lt [] (y ∷ ys) = true
text_lt (x ∷ xs) [] = false
text_lt (x ∷ xs) (y ∷ ys) = if ltb x y then true else if ltb y x then false else text_lt xs ys

pub text_lt_irrefl : (a : Text) → text_lt a a ≡ false
unfolding text_lt
text_lt_irrefl [] = refl
text_lt_irrefl (x ∷ xs) = ground (arith, text_lt_irrefl xs)

pub text_lt_asymm : (a b : Text) → text_lt a b ≡ true → text_lt b a ≡ false
unfolding text_lt
text_lt_asymm [] [] h = refl
text_lt_asymm [] (y ∷ ys) h = refl
text_lt_asymm (x ∷ xs) [] h = cc
text_lt_asymm (x ∷ xs) (y ∷ ys) h = ground (arith, text_lt_asymm xs ys)

pub text_lt_trans : (a b c : Text) → text_lt a b ≡ true → text_lt b c ≡ true → text_lt a c ≡ true
unfolding text_lt
text_lt_trans [] [] c h k = cc
text_lt_trans [] (y ∷ ys) [] h k = cc
text_lt_trans [] (y ∷ ys) (z ∷ zs) h k = refl
text_lt_trans (x ∷ xs) [] c h k = cc
text_lt_trans (x ∷ xs) (y ∷ ys) [] h k = cc
text_lt_trans (x ∷ xs) (y ∷ ys) (z ∷ zs) h k = ground (arith, text_lt_trans xs ys zs)

-- Not being greater is transitive, since the order is total.
pub text_lt_le_trans :
    (a b c : Text) → text_lt b a ≡ false → text_lt c b ≡ false → text_lt c a ≡ false
unfolding text_lt
text_lt_le_trans [] b [] h k = refl
text_lt_le_trans [] b (z ∷ zs) h k = refl
text_lt_le_trans (x ∷ xs) [] c h k = cc
text_lt_le_trans (x ∷ xs) (y ∷ ys) [] h k = cc
text_lt_le_trans (x ∷ xs) (y ∷ ys) (z ∷ zs) h k = ground (arith, text_lt_le_trans xs ys zs)

pub text_lt_antisym : (a b : Text) → text_lt a b ≡ false → text_lt b a ≡ false → a ≡ b
unfolding text_lt
text_lt_antisym [] [] h k = refl
text_lt_antisym [] (y ∷ ys) h k = cc
text_lt_antisym (x ∷ xs) [] h k = cc
text_lt_antisym (x ∷ xs) (y ∷ ys) h k = ground (arith, text_lt_antisym xs ys)

-- `strings.HasPrefix(s, prefix)`.
unfoldable pub has_prefix : Text → Text → Bool
has_prefix s [] = true
has_prefix [] (p ∷ ps) = false
has_prefix (c ∷ s) (p ∷ ps) = c == p && has_prefix s ps

-- `strings.TrimPrefix(s, prefix)`: what is left behind the prefix, or `s` where it has none.
strip : Text → Text → Option Text
strip s [] = some s
strip [] (p ∷ ps) = none
strip (c ∷ s) (p ∷ ps) = let rest = strip s ps in if c == p then rest else none

strip-append : (p s : Text) → strip (p ++ s) p ≡ some s
unfolding strip
strip-append [] s = refl
strip-append (c ∷ p) s = ground (arith, strip-append p s)

unfoldable pub trim_prefix : Text → Text → Text
unfolding strip
trim_prefix s prefix = elim (strip s prefix) [ some rest ↦ rest | none ↦ s ]

pub trim_prefix-append : (p s : Text) → trim_prefix (p ++ s) p ≡ s
unfolding trim_prefix
trim_prefix-append p s = rw (strip-append, trim_prefix)

-- `strings.IndexByte(s, c) >= 0`.
unfoldable pub has_byte : ℕ → Text → Bool
has_byte c [] = false
has_byte c (x ∷ xs) = if x == c then true else has_byte c xs

-- Every byte passes the test.
unfoldable pub all_bytes : (ℕ → Bool) → Text → Bool
all_bytes p [] = true
all_bytes p (x ∷ xs) = if p x then all_bytes p xs else false

pub all_bytes-has_byte :
    (c : ℕ) (s : Text) → has_byte c s ≡ false → all_bytes (λ x. not (x == c)) s ≡ true
unfolding all_bytes has_byte
all_bytes-has_byte c [] h = refl
all_bytes-has_byte c (x ∷ s) h = ground (arith, all_bytes-has_byte c s)

pub has_byte-all_bytes :
    (c : ℕ) (s : Text) → all_bytes (λ x. not (x == c)) s ≡ true → has_byte c s ≡ false
unfolding all_bytes has_byte
has_byte-all_bytes c [] h = refl
has_byte-all_bytes c (x ∷ s) h = ground (arith, has_byte-all_bytes c s)

-- The text before the first `c`, and the text behind it.
unfoldable pub cut : ℕ → Text → Option (Text × Text)
cut c [] = none
cut c (x ∷ xs) =
    let rest = cut c xs in
    if x == c then some ([], xs) else elim rest [ none ↦ none | some (a, b) ↦ some (x ∷ a, b) ]

-- What passes before a cut passes in both parts.
pub all_bytes-cut :
    (p : ℕ → Bool) (c : ℕ) (s a b : Text)
    → cut c s ≡ some (a, b)
    → all_bytes p s ≡ true
    → (all_bytes p a ≡ true) × (all_bytes p b ≡ true)
unfolding all_bytes cut
all_bytes-cut p c [] a b e h = cc
all_bytes-cut p c (x ∷ s) a b e h = elim (Option-cases (cut c s)) [
  | inl q ↦ ground arith
  | inr (r, q) ↦ ground (arith, all_bytes-cut p c s r.0 r.1)
]
