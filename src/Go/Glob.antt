-- ===== src/Go/Glob.antt =====
-- `filepath.Match` on Unix, after its documented grammar, over the bytes of ASCII names. `none` is
-- `ErrBadPattern`, which is reported wherever the fault stands in the pattern.
pub mod Laws
use dynamic_credential_provi.Base.{
  Bool, List, Option, Text, [], false, if◌then◌else◌, leb, map, none, not, some, true, ℕ, ◌&&◌,
  ◌++◌, ◌==◌, ◌||◌, ◌∷◌,
}
use mathlib.Core.Bool.{xor}
use mathlib.Core.Option

abbrev pub Spans : Type 0
Spans = List (ℕ × ℕ)

-- `star` takes any run of bytes but `/`.
pub data Item : Type 0 where
  star any_byte : Item
  literal : ℕ → Item
  class : Bool → Spans → Item

-- Where the reader of a pattern stands.
pub data Mode : Type 0 where
  top escape class_start : Mode
  low low_escape : Bool → Spans → Mode
  after_low high high_escape : Bool → Spans → ℕ → Mode

abbrev pub star_byte : ℕ
star_byte = b'*'

abbrev pub separator : ℕ
separator = b'/'

abbrev pub backslash : ℕ
backslash = 92

abbrev pub Step : Type 0
Step = Option (Mode × List Item)

top_step : ℕ → Step
top_step c =
    if c == star_byte
    then some (top, star ∷ [])
    else if c == b'?'
    then some (top, any_byte ∷ [])
    else if c == backslash
    then some (escape, [])
    else if c == b'['
    then some (class_start, [])
    else some (top, literal c ∷ [])

close : Bool → Spans → Step
close negated [] = none
close negated (s ∷ spans) = some (top, class negated (s ∷ spans) ∷ [])

low_step : Bool → Spans → ℕ → Step
low_step negated spans c =
    if c == b']'
    then close negated spans
    else if c == b'-'
    then none
    else if c == backslash
    then some (low_escape negated spans, [])
    else some (after_low negated spans c, [])

step : Mode → ℕ → Step
step top c = top_step c
step escape c = some (top, literal c ∷ [])
step class_start c = if c == b'^' then some (low true [], []) else low_step false [] c
step (low negated spans) c = low_step negated spans c
step (low_escape negated spans) c = some (after_low negated spans c, [])
step (after_low negated spans lo) c =
    if c == b'-'
    then some (high negated spans lo, [])
    else low_step negated (spans ++ (lo, lo) ∷ []) c
step (high negated spans lo) c =
    if c == b']'
    then none
    else if c == b'-'
    then none
    else if c == backslash
    then some (high_escape negated spans lo, [])
    else some (low negated (spans ++ (lo, c) ∷ []), [])
step (high_escape negated spans lo) c = some (low negated (spans ++ (lo, c) ∷ []), [])

compile : Mode → Text → Option (List Item)
compile top [] = some []
compile _ [] = none
compile m (c ∷ s) = elim (step m c) [
  | none ↦ none
  | some (m', out) ↦ Option.map (λ items. out ++ items) (compile m' s)
]

in_spans : Spans → ℕ → Bool
in_spans [] c = false
in_spans ((lo, hi) ∷ spans) c = leb lo c && leb c hi || in_spans spans c

accepts : Item → ℕ → Bool
accepts (class negated spans) byte = xor negated (in_spans spans byte)
accepts (literal x) byte = byte == x
accepts any_byte byte = not (byte == separator)
accepts star byte = not (byte == separator)

run : List Item → Text → Bool
run [] [] = true
run [] (c ∷ s) = false
run (star ∷ p) [] = run p []
run (star ∷ p) (c ∷ s) = elim (run p (c ∷ s)) [
  | true ↦ true
  | false ↦ elim (accepts star c) [ true ↦ run (star ∷ p) s | false ↦ false ]
]
run (item ∷ p) [] = false
run (item ∷ p) (c ∷ s) = elim (accepts item c) [ true ↦ run p s | false ↦ false ]

unfoldable pub filepath_match : Text → Text → Option Bool
unfolding compile step top_step low_step close run accepts in_spans xor
filepath_match pattern name = Option.map (λ items. run items name) (compile top pattern)
