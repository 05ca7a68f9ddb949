-- ===== src/Base/Errors.antt =====
-- Go errors and the ways in which a call ends.
use Prim.Native.String.{String}
use mathlib.Core.Path.{◌≡◌, refl}
use mathlib.Core.Logic.{◌⊎◌, inl, inr}
use mathlib.Core.List.{List}
use mathlib.Core.Bool.{Bool, true, false}
use dynamic_credential_provi.Base.Tests.{if◌then◌else◌}
use dynamic_credential_provi.Base.Bytes.{Text}

-- The `errors.New` variables of the program's packages.
pub data Sentinel : Type 0 where
  unsupported_mirror_credential_strategy invalid_image_reference : Sentinel
  invalid_credential_provider_response : Sentinel
  empty_image_in_request nil_credential_provider_response unsupported_api_version : Sentinel
  unsupported_request_kind conversion_failure : Sentinel

-- `leaf` is an error of another package or a fresh `Errorf`: its format and the texts put in.
-- `wrap` is an `Errorf` with one `%w`, and `both` one with two, or a join of two errors.
pub data GoError : Type 0 where
  sentinel : Sentinel → GoError
  leaf : String → List Text → GoError
  wrap : String → List Text → GoError → GoError
  both : GoError → GoError → GoError

-- The process ends without returning an error.
pub data Crash : Type 0 where
  nil_dereference index_out_of_range fatal : Crash

pub data Result {ℓ} (A : Type ℓ) : Type ℓ where
  ok : A → Result A
  err : GoError → Result A
  crash : Crash → Result A

infixl 5 ◌>>=◌
abbrev pub ◌>>=◌ {ℓ κ} : {A : Type ℓ} {B : Type κ} → Result A → (A → Result B) → Result B
ok a >>= f = f a
err e >>= f = err e
crash c >>= f = crash c

-- `if err != nil { return nil, fmt.Errorf("...: %w", err) }`
abbrev pub wrapping {ℓ} : {A : Type ℓ} → String → List Text → Result A → Result A
wrapping format args (ok a) = ok a
wrapping format args (err e) = err (wrap format args e)
wrapping format args (crash c) = crash c

pub ok-injective {ℓ} : {A : Type ℓ} {a b : A} → ok a ≡ ok b → a ≡ b
ok-injective h = cc

-- Both steps of a chain have succeeded, the first with `fst`.
abbrev pub BothRan {ℓ κ} : {A : Type ℓ} {B : Type κ} → Result A → (A → Result B) → B → Type (ℓ ⊔ κ)
BothRan first next end = (fst : _) × (first ≡ ok fst) × (next fst ≡ ok end)

pub bind-ok {ℓ κ} :
    {A : Type ℓ} {B : Type κ} (first : Result A) (next : A → Result B) {end : B}
    → (first >>= next) ≡ ok end
    → BothRan first next end
bind-ok (crash why) next run = cc
bind-ok (err why) next run = cc
bind-ok (ok fst) next run = (fst, refl, run)

-- A guard that lets the call go on.
pub guarded-eq-ok {ℓ} :
    {A : Type ℓ} (b : Bool) (e : GoError) (r : Result A) {a : A}
    → (if b then err e else r) ≡ ok a
    → (b ≡ false) × (r ≡ ok a)
guarded-eq-ok true e r h = cc
guarded-eq-ok false e r h = (refl, h)

pub wrapping-eq-ok {ℓ} :
    {A : Type ℓ} (format : String) (args : List Text) (m : Result A) {a : A}
    → wrapping format args m ≡ ok a
    → m ≡ ok a
wrapping-eq-ok format args (ok a) h = h
wrapping-eq-ok format args (err e) h = cc
wrapping-eq-ok format args (crash c) h = cc

-- `errors.Is(e, s)`.
abbrev pub Wraps : Sentinel → GoError → Type 0
Wraps s (sentinel t) = s ≡ t
Wraps s (leaf _ _) = ⊥
Wraps s (wrap _ _ e) = Wraps s e
Wraps s (both e f) = Wraps s e ⊎ Wraps s f

pub Result-cases {ℓ} :
    {A : Type ℓ} (r : Result A)
    → ((c : Crash) × (r ≡ crash c)) ⊎ ((e : GoError) × (r ≡ err e)) ⊎ ((a : A) × (r ≡ ok a))
Result-cases (ok a) = inr (inr (a, refl))
Result-cases (err e) = inr (inl (e, refl))
Result-cases (crash c) = inl (c, refl)
