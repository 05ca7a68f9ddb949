-- ===== src/Dynamic/Executor/Environment.antt =====
-- The environment that a plugin sees. `os/exec` takes the last of several entries for one name.
use dynamic_credential_provi.Base.{
  All, List, Option, Text, [], arith, cut, false, has_byte, if◌then◌else◌, none, refl, some,
  text_eq, ◌++◌, ◌∷◌, ◌≡◌,
}
use dynamic_credential_provi.Api.{EnvVar}
use dynamic_credential_provi.Dynamic.Executor.{config_env_vars, Runner, command_for, merge_env_vars}
use dynamic_credential_provi.Dynamic.Plugin.{ExecPlugin}

-- What an entry `name=value` gives for a name.
abbrev pub entry_value : Text → Text → Option Text
entry_value name entry = elim (cut b'=' entry) [
  | none ↦ none
  | some (key, value) ↦ if text_eq key name then some value else none
]

abbrev pub or_before : Option Text → Option Text → Option Text
or_before (some later) before = some later
or_before none before = before

abbrev pub effective : Text → List Text → Option Text
effective name [] = none
effective name (entry ∷ entries) = or_before (effective name entries) (entry_value name entry)

-- The last value that the configuration has for a name.
abbrev pub configured : Text → List EnvVar → Option Text
configured name [] = none
configured name (v ∷ env_vars) =
    or_before (configured name env_vars) (if text_eq v.name name then some v.value else none)

effective-append :
    (name : Text) (xs ys : List Text)
    → effective name (xs ++ ys) ≡ or_before (effective name ys) (effective name xs)
effective-append name [] ys = ground arith
effective-append name (x ∷ xs) ys = ground (arith, effective-append name xs ys)

cut-first :
    (key value : Text)
    → has_byte b'=' key ≡ false
    → cut b'=' (key ++ b'=' ∷ value) ≡ some (key, value)
unfolding cut has_byte
cut-first [] value h = ground arith
cut-first (c ∷ key) value h = ground (arith, cut-first key value)

effective-config_env_vars :
    (name : Text) (env_vars : List EnvVar)
    → All (λ (v : EnvVar). has_byte b'=' v.name ≡ false) env_vars
    → effective name (config_env_vars env_vars) ≡ configured name env_vars
unfolding config_env_vars
effective-config_env_vars name [] a = refl
effective-config_env_vars name (v ∷ env_vars) (h, a) =
    ground (arith, effective-config_env_vars name env_vars a, cut-first v.name v.value h)

-- A plugin sees the last value that its configuration has for a name, and the system's value for
-- other names, if no configured name contains an equals sign.
pub effective-command_for :
    (runner : Runner) (p : ExecPlugin) (request name : Text)
    → All (λ (v : EnvVar). has_byte b'=' v.name ≡ false) p.env_vars
    → effective name (command_for runner p request).env
      ≡ or_before (configured name p.env_vars) (effective name runner.environ)
unfolding command_for merge_env_vars
effective-command_for runner p request name a = rw (
  effective-append name runner.environ (config_env_vars p.env_vars),
  effective-config_env_vars name p.env_vars a,
)
