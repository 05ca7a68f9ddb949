-- ===== src/Api/DeepCopy.antt =====
-- The deep copies of apis/config/v1alpha1/zz_generated.deepcopy.go, over memory with addresses.
use dynamic_credential_provi.Base.{
  Option, Option-cases, Result, Text, ap, arith, crash, if◌then◌else◌, inl, inr, nil_dereference,
  none, ok, refl, some, ℕ, ◌+◌, ◌==◌, ◌>>=◌, ◌∙◌, ◌≡◌, ◌≢◌, ◌≤◌,
}
use dynamic_credential_provi.Api.{CredentialProviderConfig, MirrorConfig}

-- What the pointers of configurations point to. Addresses from `next` on are free.
pub record Memory : Type 0 where
  pub mirrors : ℕ → Option MirrorConfig
  pub provider_configs : ℕ → Option CredentialProviderConfig
  pub next : ℕ

-- A DynamicCredentialProviderConfig with its pointers; `none` is nil.
pub record ConfigObject : Type 0 where
  pub object_name : Text
  pub mirror_pointer : Option ℕ
  pub providers_pointer : Option ℕ
  pub bin_dir : Text

abbrev pub write_cell : {A : Type 0} → (ℕ → Option A) → ℕ → A → ℕ → Option A
write_cell cells a v b = if b == a then some v else cells b

-- `*out = new(MirrorConfig); **out = **in`
unfoldable pub copy_mirror : Option ℕ → Memory → Result (Memory × Option ℕ)
copy_mirror none m = ok (m, none)
copy_mirror (some a) m = elim (m.mirrors a) [
  | none ↦ crash nil_dereference
  | some v ↦
      ok (record m { mirrors = write_cell m.mirrors m.next v; next = m.next + 1 }, some m.next)
]

-- `copy_value` is the DeepCopyInto of the kubelet's type.
unfoldable pub copy_provider_config :
    (CredentialProviderConfig → CredentialProviderConfig)
    → Option ℕ
    → Memory
    → Result (Memory × Option ℕ)
copy_provider_config copy_value none m = ok (m, none)
copy_provider_config copy_value (some a) m = elim (m.provider_configs a) [
  | none ↦ crash nil_dereference
  | some v ↦ ok (
    record m {
      provider_configs = write_cell m.provider_configs m.next (copy_value v);
      next = m.next + 1;
    },
    some m.next,
  )
]

unfoldable pub deep_copy_into :
    (CredentialProviderConfig → CredentialProviderConfig)
    → ConfigObject
    → Memory
    → Result (Memory × ConfigObject)
deep_copy_into copy_value c m = do
  (m1, mirror) ← copy_mirror c.mirror_pointer m
  (m2, providers) ← copy_provider_config copy_value c.providers_pointer m1
  ok (m2, record c { mirror_pointer = mirror; providers_pointer = providers })

-- DeepCopy, and DeepCopyObject, of a pointer.
unfoldable pub deep_copy :
    (CredentialProviderConfig → CredentialProviderConfig)
    → Option ConfigObject
    → Memory
    → Result (Memory × Option ConfigObject)
deep_copy copy_value none m = ok (m, none)
deep_copy copy_value (some c) m = do (m', out) ← deep_copy_into copy_value c m; ok (m', some out)

-- DeepCopy of a pointer to a MirrorConfig.
unfoldable pub deep_copy_mirror : Option ℕ → Memory → Result (Memory × Option ℕ)
deep_copy_mirror none m = ok (m, none)
deep_copy_mirror (some from) m = elim (m.mirrors from) [
  | none ↦ crash nil_dereference
  | some v ↦
      ok (record m { mirrors = write_cell m.mirrors m.next v; next = m.next + 1 }, some m.next)
]

-- The cell behind a pointer; a nil pointer is `some none`, and `none` a pointer to nothing.
abbrev pub behind : {A : Type 0} → (ℕ → Option A) → Option ℕ → Option (Option A)
behind cells none = some none
behind cells (some a) = elim (cells a) [ none ↦ none | some v ↦ some (some v) ]

-- All pointers point into the memory, which has nothing at the free addresses.
pub record IsWhole (m : Memory) (c : ConfigObject) : Type 0 where
  pub mirror_there : behind m.mirrors c.mirror_pointer ≢ none
  pub providers_there : behind m.provider_configs c.providers_pointer ≢ none
  pub free_mirrors : (a : ℕ) → m.next ≤ a → m.mirrors a ≡ none
  pub free_providers : (a : ℕ) → m.next ≤ a → m.provider_configs a ≡ none

-- The pointed-to values are the same.
abbrev pub SameValue : Memory → ConfigObject → Memory → ConfigObject → Type 0
SameValue m c m' c' =
    (c'.object_name ≡ c.object_name)
    × (c'.bin_dir ≡ c.bin_dir)
    × (behind m'.mirrors c'.mirror_pointer ≡ behind m.mirrors c.mirror_pointer)
    × (behind m'.provider_configs c'.providers_pointer
        ≡ behind m.provider_configs c.providers_pointer)

-- The pointers of the copy are new: no address is shared.
abbrev pub SharesNothing : ConfigObject → ConfigObject → Type 0
SharesNothing c c' =
    ((a b : ℕ) → c.mirror_pointer ≡ some a → c'.mirror_pointer ≡ some b → a ≢ b)
    × ((a b : ℕ) → c.providers_pointer ≡ some a → c'.providers_pointer ≡ some b → a ≢ b)

copy_mirror_lem :
    (p : Option ℕ) (m : Memory)
    → behind m.mirrors p ≢ none
    → ((a : ℕ) → m.next ≤ a → m.mirrors a ≡ none)
    → (m' : Memory) × (p' : Option ℕ) × (copy_mirror p m ≡ ok (m', p'))
      × (behind m'.mirrors p' ≡ behind m.mirrors p)
      × (behind m'.mirrors p ≡ behind m.mirrors p)
      × (m'.provider_configs ≡ m.provider_configs)
      × (m.next ≤ m'.next)
      × ((a b : ℕ) → p ≡ some a → p' ≡ some b → a ≢ b)
unfolding copy_mirror
copy_mirror_lem none m there free = (m, none, refl, refl, refl, refl, omega arith, λ a b e f. cc)
copy_mirror_lem (some a) m there free = elim (Option-cases (m.mirrors a)) [
  | inl e ↦ absurd (there (ground arith))
  | inr (v, e) ↦ (
    record m { mirrors = write_cell m.mirrors m.next v; next = m.next + 1 },
    some m.next,
    ground arith,
    ground arith,
    ground (arith, free a),
    refl,
    omega arith,
    λ x y f g h. ground (arith, free a),
  )
]

-- The copy of the mirror inside a configuration is the MirrorConfig's own deep copy.
deep_copy_mirror-eq-copy_mirror :
    (p : Option ℕ) (m : Memory) → deep_copy_mirror p m ≡ copy_mirror p m
unfolding deep_copy_mirror copy_mirror
deep_copy_mirror-eq-copy_mirror none m = refl
deep_copy_mirror-eq-copy_mirror (some a) m = refl

copy_provider_config_lem :
    (copy_value : CredentialProviderConfig → CredentialProviderConfig) (p : Option ℕ) (m : Memory)
    → ((v : CredentialProviderConfig) → copy_value v ≡ v)
    → behind m.provider_configs p ≢ none
    → ((a : ℕ) → m.next ≤ a → m.provider_configs a ≡ none)
    → (m' : Memory) × (p' : Option ℕ) × (copy_provider_config copy_value p m ≡ ok (m', p'))
      × (behind m'.provider_configs p' ≡ behind m.provider_configs p)
      × (behind m'.provider_configs p ≡ behind m.provider_configs p)
      × (m'.mirrors ≡ m.mirrors)
      × (m.next ≤ m'.next)
      × ((a b : ℕ) → p ≡ some a → p' ≡ some b → a ≢ b)
unfolding copy_provider_config
copy_provider_config_lem copy_value none m same there free =
    (m, none, refl, refl, refl, refl, omega arith, λ a b e f. cc)
copy_provider_config_lem copy_value (some a) m same there free =
    elim (Option-cases (m.provider_configs a)) [
      | inl e ↦ absurd (there (ground arith))
      | inr (v, e) ↦ (
        record m {
          provider_configs = write_cell m.provider_configs m.next (copy_value v);
          next = m.next + 1;
        },
        some m.next,
        ground arith,
        ground (arith, same v),
        ground (arith, free a),
        refl,
        omega arith,
        λ x y f g h. ground (arith, free a),
      )
    ]

-- In a memory that has what the configuration points to and nothing at the free addresses, DeepCopy
-- returns a configuration of the same values behind new pointers, and leaves the original as it
-- was, given a deep copy of the kubelet's type that keeps values.
pub deep_copy-SameValue :
    (copy_value : CredentialProviderConfig → CredentialProviderConfig)
    → ((v : CredentialProviderConfig) → copy_value v ≡ v)
    → (m : Memory) (c : ConfigObject) → IsWhole m c
    → (m' : Memory) × (c' : ConfigObject) × (deep_copy copy_value (some c) m ≡ ok (m', some c'))
      × SameValue m c m' c'
      × SameValue m c m' c
      × SharesNothing c c'
unfolding deep_copy deep_copy_into
deep_copy-SameValue copy_value same m c whole =
    let (m1, p1, e1, new1, old1, kept1, grows, apart1) =
      copy_mirror_lem c.mirror_pointer m whole.mirror_there whole.free_mirrors in
    let (m2, p2, e2, new2, old2, kept2, _, apart2) =
      copy_provider_config_lem copy_value c.providers_pointer m1 same
        (rw kept1 whole.providers_there)
        (λ a free. rw kept1 (whole.free_providers a (omega arith))) in
    (
      m2,
      record c { mirror_pointer = p1; providers_pointer = p2 },
      ground (arith, e1, e2),
      (
        refl,
        refl,
        rw kept2 new1,
        new2
            ∙ ap (λ (cells : ℕ → Option CredentialProviderConfig). behind cells c.providers_pointer)
                kept1,
      ),
      (
        refl,
        refl,
        rw kept2 old1,
        old2
            ∙ ap (λ (cells : ℕ → Option CredentialProviderConfig). behind cells c.providers_pointer)
                kept1,
      ),
      (apart1, apart2),
    )
