-- ===== src/Genpolicy/Shape.antt =====
-- The shape of a workload, by its memory limit (genpolicy.rs), and the resources in the manifest.
use policy_templates.Prelude.{
  ℕ, Bytes, text, ◌==◌, trim, strip_suffix, find, sort_by_key, map, not, ◌||◌, Bool, false, Option,
  none, some, List, [], ◌∷◌, if◌then◌else◌,
}
use policy_templates.Descriptor.{EnvVar, Resources, DeploymentDescriptor}
use policy_templates.Genpolicy.Value.{Value, string, json_object}
use policy_templates.Genpolicy.Keys.{is_empty}

-- f64: `parse` reads a text, and `of_ℕ` is the number of a literal.
pub record Floats : Type 1 where
  pub F64 : Type 0
  pub parse : Bytes → Option F64
  pub is_finite : F64 → Bool
  pub less : F64 → F64 → Bool
  pub times : F64 → F64 → F64
  pub of_ℕ : ℕ → F64

module _ (f : Floats) where
  open f use {F64, parse, is_finite, less, times, of_ℕ}

  unfoldable pub units : List (Bytes × F64)
  units =
      (text "TiB", times (of_ℕ 1024) (of_ℕ 1024))
      ∷ (text "Ti", times (of_ℕ 1024) (of_ℕ 1024))
      ∷ (text "GiB", of_ℕ 1024)
      ∷ (text "Gi", of_ℕ 1024)
      ∷ (text "MiB", of_ℕ 1)
      ∷ (text "Mi", of_ℕ 1)
      ∷ []

  -- The number and the multiplier of the first suffix that fits.
  unfoldable pub find_unit : Bytes → List (Bytes × F64) → Option (Bytes × F64)
  find_unit value [] = none
  find_unit value ((suffix, multiplier) ∷ rest) =
      let later = find_unit value rest in
      elim (strip_suffix suffix value) [ none ↦ later | some n ↦ some (n, multiplier) ]

  abbrev pub scaled : F64 → Option F64 → Option F64
  scaled multiplier none = none
  scaled multiplier (some parsed) =
      if not (is_finite parsed) || less parsed (of_ℕ 0)
      then none
      else some (times parsed multiplier)

  abbrev pub scaled_number : Option (Bytes × F64) → Option F64
  scaled_number none = none
  scaled_number (some (n, multiplier)) = scaled multiplier (parse n)

  unfoldable pub memory_limit_mib : Bytes → Option F64
  unfolding units find_unit
  memory_limit_mib value =
      let trimmed = trim value in
      if is_empty trimmed || not (trimmed == value)
      then none
      else scaled_number (find_unit trimmed units)

  abbrev pub limit_of_entry : Option EnvVar → Option F64
  limit_of_entry none = none
  limit_of_entry (some entry) = memory_limit_mib entry.value

  unfoldable pub app_memory_limit_mib : DeploymentDescriptor → Option F64
  unfolding memory_limit_mib
  app_memory_limit_mib d =
      limit_of_entry
        (find (λ entry. entry.name == text "memory") d.oci_runtime_spec.resources.limits)

  abbrev pub below_standard : Option F64 → Bool
  below_standard none = false
  below_standard (some mib) = less mib (of_ℕ 512)

  unfoldable pub is_small_shape : DeploymentDescriptor → Bool
  unfolding app_memory_limit_mib
  is_small_shape d = below_standard (app_memory_limit_mib d)

abbrev pub entry_pair : EnvVar → Bytes × Value
entry_pair entry = (entry.name, string entry.value)

-- ResourceMap::serialize into a JSON value
unfoldable pub resource_map : List EnvVar → Value
resource_map entries = json_object (map entry_pair (sort_by_key (λ (e : EnvVar). e.name) entries))

-- ResourcesYaml::from, serialised
unfoldable pub resources_yaml : Resources → Value
unfolding resource_map
resources_yaml r =
    json_object
      ((text "requests", resource_map r.requests) ∷ (text "limits", resource_map r.limits) ∷ [])
