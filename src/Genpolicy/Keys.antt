-- ===== src/Genpolicy/Keys.antt =====
-- What the profile and the texts of a descriptor say about its configuration (genpolicy.rs).
use policy_templates.Prelude.{
  ℕ, Bytes, text, ◌==◌, trim, trim_matches, split, split_once, eq_ignore_ascii_case, any, all, find,
  eqb, length, not, ◌&&◌, ◌||◌, Bool, true, false, Option, none, some, List, [], ◌∷◌, ◌++◌,
  if◌then◌else◌,
}
use policy_templates.Descriptor.{EnvVar, DeploymentDescriptor}
use policy_templates.Policy.Floor.{rootful_sudo_caps}
use policy_templates.Genpolicy.Environment.{is_ascii_alphabetic, is_ascii_alphanumeric}

abbrev pub is_empty {ℓ} : {A : Type ℓ} → List A → Bool
is_empty [] = true
is_empty (a ∷ l) = false

unfoldable pub descriptor_uses_startup_fallback : DeploymentDescriptor → Bool
descriptor_uses_startup_fallback d = is_empty d.oci_runtime_spec.args

unfoldable pub platform_managed_ssh_relay_caps : List Bytes
platform_managed_ssh_relay_caps =
    text "CHOWN" ∷ text "DAC_OVERRIDE" ∷ text "FOWNER" ∷ text "SETGID" ∷ text "SETUID" ∷ []

unfoldable pub descriptor_uses_platform_managed_ssh_relay : DeploymentDescriptor → Bool
unfolding platform_managed_ssh_relay_caps
descriptor_uses_platform_managed_ssh_relay d =
    let oci = d.oci_runtime_spec in
    let sec = oci.security_context in
    eqb sec.run_as_user 0
    && (eqb sec.run_as_group 0
        && (sec.read_only_root_fs
            && (not sec.allow_privilege_escalation
                && (not sec.privileged
                    && (any (λ cap. eq_ignore_ascii_case cap (text "ALL")) oci.capabilities.drop
                        && (eqb (length oci.capabilities.add)
                              (length platform_managed_ssh_relay_caps)
                            && all
                                (λ required.
                                  any (λ cap. eq_ignore_ascii_case cap required)
                                    oci.capabilities.add)
                                platform_managed_ssh_relay_caps))))))

-- genpolicy.rs has its own copy of `descriptor_uses_rootful_sudo`.
unfoldable pub descriptor_has_rootful_sudo : DeploymentDescriptor → Bool
unfolding rootful_sudo_caps
descriptor_has_rootful_sudo d =
    let oci = d.oci_runtime_spec in
    let sec = oci.security_context in
    eqb sec.run_as_user 0
    && (eqb sec.run_as_group 0
        && (not sec.read_only_root_fs
            && (sec.allow_privilege_escalation
                && (not sec.privileged
                    && (any (λ cap. eq_ignore_ascii_case cap (text "ALL")) oci.capabilities.drop
                        && (eqb (length oci.capabilities.add) (length rootful_sudo_caps)
                            && all
                                (λ required.
                                  any (λ cap. eq_ignore_ascii_case cap required)
                                    oci.capabilities.add)
                                rootful_sudo_caps))))))

unfoldable pub descriptor_uses_root_managed_config : DeploymentDescriptor → Bool
unfolding descriptor_uses_platform_managed_ssh_relay descriptor_has_rootful_sudo
descriptor_uses_root_managed_config d =
    descriptor_uses_platform_managed_ssh_relay d || descriptor_has_rootful_sudo d

-- On a character that is not ASCII the tests fail at its first byte.
unfoldable pub is_valid_config_key : Bytes → Bool
is_valid_config_key [] = false
is_valid_config_key (c ∷ key) =
    (is_ascii_alphabetic c || eqb c 95) && all (λ b. is_ascii_alphanumeric b || eqb b 95) key

-- `.map(str::trim).filter(|key| !key.is_empty())`
unfoldable pub trimmed_keys : List Bytes → List Bytes
trimmed_keys [] = []
trimmed_keys (key ∷ keys) =
    let rest = trimmed_keys keys in if trim key == [] then rest else trim key ∷ rest

-- `keys.join(",")`
unfoldable pub join_keys : List Bytes → Bytes
join_keys [] = []
join_keys (key ∷ []) = key
join_keys (key ∷ (next ∷ keys)) = key ++ (44 ∷ join_keys (next ∷ keys))

unfoldable pub normalize_required_config_keys : Bytes → Option Bytes
unfolding is_valid_config_key trimmed_keys join_keys
normalize_required_config_keys value =
    let keys = trimmed_keys (split (λ c. eqb c 44) value) in
    if is_empty keys || any (λ key. not (is_valid_config_key key)) keys
    then none
    else some (join_keys keys)

-- `ch.is_ascii_whitespace() || ch == ';'`
abbrev pub ends_value : ℕ → Bool
ends_value c = eqb c 59 || (eqb c 32 || (eqb c 9 || (eqb c 10 || (eqb c 12 || eqb c 13))))

abbrev pub first_or_empty : List Bytes → Bytes
first_or_empty [] = []
first_or_empty (word ∷ words) = word

abbrev pub keys_after : Option (Bytes × Bytes) → Option Bytes
keys_after none = none
keys_after (some (before, value)) =
    normalize_required_config_keys
      (trim_matches 39 (trim_matches 34 (first_or_empty (split ends_value value))))

unfoldable pub required_config_keys_from_arg : Bytes → Option Bytes
unfolding normalize_required_config_keys
required_config_keys_from_arg arg =
    keys_after (split_once (text "ENCLAVA_REQUIRED_CONFIG_KEYS=") arg)

-- Iterator::find_map
abbrev pub find_map : (Bytes → Option Bytes) → List Bytes → Option Bytes
find_map f [] = none
find_map f (a ∷ l) = let rest = find_map f l in elim (f a) [ none ↦ rest | some b ↦ some b ]

abbrev pub keys_of_entry : Option EnvVar → Option Bytes
keys_of_entry none = none
keys_of_entry (some entry) = normalize_required_config_keys entry.value

abbrev pub or_find_map : List Bytes → Option Bytes → Option Bytes
or_find_map args none = find_map required_config_keys_from_arg args
or_find_map args (some value) = some value

unfoldable pub required_config_keys_from_descriptor : DeploymentDescriptor → Option Bytes
unfolding normalize_required_config_keys required_config_keys_from_arg
required_config_keys_from_descriptor d =
    let oci = d.oci_runtime_spec in
    or_find_map (oci.command ++ oci.args)
      (keys_of_entry (find (λ entry. entry.name == text "ENCLAVA_REQUIRED_CONFIG_KEYS") oci.env))
