-- ===== src/Examples/Pods.antt =====
-- The manifest of a pod, its limits, and the settings of the generator.
use policy_templates.Prelude.{
  ℕ, ◌≡◌, ◌≢◌, refl, ◌↔◌, inl, inr, Bytes, text, ◌==◌, true, false, none, some, ok, Option, [], ◌∷◌,
  map, All, split, eqb, ltb, contains, length, trim, ◌*◌,
}
use policy_templates.Descriptor.{LogEncryptionConfig, DeploymentDescriptor}
use policy_templates.Descriptor.Unique.{Distinct, names}
use policy_templates.Genpolicy.Value.{Value, string, json_object, json_array, get, as_string}
use policy_templates.Genpolicy.Keys.{
  is_valid_config_key, trimmed_keys, join_keys, normalize_required_config_keys,
}
use policy_templates.Genpolicy.Required.{IsKey, normalize_required_config_keys-Valid}
use policy_templates.Genpolicy.Shape.{Floats}
use policy_templates.Genpolicy.Normalize.Mounts.{platform_mounts}
use policy_templates.Genpolicy.Manifest.Pod.{pod_manifest}
use policy_templates.Genpolicy.Manifest.Renders.{
  Among, Pinned, unlock_modes, tls_modes, tls_setting, pod_manifest_iff,
}
use policy_templates.Genpolicy.Manifest.Agree.{
  propagated, pod_containers, applicable, propagated-platform_mounts,
}
use policy_templates.Genpolicy.Manifest.Declared.{
  names_at, volume_names, all_containers, volume_names-Among,
}
use policy_templates.Genpolicy.Settings.{remove_service_account_token_mounts}
use policy_templates.Genpolicy.Stripped.{
  Stripped, container_field, remove_service_account_token_mounts-Clean,
}
use policy_templates.Examples.Toy.{toy}
use policy_templates.Examples.Descriptors
use policy_templates.Examples.Descriptors.{oci}

-- Numbers in place of floating point: a text is its length.
abbrev pub lengths : Floats
lengths = record {
  F64 = ℕ;
  parse = λ s. some (length s);
  is_finite = λ n. true;
  less = ltb;
  times = λ m n. m * n;
  of_ℕ = λ n. n;
}

-- A descriptor with a memory limit, unlocked by a password, that is started by the platform.
abbrev pub deployed : DeploymentDescriptor
deployed = record Descriptors.descriptor {
  app_name = text "shop";
  unlock_mode = text "password";
  oci_runtime_spec = record oci {
    resources = record {
      requests = record { name = text "cpu"; value = text "1" } ∷ [];
      limits =
          record { name = text "memory"; value = text "256Mi" }
          ∷ record { name = text "cpu"; value = text "2" }
          ∷ [];
    };
  };
}

abbrev pub log : LogEncryptionConfig
log = record {
  algorithm = [];
  key_id = text "k";
  public_key_base64url = text "p";
  public_key_sha256 = text "sha256:ab/c";
}

abbrev pub settings_of : Bytes → Option Bytes
settings_of name = elim (name == text "ENCLAVA_INIT_IMAGE") [
  | true ↦ some (text "init@sha256:0")
  | false ↦ none
]

normalised : normalize_required_config_keys (text " A_1, ,b") ≡ some (text "A_1,b")
unfolding normalize_required_config_keys is_valid_config_key trimmed_keys join_keys split trim text
    ◌==◌
normalised = refl

normalize_required_config_keys-Valid_example :
    All IsKey (split (λ c. eqb c 44) (text "A_1,b"))
    × (normalize_required_config_keys (text "A_1,b") ≡ some (text "A_1,b"))
normalize_required_config_keys-Valid_example =
    normalize_required_config_keys-Valid (text " A_1, ,b") normalised

pod_manifest_iff_example :
    ((pod : Value) × (pod_manifest toy lengths settings_of deployed (some log) ≡ ok pod)) ↔ (
      Distinct (names deployed.oci_runtime_spec.resources.requests)
      × Distinct (names deployed.oci_runtime_spec.resources.limits)
      × Among deployed.unlock_mode unlock_modes
      × Among (tls_setting settings_of) tls_modes
      × ((image : Bytes) × Pinned settings_of image))
pod_manifest_iff_example = pod_manifest_iff toy lengths settings_of deployed (some log)

cpu-memory : text "cpu" ≢ text "memory"
unfolding text
cpu-memory e = cc

pub pinned : Pinned settings_of (text "init@sha256:0")
unfolding text ◌==◌ contains
pinned = (refl, refl)

pub no_tls_setting : text "" ≡ tls_setting settings_of
unfolding text ◌==◌ trim
no_tls_setting = refl

pub rendered : (pod : Value) × (pod_manifest toy lengths settings_of deployed (some log) ≡ ok pod)
rendered = (pod_manifest_iff toy lengths settings_of deployed (some log)).1 (
  (λ h. h, tt),
  (λ h. elim h [ inl e ↦ cpu-memory e | inr e ↦ e ], ((λ h. h), tt)),
  inr (inr (inl refl)),
  inl no_tls_setting,
  (text "init@sha256:0", pinned),
)

propagated-platform_mounts_example :
    propagated (pod_containers rendered.0) ≡ applicable true platform_mounts
propagated-platform_mounts_example =
    propagated-platform_mounts toy lengths settings_of deployed (some log) rendered.0 rendered.1

volume_names-Among_example :
    All
      (λ l. All (λ n. Among n (volume_names rendered.0)) l)
      (map (names_at (text "volumeMounts")) (all_containers rendered.0))
    × Distinct (volume_names rendered.0)
volume_names-Among_example =
    volume_names-Among toy lengths settings_of deployed (some log) rendered.0 rendered.1

abbrev at : Bytes → Value
at destination = json_object ((text "destination", string destination) ∷ [])

-- Settings with the mount of a token between two others.
abbrev settings : Value
settings = json_object (
    (
      text "other_container",
      json_object (
          (
            text "Mounts",
            json_array (
                at (text "/proc")
                ∷ at (text "/var/run/secrets/azure/tokens")
                ∷ at (text "/dev")
                ∷ []),
          )
          ∷ []),
    )
    ∷ (
      text "mount_destinations",
      json_array (
          string (text "/var/run/secrets/kubernetes.io/serviceaccount")
          ∷ string (text "/proc")
          ∷ []),
    )
    ∷ [])

remove_service_account_token_mounts-Clean_example :
    Stripped
      (λ m. as_string (get (text "destination") m))
      (container_field (text "Mounts") settings)
      (container_field (text "Mounts") (remove_service_account_token_mounts settings))
    × Stripped
        (λ v. as_string (some v))
        (get (text "mount_destinations") settings)
        (get (text "mount_destinations") (remove_service_account_token_mounts settings))
    × ((key : Bytes)
        → text "Mounts" ≢ key
        → container_field key (remove_service_account_token_mounts settings)
          ≡ container_field key settings)
    × ((key : Bytes)
        → text "other_container" ≢ key
        → text "mount_destinations" ≢ key
        → get key (remove_service_account_token_mounts settings) ≡ get key settings)
remove_service_account_token_mounts-Clean_example =
    remove_service_account_token_mounts-Clean settings
