-- ===== src/Examples/Mounts.antt =====
-- A generated policy that is corrected and normalised.
use policy_templates.Prelude.{
  ◌≡◌, refl, Bytes, text, lines, ◌==◌, some, ok, List, [], ◌∷◌, ◌++◌, bytes_le, rsplit_once,
}
use policy_templates.Genpolicy.Value.{
  Value, string, json_object, json_array, put, put_all, get, get_field, set_key,
}
use policy_templates.Genpolicy.Normalize.Text.{
  normalize_cap_sandbox_pidns, normalize_rootfs_propagation, normalize_cap_storage_mounts,
  normalize_cap_sandbox_storages, normalize_cap_extra_storages,
}
use policy_templates.Genpolicy.Normalize.Stable.{passes_twice}
use policy_templates.Genpolicy.Normalize.Mounts.{
  Printer, platform_mounts, option_strings, ephemeral_source, set_mounts, has_memory_shape,
  set_options, adjust_rows, separator, normalize_guest_memory_mount_propagation,
}
use policy_templates.Genpolicy.Normalize.Correct.{
  Corrected, normalize_guest_memory_mount_propagation-Corrected,
}

abbrev rules : Bytes
rules = lines (
    "default AllowRequestsFailingPolicy := false" ∷ "allow if {" ∷ "    p_pidns == i_pidns" ∷ "}"
    ∷ [])

passes_twice_example :
    (normalize_cap_sandbox_pidns (normalize_cap_sandbox_pidns rules)
      ≡ normalize_cap_sandbox_pidns rules)
    × (normalize_rootfs_propagation (normalize_rootfs_propagation rules)
        ≡ normalize_rootfs_propagation rules)
    × (normalize_cap_storage_mounts (normalize_cap_storage_mounts rules)
        ≡ normalize_cap_storage_mounts rules)
    × (normalize_cap_sandbox_storages (normalize_cap_sandbox_storages rules)
        ≡ normalize_cap_sandbox_storages rules)
    × (normalize_cap_extra_storages (normalize_cap_extra_storages rules)
        ≡ normalize_cap_extra_storages rules)
passes_twice_example = passes_twice rules

-- A mount as the generator makes it.
abbrev pub memory_mount : Bytes → Bytes → Value
memory_mount volume destination = json_object (
    (text "destination", string destination)
    ∷ (text "source", string (ephemeral_source volume))
    ∷ (text "type_", string (text "bind"))
    ∷ (text "options", option_strings (text "rbind") (text "rprivate") (text "rw"))
    ∷ [])

abbrev pub container : Bytes → List Value → Value
container name mounts = json_object (
    (
      text "OCI",
      json_object (
          (
            text "Annotations",
            json_object ((text "io.kubernetes.cri.container-name", string name) ∷ []),
          )
          ∷ (text "Mounts", json_array mounts)
          ∷ []),
    )
    ∷ [])

abbrev pub policy_data : Value
policy_data = json_object (
    (
      text "containers",
      json_array (
          container (text "web") (
            memory_mount (text "state-mount") (text "/state")
            ∷ memory_mount (text "logs") (text "/run/enclava-logs")
            ∷ [])
          ∷ container (text "attestation-proxy") (
              memory_mount (text "state-mount") (text "/data")
              ∷ memory_mount (text "state-mount") (text "/state")
              ∷ [])
          ∷ container (text "enclava-init") (
              memory_mount (text "state-mount") (text "/state")
              ∷ memory_mount (text "tls-state-mount") (text "/state/tls-state")
              ∷ [])
          ∷ []),
    )
    ∷ [])

-- Every text is read as this data, and every value is printed.
abbrev pub printer : Printer
printer = record {
  from_str = λ json. some policy_data;
  to_string_pretty = λ v. some (text "{}");
  to_yaml = λ v. some (text "pod");
}

abbrev pub generated_policy : Bytes
generated_policy = rules ++ text "\npolicy_data := {}"

pub corrected :
    (r : Bytes) × (normalize_guest_memory_mount_propagation printer generated_policy ≡ ok r)
unfolding normalize_guest_memory_mount_propagation separator platform_mounts adjust_rows
    has_memory_shape set_options set_mounts rsplit_once lines text ◌==◌ bytes_le json_object put_all
    put get get_field set_key
corrected = (_, refl)

normalize_guest_memory_mount_propagation-Corrected_example :
    Corrected printer generated_policy corrected.0
normalize_guest_memory_mount_propagation-Corrected_example =
    normalize_guest_memory_mount_propagation-Corrected printer generated_policy corrected.1
