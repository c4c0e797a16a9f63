-- ===== src/Genpolicy/Manifest/Volumes.antt =====
-- The volumes of the pod.
use policy_templates.Prelude.{ℕ, zero, suc, Bytes, text, if◌then◌else◌, Bool, List, [], ◌∷◌, ◌++◌}
use policy_templates.Descriptor.{DeploymentDescriptor}
use policy_templates.Genpolicy.Value.{Value, string, json_object}
use policy_templates.Genpolicy.Keys.{descriptor_uses_startup_fallback}
use policy_templates.Genpolicy.Manifest.Parts.{str}

unfoldable pub config_map_volume : Bytes → Bytes → Value
config_map_volume name config_map_name = json_object (
    (text "name", string name)
    ∷ (text "configMap", json_object ((text "name", string config_map_name) ∷ []))
    ∷ [])

-- A volume in memory, of a size.
unfoldable pub memory_volume : Bytes → Bytes → Value
memory_volume name size_limit = json_object (
    (text "name", string name)
    ∷ (
      text "emptyDir",
      json_object ((text "medium", str "Memory") ∷ (text "sizeLimit", string size_limit) ∷ []),
    )
    ∷ [])

-- Vec::insert; the index is within the vector.
unfoldable pub insert_at_index : ℕ → Value → List Value → List Value
insert_at_index zero v vs = v ∷ vs
insert_at_index (suc i) v [] = v ∷ []
insert_at_index (suc i) v (w ∷ vs) = w ∷ insert_at_index i v vs

module _ (d : DeploymentDescriptor) where
  unfoldable pub fixed_volumes : List Value
  unfolding config_map_volume memory_volume
  fixed_volumes =
      memory_volume (text "ownership-signal") (text "1Mi")
      ∷ config_map_volume (text "tenant-ingress-caddyfile") (d.app_name ++ text "-tenant-ingress")
      ∷ memory_volume (text "enclava-tools") (text "16Mi")
      ∷ memory_volume (text "unlock-socket") (text "16Mi")
      ∷ memory_volume (text "unlock-channel") (text "1Mi")
      ∷ memory_volume (text "luks-material") (text "48Mi")
      ∷ memory_volume (text "state-mount") (text "1Mi")
      ∷ memory_volume (text "tls-state-mount") (text "1Mi")
      ∷ config_map_volume (text "enclava-init-config") (d.app_name ++ text "-enclava-init")
      ∷ []

  unfoldable pub cap_volumes : Bool → List Value
  unfolding fixed_volumes descriptor_uses_startup_fallback insert_at_index config_map_volume
      memory_volume
  cap_volumes log_encryption_enabled =
      let logs =
        if log_encryption_enabled
        then insert_at_index 0 (memory_volume (text "logs") (text "1Mi")) fixed_volumes
        else fixed_volumes in
      let startup =
        if descriptor_uses_startup_fallback d
        then insert_at_index 3 (config_map_volume (text "startup") (d.app_name ++ text "-startup"))
            logs
        else logs in
      if d.independent_verification
      then startup
        ++ (config_map_volume (text "verification-material") (d.app_name ++ text "-verification")
            ∷ [])
      else startup
