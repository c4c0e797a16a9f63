-- ===== src/Descriptor/Canonical.antt =====
-- The hashes of the descriptor's parts (descriptor.rs, canonical_*_bytes).
use policy_templates.Prelude.{
  ℕ, ◌+◌, Bytes, text, be32, decimal, Bool, true, false, List, [], ◌∷◌, ◌++◌, map, Result, ok,
  sort_by_key, ◌>>=◌,
}
use policy_templates.External.{External}
use policy_templates.Canonical.{Tlv, ce_v1_hash}
use policy_templates.Descriptor.{
  SignerIdentity, EnvVar, Port, Mount, SecurityContext, Resources, OciRuntimeSpec, Sidecars,
}

-- An array of records whose values are computed by calls that may panic, in order.
unfoldable pub collect : List (Bytes × Result Bytes) → Result (List Tlv)
collect [] = ok []
collect ((label, result) ∷ rest) = do
  value ← result
  records ← collect rest
  ok ((label, value) ∷ records)

-- The records of `items.iter().enumerate()` from the index on.
unfoldable pub string_records : ℕ → List Bytes → List Tlv
string_records idx [] = []
string_records idx (item ∷ items) = (text "i" ++ decimal idx, item) ∷ string_records (idx + 1) items

unfoldable pub env_records : List EnvVar → List Tlv
env_records = map (λ (entry : EnvVar). (entry.name, entry.value))

unfoldable pub port_records : ℕ → List Port → List Tlv
port_records idx [] = []
port_records idx (port ∷ ports) =
    (text "p" ++ decimal idx, be32 port.container_port ++ port.protocol)
    ∷ port_records (idx + 1) ports

-- bool as u8
abbrev pub flag : Bool → ℕ
flag true = 1
flag false = 0

module _ (x : External) where
  -- `ce_v1_hash` of such an array
  unfoldable pub hash_parts : List (Bytes × Result Bytes) → Result Bytes
  unfolding collect
  hash_parts parts = do records ← collect parts; ce_v1_hash x records

  unfoldable pub canonical_signer_bytes : SignerIdentity → Result Bytes
  canonical_signer_bytes s =
      ce_v1_hash x ((text "subject", s.subject) ∷ (text "issuer", s.issuer) ∷ [])

  unfoldable pub canonical_sidecar_map_bytes : Sidecars → Result Bytes
  canonical_sidecar_map_bytes s =
      ce_v1_hash x (
        (text "attestation_proxy", s.attestation_proxy_digest)
        ∷ (text "caddy", s.caddy_digest)
        ∷ [])

  unfoldable pub canonical_string_list_bytes : List Bytes → Result Bytes
  unfolding string_records
  canonical_string_list_bytes items = ce_v1_hash x (string_records 0 items)

  unfoldable pub canonical_env_bytes : List EnvVar → Result Bytes
  unfolding env_records
  canonical_env_bytes env =
      ce_v1_hash x (env_records (sort_by_key (λ (entry : EnvVar). entry.name) env))

  unfoldable pub canonical_ports_bytes : List Port → Result Bytes
  unfolding port_records
  canonical_ports_bytes ports = ce_v1_hash x (port_records 0 ports)

  abbrev pub mount_parts : Mount → List (Bytes × Result Bytes)
  mount_parts mount =
      (text "source", ok mount.source)
      ∷ (text "destination", ok mount.destination)
      ∷ (text "type", ok mount.mount_type)
      ∷ (text "options", canonical_string_list_bytes mount.options)
      ∷ []

  unfoldable pub mount_hash : Mount → Result Bytes
  unfolding hash_parts canonical_string_list_bytes
  mount_hash mount = hash_parts (mount_parts mount)

  unfoldable pub mount_entries : ℕ → List Mount → List (Bytes × Result Bytes)
  mount_entries idx [] = []
  mount_entries idx (mount ∷ mounts) =
      (text "m" ++ decimal idx, mount_hash mount) ∷ mount_entries (idx + 1) mounts

  unfoldable pub canonical_mounts_bytes : List Mount → Result Bytes
  unfolding hash_parts mount_entries mount_hash
  canonical_mounts_bytes mounts = hash_parts (mount_entries 0 mounts)

  unfoldable pub canonical_secctx_bytes : SecurityContext → Result Bytes
  canonical_secctx_bytes security = ce_v1_hash x (
      (text "run_as_user", be32 security.run_as_user)
      ∷ (text "run_as_group", be32 security.run_as_group)
      ∷ (
        text "flags",
        flag security.read_only_root_fs
            ∷ flag security.allow_privilege_escalation
            ∷ flag security.privileged
            ∷ [],
      )
      ∷ [])

  abbrev pub resource_parts : Resources → List (Bytes × Result Bytes)
  resource_parts resources =
      (text "requests", canonical_env_bytes resources.requests)
      ∷ (text "limits", canonical_env_bytes resources.limits)
      ∷ []

  unfoldable pub canonical_resources_bytes : Resources → Result Bytes
  unfolding hash_parts canonical_env_bytes
  canonical_resources_bytes resources = hash_parts (resource_parts resources)

  -- The values of the records that are hashed for the whole specification.
  abbrev pub oci_parts : OciRuntimeSpec → List (Bytes × Result Bytes)
  oci_parts oci =
      (text "command", canonical_string_list_bytes oci.command)
      ∷ (text "args", canonical_string_list_bytes oci.args)
      ∷ (text "env", canonical_env_bytes oci.env)
      ∷ (text "ports", canonical_ports_bytes oci.ports)
      ∷ (text "mounts", canonical_mounts_bytes oci.mounts)
      ∷ (text "capabilities_add", canonical_string_list_bytes oci.capabilities.add)
      ∷ (text "capabilities_drop", canonical_string_list_bytes oci.capabilities.drop)
      ∷ (text "security_context", canonical_secctx_bytes oci.security_context)
      ∷ (text "resources", canonical_resources_bytes oci.resources)
      ∷ []

  unfoldable pub canonical_oci_spec_bytes : OciRuntimeSpec → Result Bytes
  unfolding hash_parts canonical_string_list_bytes canonical_env_bytes canonical_ports_bytes
      canonical_mounts_bytes canonical_secctx_bytes canonical_resources_bytes
  canonical_oci_spec_bytes oci = hash_parts (oci_parts oci)
