-- ===== src/Examples/Descriptors.antt =====
-- A descriptor with one of everything, and one that differs in the order of its variables.
use policy_templates.Prelude.{
  ◌≡◌, refl, ◌↔◌, Bytes, text, be32, decimal, [], ◌∷◌, true, false, ok, ◌⊎◌, arith, bytes_le,
  sort_by_key,
}
use policy_templates.External.{Collision}
use policy_templates.Canonical.{ce_v1_bytes, ce_v1_hash}
use policy_templates.Descriptor.{
  OciRuntimeSpec, DeploymentDescriptor, DeploymentDescriptorEnvelope, legacy,
}
use policy_templates.Descriptor.Records.{descriptor_canonical_bytes, descriptor_core_hash}
use policy_templates.Descriptor.Binding.{IsTyped, SameCore, SameAnchors}
use policy_templates.Descriptor.Signed.{
  descriptor_canonical_bytes_binds, descriptor_core_hash_binds,
}
use policy_templates.Descriptor.Unique.{
  validate_unique_resource_names, validate_unique_resource_names_iff, Distinct, names,
}
use policy_templates.Descriptor.Verify.{verify_descriptor, verify_descriptor_iff, SignedBy}
use policy_templates.Examples.Toy.{toy, zeros, toy-TextLaws}

abbrev pub oci : OciRuntimeSpec
oci = record {
  command = (7 ∷ []) ∷ [];
  args = [];
  env = record { name = 1 ∷ []; value = 2 ∷ [] } ∷ record { name = 3 ∷ []; value = 4 ∷ [] } ∷ [];
  ports = record { container_port = 80; protocol = 6 ∷ [] } ∷ [];
  mounts = record { source = 1 ∷ []; destination = 2 ∷ []; mount_type = 3 ∷ []; options = [] } ∷ [];
  capabilities = record { add = []; drop = (9 ∷ []) ∷ [] };
  security_context = record {
    run_as_user = 10;
    run_as_group = 11;
    read_only_root_fs = true;
    allow_privilege_escalation = false;
    privileged = false;
  };
  resources = record { requests = record { name = 1 ∷ []; value = 5 ∷ [] } ∷ []; limits = [] };
}

abbrev pub descriptor : DeploymentDescriptor
descriptor = record {
  schema_version = 1 ∷ [];
  org_id = 5 ∷ [];
  org_slug = [];
  app_id = [];
  app_name = [];
  deploy_id = [];
  created_at = 3;
  nonce = [];
  app_domain = [];
  tee_domain = [];
  custom_domains = [];
  namespace = 110 ∷ [];
  service_account = [];
  identity_hash = [];
  image_ref = [];
  image_digest = [];
  signer_identity = record { subject = 1 ∷ []; issuer = 2 ∷ [] };
  oci_runtime_spec = oci;
  sidecars = record { attestation_proxy_digest = []; caddy_digest = [] };
  api_signing_pubkey = toy.verifying_key (9 ∷ []);
  independent_verification = true;
  expected_firmware_measurement = legacy (zeros 32);
  expected_runtime_class = [];
  kbs_resource_path = [];
  unlock_mode = [];
  policy_template_id = [];
  policy_template_sha256 = [];
  platform_release_version = [];
  expected_agent_policy_hash = [];
  expected_cc_init_data_hash = [];
  expected_kbs_policy_hash = [];
}

-- The two variables in the other order.
abbrev swapped : DeploymentDescriptor
swapped = record descriptor {
  oci_runtime_spec = record oci {
    env = record { name = 3 ∷ []; value = 4 ∷ [] } ∷ record { name = 1 ∷ []; value = 2 ∷ [] } ∷ [];
  };
}

unfoldable pub descriptor_encodes : (b : Bytes) × (descriptor_canonical_bytes toy descriptor ≡ ok b)
unfolding descriptor_canonical_bytes ce_v1_hash ce_v1_bytes text decimal sort_by_key bytes_le be32
descriptor_encodes = (_, refl)

pub swapped_encodes : descriptor_canonical_bytes toy swapped ≡ ok descriptor_encodes.0
unfolding descriptor_canonical_bytes descriptor_encodes ce_v1_hash ce_v1_bytes text decimal
    sort_by_key bytes_le be32
swapped_encodes = refl

core_encodes : (h : Bytes) × (descriptor_core_hash toy descriptor ≡ ok h)
unfolding descriptor_core_hash ce_v1_hash ce_v1_bytes text decimal sort_by_key bytes_le be32
core_encodes = (_, refl)

-- Another hash of the KBS policy.
abbrev anchored : DeploymentDescriptor
anchored = record descriptor { expected_kbs_policy_hash = 1 ∷ [] }

anchored_encodes : descriptor_core_hash toy anchored ≡ ok core_encodes.0
unfolding descriptor_core_hash ce_v1_hash ce_v1_bytes text decimal sort_by_key bytes_le be32
    core_encodes
anchored_encodes = refl

descriptor-IsTyped : IsTyped descriptor
descriptor-IsTyped = record {
  spec = record { ports = (omega arith, tt); user = omega arith; group = omega arith };
  measurement = refl;
}

swapped-IsTyped : IsTyped swapped
swapped-IsTyped = record {
  spec = record { ports = (omega arith, tt); user = omega arith; group = omega arith };
  measurement = refl;
}

anchored-IsTyped : IsTyped anchored
anchored-IsTyped = record {
  spec = record { ports = (omega arith, tt); user = omega arith; group = omega arith };
  measurement = refl;
}

descriptor_canonical_bytes_binds_example :
    (SameCore descriptor swapped × SameAnchors descriptor swapped) ⊎ Collision toy
descriptor_canonical_bytes_binds_example =
    descriptor_canonical_bytes_binds toy descriptor swapped descriptor_encodes.0 toy-TextLaws
      descriptor-IsTyped swapped-IsTyped descriptor_encodes.1 swapped_encodes

descriptor_core_hash_binds_example : SameCore descriptor anchored ⊎ Collision toy
descriptor_core_hash_binds_example =
    descriptor_core_hash_binds toy descriptor anchored core_encodes.0 toy-TextLaws
      descriptor-IsTyped anchored-IsTyped core_encodes.1 anchored_encodes

validate_unique_resource_names_iff_example : (validate_unique_resource_names descriptor ≡ ok tt) ↔ (
    Distinct (names descriptor.oci_runtime_spec.resources.requests)
    × Distinct (names descriptor.oci_runtime_spec.resources.limits))
validate_unique_resource_names_iff_example = validate_unique_resource_names_iff descriptor

abbrev pub envelope : DeploymentDescriptorEnvelope
envelope = record {
  descriptor = descriptor;
  signature = toy.sign (8 ∷ []) descriptor_encodes.0;
  signing_key_id = [];
  signing_pubkey = toy.verifying_key (8 ∷ []);
}

verify_descriptor_iff_example :
    (verify_descriptor toy envelope (toy.verifying_key (8 ∷ [])) ≡ ok descriptor)
    ↔ (SignedBy toy envelope (toy.verifying_key (8 ∷ [])) × (descriptor ≡ descriptor))
verify_descriptor_iff_example =
    verify_descriptor_iff toy envelope (toy.verifying_key (8 ∷ [])) descriptor
