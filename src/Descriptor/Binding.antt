-- ===== src/Descriptor/Binding.antt =====
-- When two descriptors are the same to their signer, and to the core hash.
use policy_templates.Prelude.{
  ℕ, zero, suc, ◌≡◌, ◌∙◌, sym, ap, Bytes, text, Bool, true, false, List, [], ◌∷◌, ◌++◌, length, ok,
  >>=-eq-ok, ◌⊎◌, inl, arith, if◌then◌else◌,
}
use policy_templates.External.{External, Collision, TextLaws}
use policy_templates.Canonical.{Tlv}
use policy_templates.Canonical.Binds.{◌>>=◌, value_at, others, to_rfc3339_inj}
use policy_templates.Descriptor.{
  FirmwareMeasurement, legacy, full, measurement_bytes, DeploymentDescriptor,
}
use policy_templates.Descriptor.Canonical.{
  canonical_string_list_bytes, canonical_signer_bytes, canonical_oci_spec_bytes,
  canonical_sidecar_map_bytes,
}
use policy_templates.Descriptor.Records.{
  DescriptorSubHashes, new_sub_hashes, independent_records, anchor_records, descriptor_records,
}
use policy_templates.Descriptor.Parts.{
  canonical_string_list_bytes-Binds, canonical_signer_bytes-Binds,
  canonical_sidecar_map_bytes-Binds,
}
use policy_templates.Descriptor.Spec.{SpecInRange, SameSpec, canonical_oci_spec_bytes_binds}

abbrev pub MeasurementInRange : FirmwareMeasurement → Type 0
MeasurementInRange (legacy bytes) = length bytes ≡ 32
MeasurementInRange (full bytes) = length bytes ≡ 48

-- The values are in the ranges of their Rust types.
pub record IsTyped (d : DeploymentDescriptor) : Type 0 where
  pub spec : SpecInRange d.oci_runtime_spec
  pub measurement : MeasurementInRange d.expected_firmware_measurement

-- Equal descriptors, the hashes of generated policies and the order of variables apart.
pub record SameCore (d e : DeploymentDescriptor) : Type 0 where
  pub schema_version : d.schema_version ≡ e.schema_version
  pub org_id : d.org_id ≡ e.org_id
  pub org_slug : d.org_slug ≡ e.org_slug
  pub app_id : d.app_id ≡ e.app_id
  pub app_name : d.app_name ≡ e.app_name
  pub deploy_id : d.deploy_id ≡ e.deploy_id
  pub created_at : d.created_at ≡ e.created_at
  pub nonce : d.nonce ≡ e.nonce
  pub app_domain : d.app_domain ≡ e.app_domain
  pub tee_domain : d.tee_domain ≡ e.tee_domain
  pub custom_domains : d.custom_domains ≡ e.custom_domains
  pub namespace : d.namespace ≡ e.namespace
  pub service_account : d.service_account ≡ e.service_account
  pub identity_hash : d.identity_hash ≡ e.identity_hash
  pub image_ref : d.image_ref ≡ e.image_ref
  pub image_digest : d.image_digest ≡ e.image_digest
  pub signer_identity : d.signer_identity ≡ e.signer_identity
  pub oci_runtime_spec : SameSpec d.oci_runtime_spec e.oci_runtime_spec
  pub sidecars : d.sidecars ≡ e.sidecars
  pub api_signing_pubkey : d.api_signing_pubkey ≡ e.api_signing_pubkey
  pub independent_verification : d.independent_verification ≡ e.independent_verification
  pub expected_firmware_measurement :
      d.expected_firmware_measurement ≡ e.expected_firmware_measurement
  pub expected_runtime_class : d.expected_runtime_class ≡ e.expected_runtime_class
  pub kbs_resource_path : d.kbs_resource_path ≡ e.kbs_resource_path
  pub unlock_mode : d.unlock_mode ≡ e.unlock_mode
  pub policy_template_id : d.policy_template_id ≡ e.policy_template_id
  pub policy_template_sha256 : d.policy_template_sha256 ≡ e.policy_template_sha256
  pub platform_release_version : d.platform_release_version ≡ e.platform_release_version

pub record SameAnchors (d e : DeploymentDescriptor) : Type 0 where
  pub agent_policy : d.expected_agent_policy_hash ≡ e.expected_agent_policy_hash
  pub cc_init_data : d.expected_cc_init_data_hash ≡ e.expected_cc_init_data_hash
  pub kbs_policy : d.expected_kbs_policy_hash ≡ e.expected_kbs_policy_hash

measurement_inj :
    (m n : FirmwareMeasurement)
    → MeasurementInRange m
    → MeasurementInRange n
    → measurement_bytes m ≡ measurement_bytes n
    → m ≡ n
measurement_inj (legacy a) (legacy b) h k e = ap legacy e
measurement_inj (legacy a) (full b) h k e = absurd (omega (arith, ap length e))
measurement_inj (full a) (legacy b) h k e = absurd (omega (arith, ap length e))
measurement_inj (full a) (full b) h k e = ap full e

-- The records from a place on.
abbrev pub from_place : ℕ → List Tlv → List Tlv
from_place zero records = records
from_place (suc i) [] = []
from_place (suc i) (record' ∷ records) = from_place i records

-- What follows the fixed records.
abbrev pub optional_records : Bool → DeploymentDescriptor → List Tlv
optional_records anchors d = independent_records d ++ (if anchors then anchor_records d else [])

optional_inj :
    (anchors : Bool) (d e : DeploymentDescriptor)
    → optional_records anchors d ≡ optional_records anchors e
    → d.independent_verification ≡ e.independent_verification
unfolding independent_records anchor_records
optional_inj true d e h = ground (arith, ap (length {0}) h)
optional_inj false d e h = ground (arith, ap (length {0}) h)

-- One record or none in front of two lists.
strip :
    (b c : Bool) (r : Tlv) (l m : List Tlv)
    → b ≡ c
    → (if b then r ∷ [] else []) ++ l ≡ (if c then r ∷ [] else []) ++ m
    → l ≡ m
strip true true r l m same h = ap others h
strip true false r l m same h = cc
strip false true r l m same h = cc
strip false false r l m same h = h

pub anchors_inj :
    (d e : DeploymentDescriptor)
    → optional_records true d ≡ optional_records true e
    → SameAnchors d e
unfolding independent_records anchor_records
anchors_inj d e h =
    let same =
      strip d.independent_verification e.independent_verification
        (text "independent_verification", text "true") (anchor_records d) (anchor_records e)
        (optional_inj true d e h) h in
    record {
      agent_policy = ap (value_at 0) same;
      cc_init_data = ap (value_at 1) same;
      kbs_policy = ap (value_at 2) same;
    }

-- The sub-hashes are those of the parts.
pub record SubHashesOf (x : External) (d : DeploymentDescriptor) (s : DescriptorSubHashes)
    : Type 0 where
  pub created_at : x.to_rfc3339 d.created_at ≡ s.created_at
  pub custom_domains : canonical_string_list_bytes x d.custom_domains ≡ ok s.custom_domains_hash
  pub signer : canonical_signer_bytes x d.signer_identity ≡ ok s.signer_hash
  pub oci : canonical_oci_spec_bytes x d.oci_runtime_spec ≡ ok s.oci_hash
  pub sidecars : canonical_sidecar_map_bytes x d.sidecars ≡ ok s.sidecar_hash

ok_inj : {A : Type 0} (a b : A) → ok a ≡ ok b → a ≡ b
ok_inj a b h = cc

pub sub_hashes_of :
    (x : External) (d : DeploymentDescriptor) (s : DescriptorSubHashes)
    → new_sub_hashes x d ≡ ok s
    → SubHashesOf x d s
unfolding new_sub_hashes
sub_hashes_of x d s h =
    let (c, ec, h1) = >>=-eq-ok (canonical_string_list_bytes x d.custom_domains) _ h in
    let (g, eg, h2) = >>=-eq-ok (canonical_signer_bytes x d.signer_identity) _ h1 in
    let (o, eo, h3) = >>=-eq-ok (canonical_oci_spec_bytes x d.oci_runtime_spec) _ h2 in
    let (q, eq, h4) = >>=-eq-ok (canonical_sidecar_map_bytes x d.sidecars) _ h3 in
    let fields = ok_inj _ s h4 in
    record {
      created_at = ap (λ (t : DescriptorSubHashes). t.created_at) fields;
      custom_domains = ec ∙ ap (λ (t : DescriptorSubHashes). ok t.custom_domains_hash) fields;
      signer = eg ∙ ap (λ (t : DescriptorSubHashes). ok t.signer_hash) fields;
      oci = eo ∙ ap (λ (t : DescriptorSubHashes). ok t.oci_hash) fields;
      sidecars = eq ∙ ap (λ (t : DescriptorSubHashes). ok t.sidecar_hash) fields;
    }

module _ (x : External) (laws : TextLaws x) (d e : DeploymentDescriptor) (td : IsTyped d)
    (te : IsTyped e) where
  -- Equal records come from equal descriptors.
  pub records_bind :
      (purpose : Bytes) (anchors : Bool) (s t : DescriptorSubHashes)
      → SubHashesOf x d s
      → SubHashesOf x e t
      → descriptor_records d purpose anchors s ≡ descriptor_records e purpose anchors t
      → SameCore d e ⊎ Collision x
  unfolding descriptor_records
  records_bind purpose anchors s t hs ht same = do
    domains ←
        canonical_string_list_bytes-Binds x d.custom_domains e.custom_domains s.custom_domains_hash
          hs.custom_domains (ht.custom_domains ∙ ap ok (sym (ap (value_at 11) same)))
    signer ←
        canonical_signer_bytes-Binds x d.signer_identity e.signer_identity s.signer_hash hs.signer
          (ht.signer ∙ ap ok (sym (ap (value_at 17) same)))
    spec ←
        canonical_oci_spec_bytes_binds x d.oci_runtime_spec e.oci_runtime_spec td.spec te.spec
          hs.oci (ht.oci ∙ ap ok (sym (ap (value_at 18) same)))
    sidecars ←
        canonical_sidecar_map_bytes-Binds x d.sidecars e.sidecars s.sidecar_hash hs.sidecars
          (ht.sidecars ∙ ap ok (sym (ap (value_at 19) same)))
    inl (record {
      schema_version = ap (value_at 1) same;
      org_id = ap (value_at 2) same;
      org_slug = ap (value_at 3) same;
      app_id = ap (value_at 4) same;
      app_name = ap (value_at 5) same;
      deploy_id = ap (value_at 6) same;
      created_at =
          to_rfc3339_inj laws d.created_at e.created_at
            (hs.created_at ∙ ap (value_at 7) same ∙ sym ht.created_at);
      nonce = ap (value_at 8) same;
      app_domain = ap (value_at 9) same;
      tee_domain = ap (value_at 10) same;
      custom_domains = domains;
      namespace = ap (value_at 12) same;
      service_account = ap (value_at 13) same;
      identity_hash = ap (value_at 14) same;
      image_ref = ap (value_at 15) same;
      image_digest = ap (value_at 16) same;
      signer_identity = signer;
      oci_runtime_spec = spec;
      sidecars = sidecars;
      api_signing_pubkey = ap (value_at 20) same;
      independent_verification = optional_inj anchors d e (ap (from_place 28) same);
      expected_firmware_measurement =
          measurement_inj d.expected_firmware_measurement e.expected_firmware_measurement
            td.measurement te.measurement (ap (value_at 21) same);
      expected_runtime_class = ap (value_at 22) same;
      kbs_resource_path = ap (value_at 23) same;
      unlock_mode = ap (value_at 24) same;
      policy_template_id = ap (value_at 25) same;
      policy_template_sha256 = ap (value_at 26) same;
      platform_release_version = ap (value_at 27) same;
    })
