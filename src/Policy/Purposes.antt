-- ===== src/Policy/Purposes.antt =====
-- The purposes in the signed messages of keyrings, descriptors and artifacts and in the core hash of a
-- descriptor.
use policy_templates.Prelude.{
  ℕ, ◌≡◌, ◌≢◌, refl, sym, ap, ◌∙◌, Bytes, text, true, false, List, ok, >>=-eq-ok, arith,
}
use policy_templates.External.{External}
use policy_templates.Canonical.{Tlv, ce_v1_bytes}
use policy_templates.Canonical.Binding.{ce_v1_bytes_inj}
use policy_templates.Canonical.Binds.{nth, value_at}
use policy_templates.Keyring.{
  OrgKeyring, keyring_records, canonical_members_hash, canonical_keyring_bytes,
}
use policy_templates.Descriptor.{DeploymentDescriptor}
use policy_templates.Descriptor.Records.{
  new_sub_hashes, fixed_records, descriptor_records, descriptor_canonical_bytes,
  descriptor_core_canonical_bytes,
}
use policy_templates.Policy.{PolicyMetadata}
use policy_templates.Policy.Metadata.{
  canonical_policy_metadata_hash, signing_records, policy_artifact_signing_input,
}

-- The bytes encode records whose first value is the purpose.
record HasPurpose (purpose bytes : Bytes) : Type 0 where
  records : List Tlv
  encoded : ce_v1_bytes records ≡ ok bytes
  first : value_at 0 records ≡ purpose

HasPurpose-differ : {p q a b : Bytes} → HasPurpose p a → HasPurpose q b → p ≢ q → a ≢ b
HasPurpose-differ ha hb differ e = differ (
    sym ha.first
    ∙ ap (value_at 0) (ce_v1_bytes_inj ha.records hb.records ha.encoded (rw e hb.encoded))
    ∙ hb.first)

abbrev keyring_purpose : Bytes
keyring_purpose = text "enclava-org-keyring-v1"

abbrev descriptor_purpose : Bytes
descriptor_purpose = text "enclava-deployment-descriptor-v1"

abbrev core_purpose : Bytes
core_purpose = text "enclava-deployment-descriptor-core-v1"

abbrev artifact_purpose : Bytes
artifact_purpose = text "enclava-policy-artifact-v1"

differ_at : (i : ℕ) (p q : Bytes) → nth i p ≢ nth i q → p ≢ q
differ_at i p q h e = h (ap (nth i) e)

module _ (x : External) where
  keyring-HasPurpose :
      (k : OrgKeyring) {b : Bytes}
      → canonical_keyring_bytes x k ≡ ok b
      → HasPurpose keyring_purpose b
  unfolding canonical_keyring_bytes keyring_records
  keyring-HasPurpose k h =
      let (i, _, e) = >>=-eq-ok (canonical_members_hash x k.members) _ h in
      record { records = keyring_records x k i; encoded = e; first = refl }

  descriptor-HasPurpose :
      (d : DeploymentDescriptor) {b : Bytes}
      → descriptor_canonical_bytes x d ≡ ok b
      → HasPurpose descriptor_purpose b
  unfolding descriptor_canonical_bytes descriptor_records fixed_records
  descriptor-HasPurpose d h =
      let (s, _, e) = >>=-eq-ok (new_sub_hashes x d) _ h in
      record { records = descriptor_records d descriptor_purpose true s; encoded = e; first = refl }

  core-HasPurpose :
      (d : DeploymentDescriptor) {b : Bytes}
      → descriptor_core_canonical_bytes x d ≡ ok b
      → HasPurpose core_purpose b
  unfolding descriptor_core_canonical_bytes descriptor_records fixed_records
  core-HasPurpose d h =
      let (s, _, e) = >>=-eq-ok (new_sub_hashes x d) _ h in
      record { records = descriptor_records d core_purpose false s; encoded = e; first = refl }

  artifact-HasPurpose :
      (m : PolicyMetadata) (g : Bytes) {b : Bytes}
      → policy_artifact_signing_input x m g ≡ ok b
      → HasPurpose artifact_purpose b
  unfolding policy_artifact_signing_input signing_records
  artifact-HasPurpose m g h =
      let (i, _, e) = >>=-eq-ok (canonical_policy_metadata_hash x m) _ h in
      record { records = signing_records x i g; encoded = e; first = refl }

-- The bytes that an owner signs for a keyring, a deployer for a descriptor and the service for an
-- artifact, and the bytes of a core hash, are four different messages.
pub purposes_differ :
    (x : External) (k : OrgKeyring) (d e : DeploymentDescriptor) (m : PolicyMetadata)
    (g keyring signed core artifact : Bytes)
    → canonical_keyring_bytes x k ≡ ok keyring
    → descriptor_canonical_bytes x d ≡ ok signed
    → descriptor_core_canonical_bytes x e ≡ ok core
    → policy_artifact_signing_input x m g ≡ ok artifact
    → (keyring ≢ signed)
      × (keyring ≢ core)
      × (keyring ≢ artifact)
      × (signed ≢ core)
      × (signed ≢ artifact)
      × (core ≢ artifact)
unfolding text
purposes_differ x k d e m g keyring signed core artifact hk hd he hm =
    let pk = keyring-HasPurpose x k hk in
    let pd = descriptor-HasPurpose x d hd in
    let pe = core-HasPurpose x e he in
    let pm = artifact-HasPurpose x m g hm in
    (
      HasPurpose-differ pk pd
          (differ_at 8 keyring_purpose descriptor_purpose (λ e. omega (arith, e))),
      HasPurpose-differ pk pe (differ_at 8 keyring_purpose core_purpose (λ e. omega (arith, e))),
      HasPurpose-differ pk pm
          (differ_at 8 keyring_purpose artifact_purpose (λ e. omega (arith, e))),
      HasPurpose-differ pd pe
          (differ_at 30 descriptor_purpose core_purpose (λ e. omega (arith, e))),
      HasPurpose-differ pd pm
          (differ_at 8 descriptor_purpose artifact_purpose (λ e. omega (arith, e))),
      HasPurpose-differ pe pm (differ_at 8 core_purpose artifact_purpose (λ e. omega (arith, e))),
    )
