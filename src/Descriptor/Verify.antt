-- ===== src/Descriptor/Verify.antt =====
-- `verify_descriptor` of descriptor.rs, and what it accepts.
use policy_templates.Prelude.{
  ◌≡◌, refl, ◌↔◌, true, Bytes, ◌==◌, ==_iff, ==_sound, Result, ok, ensure, ensure-passed, ◌>>=◌,
  ◌>>◌, >>=-eq-ok, descriptor_signer_mismatch, descriptor_signature_invalid,
}
use policy_templates.External.{External}
use policy_templates.Descriptor.{DeploymentDescriptor, DeploymentDescriptorEnvelope}
use policy_templates.Descriptor.Records.{descriptor_canonical_bytes}

unfoldable pub verify_descriptor :
    External → DeploymentDescriptorEnvelope → Bytes → Result DeploymentDescriptor
verify_descriptor x envelope expected_pubkey = do
  ensure (envelope.signing_pubkey == expected_pubkey) descriptor_signer_mismatch
  bytes ← descriptor_canonical_bytes x envelope.descriptor
  ensure (x.verify expected_pubkey bytes envelope.signature) descriptor_signature_invalid
  ok envelope.descriptor

-- The key is the envelope's, and it signed the canonical bytes.
pub record SignedBy (x : External) (e : DeploymentDescriptorEnvelope) (key : Bytes) : Type 0 where
  pub signer : e.signing_pubkey ≡ key
  pub signed :
      (b : Bytes) × (descriptor_canonical_bytes x e.descriptor ≡ ok b)
      × (x.verify key b e.signature ≡ true)

-- `verify_descriptor` accepts an envelope exactly when the expected key is its signer and has signed
-- the descriptor's canonical bytes, and then returns the descriptor.
pub verify_descriptor_iff :
    (x : External) (e : DeploymentDescriptorEnvelope) (key : Bytes) (d : DeploymentDescriptor)
    → (verify_descriptor x e key ≡ ok d) ↔ (SignedBy x e key × (d ≡ e.descriptor))
unfolding verify_descriptor
verify_descriptor_iff x e key d = (
  λ h.
      let (signer, h1) = ensure-passed (e.signing_pubkey == key) _ _ h in
      let (b, canonical, h2) = >>=-eq-ok (descriptor_canonical_bytes x e.descriptor) _ h1 in
      let (signed, h3) = ensure-passed (x.verify key b e.signature) _ _ h2 in
      (
        record { signer = ==_sound e.signing_pubkey key signer; signed = (b, canonical, signed) },
        cc,
      ),
  λ (s, same). rw ((==_iff e.signing_pubkey key).1 s.signer, s.signed.1, s.signed.2, same) refl,
)
