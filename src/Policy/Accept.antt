-- ===== src/Policy/Accept.antt =====
-- What `verify_signing_inputs` accepts.
use policy_templates.Prelude.{
  ◌≡◌, refl, sym, ap, ◌∙◌, ok_inj, ◌↔◌, Bytes, ◌==◌, ==_iff, ==_sound, Any, ok, ensure-passed,
  >>=-eq-ok,
}
use policy_templates.External.{External}
use policy_templates.Keyring.{Member, keyring_fingerprint, verify_keyring, find_deployer_pubkey}
use policy_templates.Keyring.Verify.{Authentic, verify_keyring_iff, find_deployer_pubkey_iff}
use policy_templates.Descriptor.Records.{descriptor_core_hash}
use policy_templates.Descriptor.Unique.{
  Distinct, names, validate_unique_resource_names, validate_unique_resource_names_iff,
}
use policy_templates.Descriptor.Verify.{SignedBy, verify_descriptor, verify_descriptor_iff}
use policy_templates.Policy.{DecodedSigningBlobs, VerifiedSigningInputs}
use policy_templates.Policy.Inputs.{verify_signing_inputs}

-- The chain of trust from the owner to the descriptor, and what is made of it.
pub record Trusted {Value : Type 0} (x : External) (blobs : DecodedSigningBlobs Value)
    (owner : Bytes) (inputs : VerifiedSigningInputs Value) : Type 0 where
  pub same_org : blobs.descriptor_envelope.descriptor.org_id ≡ blobs.keyring_envelope.keyring.org_id
  pub keyring : Authentic x blobs.keyring_envelope owner
  pub deployer :
      Any
        (λ (m : Member). m.pubkey ≡ blobs.descriptor_envelope.signing_pubkey)
        blobs.keyring_envelope.keyring.members
  pub descriptor : SignedBy x blobs.descriptor_envelope blobs.descriptor_envelope.signing_pubkey
  pub requests :
      Distinct (names blobs.descriptor_envelope.descriptor.oci_runtime_spec.resources.requests)
  pub limits :
      Distinct (names blobs.descriptor_envelope.descriptor.oci_runtime_spec.resources.limits)
  pub core_hash :
      descriptor_core_hash x blobs.descriptor_envelope.descriptor ≡ ok inputs.descriptor_core_hash
  pub fingerprint :
      keyring_fingerprint x blobs.keyring_envelope.keyring ≡ ok inputs.org_keyring_fingerprint
  pub output : inputs ≡ record {
    descriptor = blobs.descriptor_envelope.descriptor;
    descriptor_signing_pubkey = blobs.descriptor_envelope.signing_pubkey;
    descriptor_core_hash = inputs.descriptor_core_hash;
    org_keyring_fingerprint = inputs.org_keyring_fingerprint;
    org_keyring = blobs.keyring_envelope_value;
  }

module _ {Value : Type 0} (x : External) (blobs : DecodedSigningBlobs Value) (owner : Bytes)
    (inputs : VerifiedSigningInputs Value) where
  Trusted-of_verify : verify_signing_inputs x blobs owner ≡ ok inputs → Trusted x blobs owner inputs
  unfolding verify_signing_inputs
  Trusted-of_verify h =
      let de = blobs.descriptor_envelope in
      let ke = blobs.keyring_envelope in
      let (org, h1) = ensure-passed (de.descriptor.org_id == ke.keyring.org_id) _ _ h in
      let (k, ek, h2) = >>=-eq-ok (verify_keyring x ke owner) _ h1 in
      let (authentic, same_k) = (verify_keyring_iff x ke owner k).0 ek in
      let (p, ep, h3) = >>=-eq-ok (find_deployer_pubkey k de.signing_pubkey) _ h2 in
      let (same_p, member) = (find_deployer_pubkey_iff k de.signing_pubkey p).0 ep in
      let (d, ed, h4) = >>=-eq-ok (verify_descriptor x de p) _ h3 in
      let (signed, same_d) = (verify_descriptor_iff x de p d).0 ed in
      let (u, eu, h5) = >>=-eq-ok (validate_unique_resource_names d) _ h4 in
      let (requests, limits) = (validate_unique_resource_names_iff d).0 eu in
      let (c, ec, h6) = >>=-eq-ok (descriptor_core_hash x d) _ h5 in
      let (f, ef, h7) = >>=-eq-ok (keyring_fingerprint x k) _ h6 in
      let same = ok_inj h7 in
      let same_c = ap (λ (i : VerifiedSigningInputs Value). i.descriptor_core_hash) same in
      let same_f = ap (λ (i : VerifiedSigningInputs Value). i.org_keyring_fingerprint) same in
      record {
        same_org = ==_sound _ _ org;
        keyring = authentic;
        deployer = rw same_k at member;
        descriptor = rw same_p at signed;
        requests = rw same_d at requests;
        limits = rw same_d at limits;
        core_hash = cc (ec, same_d, same_c);
        fingerprint = cc (ef, same_k, same_f);
        output = sym same ∙ λ i. record {
          descriptor = same_d i;
          descriptor_signing_pubkey = same_p i;
          descriptor_core_hash = same_c i;
          org_keyring_fingerprint = same_f i;
          org_keyring = blobs.keyring_envelope_value;
        };
      }

  verify_of_Trusted : Trusted x blobs owner inputs → verify_signing_inputs x blobs owner ≡ ok inputs
  unfolding verify_signing_inputs
  verify_of_Trusted t =
      let de = blobs.descriptor_envelope in
      let ke = blobs.keyring_envelope in
      rw
        (
          (==_iff _ _).1 t.same_org,
          (verify_keyring_iff x ke owner ke.keyring).1 (t.keyring, refl),
          (find_deployer_pubkey_iff ke.keyring de.signing_pubkey de.signing_pubkey).1
              (refl, t.deployer),
          (verify_descriptor_iff x de de.signing_pubkey de.descriptor).1 (t.descriptor, refl),
          (validate_unique_resource_names_iff de.descriptor).1 (t.requests, t.limits),
          t.core_hash,
          t.fingerprint,
        )
        (rw t.output refl)

-- `verify_signing_inputs` accepts exactly a descriptor of the keyring's organisation, signed by a
-- member of a keyring that the trusted owner signed and owns, without repeated resource names; it
-- returns the descriptor, its signer, the core hash and the fingerprint.
pub verify_signing_inputs_iff :
    {Value : Type 0} (x : External) (blobs : DecodedSigningBlobs Value) (owner : Bytes)
    (inputs : VerifiedSigningInputs Value)
    → (verify_signing_inputs x blobs owner ≡ ok inputs) ↔ Trusted x blobs owner inputs
verify_signing_inputs_iff x blobs owner inputs =
    (Trusted-of_verify x blobs owner inputs, verify_of_Trusted x blobs owner inputs)
