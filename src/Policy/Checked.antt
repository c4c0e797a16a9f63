-- ===== src/Policy/Checked.antt =====
-- What `sign_verified_policy` signs.
use policy_templates.Prelude.{
  ℕ, ◌≡◌, refl, ◌↔◌, Bytes, text, ◌==◌, ==_iff, ==_sound, ok, some, false, All, contains, ◌⊎◌,
  ensure-passed, >>=-eq-ok,
}
use policy_templates.External.{External}
use policy_templates.Policy.{
  SigningKeyMaterial, SignRequest, PolicyMetadata, SignedPolicyArtifact, VerifiedSigningInputs,
  GeneratedAgentPolicy, template_id,
}
use policy_templates.Policy.Sudo.{RootfulSudo, validate_oci_security_floor_iff}
use policy_templates.Policy.Slots.{IsSlotValue, slots, substitute, render_template_iff}
use policy_templates.Policy.Message.{Message, policy_artifact_signing_input_iff}
use policy_templates.Policy.Floor.{validate_oci_security_floor}
use policy_templates.Policy.Render.{render_template, template_sha256}
use policy_templates.Policy.Metadata.{policy_artifact_signing_input}
use policy_templates.Policy.Sign.{metadata_of, artifact_of, sign_verified_policy}

-- What an artifact says of itself: of the descriptor, the template, the policy of the generator, the
-- key and the time.
abbrev pub stated :
    {Value : Type 0}
    → External
    → Bytes
    → VerifiedSigningInputs Value
    → GeneratedAgentPolicy
    → SigningKeyMaterial
    → ℕ
    → PolicyMetadata
stated x template inputs generated key now = record {
  app_id = x.uuid_to_string inputs.descriptor.app_id;
  deploy_id = x.uuid_to_string inputs.descriptor.deploy_id;
  descriptor_core_hash = x.hex_encode inputs.descriptor_core_hash;
  descriptor_signing_pubkey = x.hex_encode inputs.descriptor_signing_pubkey;
  platform_release_version = inputs.descriptor.platform_release_version;
  policy_template_id = text "trustee-resource-policy-v1.1";
  policy_template_sha256 = x.hex_encode (x.sha256 template);
  agent_policy_sha256 = x.hex_encode (x.sha256 generated.policy_text);
  genpolicy_version_pin = generated.invocation.version_pin;
  signed_at = x.to_rfc3339 now;
  key_id = key.key_id;
}

-- The artifact with these statements, the texts, their hashes, and the signature.
abbrev pub shown :
    {Value : Type 0}
    → External
    → Bytes
    → VerifiedSigningInputs Value
    → GeneratedAgentPolicy
    → SigningKeyMaterial
    → ℕ
    → Bytes
    → Bytes
    → SignedPolicyArtifact Value
shown x template inputs generated key now rego_text signing_input = record {
  metadata = stated x template inputs generated key now;
  rego_text = rego_text;
  rego_sha256 = x.hex_encode (x.sha256 rego_text);
  agent_policy_text = generated.policy_text;
  agent_policy_sha256 = x.hex_encode (x.sha256 generated.policy_text);
  signature = x.hex_encode (x.sign key.signing_key signing_input);
  verify_pubkey_b64 = x.b64_encode (x.verifying_key key.signing_key);
  org_keyring = some inputs.org_keyring;
}

-- The request and the generated policy are those of the descriptor, the descriptor is above the
-- security floor and names this template, its rendered text is the one that the deployer signed,
-- and the artifact shows all of it under a signature.
pub record Approved {Value : Type 0} (x : External) (template : Bytes) (req : SignRequest)
    (inputs : VerifiedSigningInputs Value) (generated : GeneratedAgentPolicy)
    (key : SigningKeyMaterial) (now : ℕ) (a : SignedPolicyArtifact Value) : Type 0 where
  pub app_id : req.app_id ≡ inputs.descriptor.app_id
  pub deploy_id : req.deploy_id ≡ inputs.descriptor.deploy_id
  pub release : req.platform_release_version ≡ inputs.descriptor.platform_release_version
  pub schema : inputs.descriptor.schema_version ≡ text "v1"
  pub template_named : inputs.descriptor.policy_template_id ≡ text "trustee-resource-policy-v1.1"
  pub template_hash : inputs.descriptor.policy_template_sha256 ≡ x.sha256 template
  pub unprivileged : inputs.descriptor.oci_runtime_spec.security_context.privileged ≡ false
  pub escalation :
      (inputs.descriptor.oci_runtime_spec.security_context.allow_privilege_escalation ≡ false)
      ⊎ RootfulSudo inputs.descriptor.oci_runtime_spec
  pub rego_text : Bytes
  pub values : All (λ (slot : Bytes × Bytes). IsSlotValue slot.1) (slots x inputs.descriptor)
  pub rendered : rego_text ≡ substitute template (slots x inputs.descriptor)
  pub no_slot_left : contains (text "{{") rego_text ≡ false
  pub kbs_hash : inputs.descriptor.expected_kbs_policy_hash ≡ x.sha256 rego_text
  pub agent_hash : inputs.descriptor.expected_agent_policy_hash ≡ x.sha256 generated.policy_text
  pub signing_input : Bytes
  pub input :
      Message x (stated x template inputs generated key now) (x.sha256 rego_text) signing_input
  pub artifact : a ≡ shown x template inputs generated key now rego_text signing_input

module _ {Value : Type 0} (x : External) (template : Bytes) (req : SignRequest)
    (inputs : VerifiedSigningInputs Value) (generated : GeneratedAgentPolicy)
    (key : SigningKeyMaterial) (now : ℕ) (a : SignedPolicyArtifact Value) where
  Approved-of_sign :
      sign_verified_policy x template req inputs generated key now ≡ ok a
      → Approved x template req inputs generated key now a
  unfolding sign_verified_policy metadata_of artifact_of template_sha256 template_id
  Approved-of_sign h =
      let d = inputs.descriptor in
      let (app, h1) = ensure-passed (req.app_id == d.app_id) _ _ h in
      let (deploy, h2) = ensure-passed (req.deploy_id == d.deploy_id) _ _ h1 in
      let (release, h3) =
        ensure-passed (req.platform_release_version == d.platform_release_version) _ _ h2 in
      let (schema, h4) = ensure-passed (d.schema_version == text "v1") _ _ h3 in
      let (named, h5) = ensure-passed (d.policy_template_id == template_id) _ _ h4 in
      let (hash, h6) =
        ensure-passed (d.policy_template_sha256 == template_sha256 x template) _ _ h5 in
      let (u, floor, h7) = >>=-eq-ok (validate_oci_security_floor d) _ h6 in
      let (safe, profile) = (validate_oci_security_floor_iff d).0 floor in
      let (rego, rendered, h8) = >>=-eq-ok (render_template x template d) _ h7 in
      let (values, substituted, none_left) = (render_template_iff x template d rego).0 rendered in
      let (kbs, h9) = ensure-passed (d.expected_kbs_policy_hash == x.sha256 rego) _ _ h8 in
      let (agent, h10) =
        ensure-passed (d.expected_agent_policy_hash == x.sha256 generated.policy_text) _ _ h9 in
      let (input, signed, h11) =
        >>=-eq-ok
          (policy_artifact_signing_input x (stated x template inputs generated key now)
            (x.sha256 rego))
          _ h10 in
      record {
        app_id = ==_sound _ _ app;
        deploy_id = ==_sound _ _ deploy;
        release = ==_sound _ _ release;
        schema = ==_sound _ _ schema;
        template_named = ==_sound _ _ named;
        template_hash = ==_sound _ _ hash;
        unprivileged = safe;
        escalation = profile;
        rego_text = rego;
        values = values;
        rendered = substituted;
        no_slot_left = none_left;
        kbs_hash = ==_sound _ _ kbs;
        agent_hash = ==_sound _ _ agent;
        signing_input = input;
        input = (policy_artifact_signing_input_iff x _ _ _).0 signed;
        artifact = cc;
      }

  sign_of_Approved :
      Approved x template req inputs generated key now a
      → sign_verified_policy x template req inputs generated key now ≡ ok a
  unfolding sign_verified_policy metadata_of artifact_of template_sha256 template_id
  sign_of_Approved p =
      rw
        (
          (==_iff _ _).1 p.app_id,
          (==_iff _ _).1 p.deploy_id,
          (==_iff _ _).1 p.release,
          (==_iff _ _).1 p.schema,
          (==_iff _ _).1 p.template_named,
          (==_iff _ _).1 p.template_hash,
          (validate_oci_security_floor_iff inputs.descriptor).1 (p.unprivileged, p.escalation),
          (render_template_iff x template inputs.descriptor p.rego_text).1
              (p.values, p.rendered, p.no_slot_left),
          (==_iff _ _).1 p.kbs_hash,
          (==_iff _ _).1 p.agent_hash,
          (policy_artifact_signing_input_iff x _ _ _).1 p.input,
          p.artifact,
        )
        refl

-- `sign_verified_policy` returns an artifact exactly when the request agrees with the descriptor; the
-- descriptor has the supported version, names this template, is not privileged and escalates no
-- privileges but in the profile of sudo; the values of the template's slots are allowed, no slot is
-- left, and the rendered text and the generated policy have the hashes that the descriptor expects.
-- Then the artifact is the one whose fields, those of the metadata included, are written out in
-- `stated` and `shown`, and its signature is over the message written out in `Message`: the purpose,
-- the hash of that metadata, and the hash of the text.
pub sign_verified_policy_iff :
    {Value : Type 0} (x : External) (template : Bytes) (req : SignRequest)
    (inputs : VerifiedSigningInputs Value) (generated : GeneratedAgentPolicy)
    (key : SigningKeyMaterial) (now : ℕ) (a : SignedPolicyArtifact Value)
    → (sign_verified_policy x template req inputs generated key now ≡ ok a)
      ↔ Approved x template req inputs generated key now a
sign_verified_policy_iff x template req inputs generated key now a = (
  Approved-of_sign x template req inputs generated key now a,
  sign_of_Approved x template req inputs generated key now a,
)
