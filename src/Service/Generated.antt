-- ===== src/Service/Generated.antt =====
-- The service with the generator of genpolicy.rs.
use policy_templates.Prelude.{ℕ, ◌≡◌, sym, ap, ◌∙◌, Bytes, Bool, Option, some, ok}
use policy_templates.External.{External}
use policy_templates.OwnerStore.{Storage}
use policy_templates.OwnerStore.Table.{Db}
use policy_templates.Policy.{
  SigningKeyMaterial, SignRequest, SignedPolicyArtifact, GenpolicyInvocation,
}
use policy_templates.Policy.Inputs.{Json}
use policy_templates.Genpolicy.Shape.{Floats}
use policy_templates.Genpolicy.Normalize.Mounts.{Printer}
use policy_templates.Genpolicy.Settings.{Host}
use policy_templates.Genpolicy.Run.{GenpolicyConfig, run_with_log_encryption}
use policy_templates.Genpolicy.Ran.{Ran, run_with_log_encryption-Ran}
use policy_templates.Service.{sign_policy}
use policy_templates.Service.Signing.{Issued, sign_policy-Issued}

module _ {Value : Type 0} (x : External) (f : Floats) (printer : Printer)
    (env : Bytes → Option Bytes) (is_utf8 : Bytes → Bool) (h : Host) (config : GenpolicyConfig)
    (disk : h.Disk) (json : Json Value) (template : Bytes) where
  -- What an artifact says of the run that generated its policy.
  pub record Generated (key : SigningKeyMaterial) (works : Storage) (db : Db) (req : SignRequest)
      (now : ℕ) (a : SignedPolicyArtifact Value) : Type 1 where
    pub issued :
        Issued x json template
          (run_with_log_encryption x f printer env is_utf8 h config disk)
          key
          works
          db
          req
          now
          a
    pub ran :
        Ran x f printer env is_utf8 h config disk issued.inputs.descriptor req.log_encryption
          issued.generated
    pub policy_text : a.agent_policy_text ≡ issued.generated.policy_text
    pub expected :
        issued.inputs.descriptor.expected_agent_policy_hash ≡ x.sha256 a.agent_policy_text
    pub pin : a.metadata.genpolicy_version_pin ≡ config.version_pin

  -- If the service, with the generator of genpolicy.rs, answers a request with an artifact, then the
  -- generator ran on the manifest of the signed descriptor with the log encryption of the request; the
  -- policy in the artifact is its output, corrected and normalised, and has the hash that the signed
  -- descriptor expects; and the artifact names the configured version of the generator.
  pub sign_policy-Generated :
      (material : Option SigningKeyMaterial) (works : Storage) (enabled : Bool) (db : Db)
      (req : SignRequest) (now : ℕ) (a : SignedPolicyArtifact Value)
      → sign_policy x json template
          (run_with_log_encryption x f printer env is_utf8 h config disk)
          material
          works
          enabled
          db
          req
          now
        ≡ ok a
      → (key : SigningKeyMaterial) × (material ≡ some key) × Generated key works db req now a
  sign_policy-Generated material works enabled db req now a e =
      let generate = run_with_log_encryption x f printer env is_utf8 h config disk in
      let (key, ek, i) =
        sign_policy-Issued x json template generate material works enabled db req now a e in
      let ran =
        run_with_log_encryption-Ran x f printer env is_utf8 h config disk i.inputs.descriptor
          req.log_encryption i.generated i.policy in
      let text_is : a.agent_policy_text ≡ i.generated.policy_text =
        ap (λ (b : SignedPolicyArtifact Value). b.agent_policy_text) i.approved.artifact in
      (
        key,
        ek,
        record {
          issued = i;
          ran = ran;
          policy_text = text_is;
          expected = i.approved.agent_hash ∙ ap x.sha256 (sym text_is);
          pin =
              ap (λ (b : SignedPolicyArtifact Value). b.metadata.genpolicy_version_pin)
                i.approved.artifact
              ∙ ap (λ (v : GenpolicyInvocation). v.version_pin) ran.invocation;
        },
      )
