-- ===== src/Policy/Render.antt =====
-- `render_template` of policy.rs. The text of the template is a parameter.
use policy_templates.Prelude.{
  ℕ, Bytes, text, ◌==◌, contains, replace, Bool, not, ◌||◌, any, eqb, List, [], ◌∷◌, Result, ok,
  ensure, ◌>>=◌, ◌>>◌, unrendered_slot, slot_empty, slot_invalid,
}
use policy_templates.External.{External}
use policy_templates.Descriptor.{DeploymentDescriptor}

-- '"', '\n', '\r' and 0
abbrev pub is_invalid_byte : ℕ → Bool
is_invalid_byte byte = eqb byte 34 || (eqb byte 10 || (eqb byte 13 || eqb byte 0))

unfoldable pub validate_rego_string_slot : Bytes → Bytes → Result (Unit {0})
validate_rego_string_slot name value = do
  ensure (not (value == [])) (slot_empty name)
  ensure (not (any is_invalid_byte value)) (slot_invalid name)
  ok tt

unfoldable pub replacements : External → DeploymentDescriptor → List (Bytes × Bytes)
replacements x d =
    (text "{{init_data_hash}}", x.hex_encode d.expected_cc_init_data_hash)
    ∷ (text "{{image_digest}}", d.image_digest)
    ∷ (text "{{signer_subject}}", d.signer_identity.subject)
    ∷ (text "{{signer_issuer}}", d.signer_identity.issuer)
    ∷ (text "{{namespace}}", d.namespace)
    ∷ (text "{{service_account}}", d.service_account)
    ∷ (text "{{identity_hash}}", x.hex_encode d.identity_hash)
    ∷ (text "{{kbs_resource_path}}", d.kbs_resource_path)
    ∷ []

-- The loop over the replacements.
unfoldable pub render : Bytes → List (Bytes × Bytes) → Result Bytes
render rendered [] = ok rendered
render rendered ((needle, value) ∷ rest) = do
  _ ← validate_rego_string_slot needle value
  render (replace rendered needle value) rest

unfoldable pub render_template : External → Bytes → DeploymentDescriptor → Result Bytes
unfolding replacements render
render_template x template d = do
  rendered ← render template (replacements x d)
  ensure (not (contains (text "{{") rendered)) unrendered_slot
  ok rendered

unfoldable pub template_sha256 : External → Bytes → Bytes
template_sha256 x template = x.sha256 template
