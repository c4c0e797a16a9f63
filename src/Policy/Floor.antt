-- ===== src/Policy/Floor.antt =====
-- The security floor of a descriptor's runtime specification (policy.rs).
use policy_templates.Prelude.{
  Bytes, text, eq_ignore_ascii_case, Bool, not, ◌&&◌, any, all, eqb, length, List, [], ◌∷◌, Result,
  ok, ensure, ◌>>◌, privileged_forbidden, privilege_escalation_forbidden,
}
use policy_templates.Descriptor.{Capabilities, OciRuntimeSpec, DeploymentDescriptor}

unfoldable pub rootful_sudo_caps : List Bytes
rootful_sudo_caps =
    text "CHOWN"
    ∷ text "DAC_OVERRIDE"
    ∷ text "FOWNER"
    ∷ text "SETGID"
    ∷ text "SETUID"
    ∷ text "AUDIT_WRITE"
    ∷ []

unfoldable pub capabilities_match_rootful_sudo : Capabilities → Bool
unfolding rootful_sudo_caps
capabilities_match_rootful_sudo caps =
    any (λ cap. eq_ignore_ascii_case cap (text "ALL")) caps.drop
    && (eqb (length caps.add) (length rootful_sudo_caps)
        && all (λ required. any (λ cap. eq_ignore_ascii_case cap required) caps.add)
            rootful_sudo_caps)

unfoldable pub descriptor_uses_rootful_sudo : OciRuntimeSpec → Bool
descriptor_uses_rootful_sudo oci =
    let sec = oci.security_context in
    eqb sec.run_as_user 0
    && (eqb sec.run_as_group 0
        && (not sec.read_only_root_fs
            && (sec.allow_privilege_escalation
                && (not sec.privileged && capabilities_match_rootful_sudo oci.capabilities))))

unfoldable pub validate_oci_security_floor : DeploymentDescriptor → Result (Unit {0})
validate_oci_security_floor d = do
  let oci = d.oci_runtime_spec
  ensure (not oci.security_context.privileged) privileged_forbidden
  ensure
      (not
        (oci.security_context.allow_privilege_escalation && not (descriptor_uses_rootful_sudo oci)))
      privilege_escalation_forbidden
  ok tt
