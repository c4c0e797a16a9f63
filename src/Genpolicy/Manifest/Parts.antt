-- ===== src/Genpolicy/Manifest/Parts.antt =====
-- The parts that the containers of the manifest are made of.
use Prim.Native.String.{String}
use policy_templates.Prelude.{
  ℕ, Bytes, text, contains, eqb, not, ◌&&◌, Bool, true, false, Option, List, [], ◌∷◌, ◌++◌, map,
  Result, ok, ensure, ok_or, ◌>>=◌, ◌>>◌, if◌then◌else◌, init_image_required, init_image_not_pinned,
}
use policy_templates.Descriptor.{Capabilities, OciRuntimeSpec}
use policy_templates.Genpolicy.Value.{
  Value, boolean, number, pos_int, string, json_object, json_array,
}
use policy_templates.Genpolicy.Keys.{is_empty}
use policy_templates.Genpolicy.Environment.{kubernetes_service_host}

-- A literal, a number and an array of strings of `json!`.
abbrev pub str : String → Value
str s = string (text s)

abbrev pub num : ℕ → Value
num n = number (pos_int n)

abbrev pub strings : List Bytes → Value
strings l = json_array (map string l)

unfoldable pub image_ref : Bytes → Bytes → Bytes
image_ref repo digest = repo ++ (text "@" ++ digest)

-- In a build that is not a test.
abbrev pub sidecar_image_repo : Bytes → Bytes
sidecar_image_repo repo = repo

unfoldable pub value_env : Bytes → Bytes → Value
value_env name value = json_object ((text "name", string name) ∷ (text "value", string value) ∷ [])

unfoldable pub field_env : Bytes → Bytes → Value
field_env name field_path =
    let reference = json_object ((text "fieldPath", string field_path) ∷ []) in
    json_object (
      (text "name", string name)
      ∷ (text "valueFrom", json_object ((text "fieldRef", reference) ∷ []))
      ∷ [])

unfoldable pub mount : Bytes → Bytes → Bool → Value
mount name mount_path read_only = json_object (
    (text "name", string name)
    ∷ (text "mountPath", string mount_path)
    ∷ (text "readOnly", boolean read_only)
    ∷ [])

unfoldable pub mount_with_propagation : Bytes → Bytes → Bool → Bytes → Value
mount_with_propagation name mount_path read_only propagation = json_object (
    (text "name", string name)
    ∷ (text "mountPath", string mount_path)
    ∷ (text "readOnly", boolean read_only)
    ∷ (text "mountPropagation", string propagation)
    ∷ [])

-- `caps` and `caps_from_descriptor` make the same object, of literals and of strings.
unfoldable pub caps : List Bytes → List Bytes → Value
caps drop add =
    if is_empty add
    then json_object ((text "drop", strings drop) ∷ [])
    else json_object ((text "drop", strings drop) ∷ (text "add", strings add) ∷ [])

unfoldable pub caps_from_descriptor : Capabilities → Value
unfolding caps
caps_from_descriptor capabilities = caps capabilities.drop capabilities.add

unfoldable pub security_context : ℕ → ℕ → Bool → Bool → Bool → Value → Value
security_context user group read_only escalation privileged capabilities = json_object (
    (text "runAsUser", num user)
    ∷ (text "runAsGroup", num group)
    ∷ (text "readOnlyRootFilesystem", boolean read_only)
    ∷ (text "allowPrivilegeEscalation", boolean escalation)
    ∷ (text "privileged", boolean privileged)
    ∷ (text "capabilities", capabilities)
    ∷ [])

unfoldable pub restricted_app_security_context : Value
unfolding security_context caps
restricted_app_security_context =
    security_context 10001 10001 true false false (caps (text "ALL" ∷ []) [])

unfoldable pub descriptor_has_legacy_unset_security : OciRuntimeSpec → Bool
descriptor_has_legacy_unset_security oci =
    let sec = oci.security_context in
    eqb sec.run_as_user 0
    && (eqb sec.run_as_group 0
        && (not sec.read_only_root_fs
            && (not sec.allow_privilege_escalation
                && (not sec.privileged
                    && (is_empty oci.capabilities.add && is_empty oci.capabilities.drop)))))

unfoldable pub app_security_context_from_descriptor : OciRuntimeSpec → Value
unfolding descriptor_has_legacy_unset_security restricted_app_security_context security_context
    caps_from_descriptor
app_security_context_from_descriptor oci =
    let sec = oci.security_context in
    if descriptor_has_legacy_unset_security oci
    then restricted_app_security_context
    else security_context sec.run_as_user sec.run_as_group sec.read_only_root_fs
        sec.allow_privilege_escalation sec.privileged (caps_from_descriptor oci.capabilities)

unfoldable pub resources : Bytes → Bytes → Bytes → Bytes → Value
resources request_cpu request_memory limit_cpu limit_memory =
    let pair = λ (cpu memory : Bytes).
      json_object ((text "cpu", string cpu) ∷ (text "memory", string memory) ∷ []) in
    json_object (
      (text "requests", pair request_cpu request_memory)
      ∷ (text "limits", pair limit_cpu limit_memory)
      ∷ [])

unfoldable pub sidecar_resources : Value
unfolding resources
sidecar_resources = resources (text "100m") (text "128Mi") (text "500m") (text "256Mi")

module _ (env : Bytes → Option Bytes) where
  unfoldable pub kubernetes_service_env : List Value
  unfolding value_env kubernetes_service_host
  kubernetes_service_env =
      let host = kubernetes_service_host env in
      let url = text "tcp://" ++ (host ++ text ":443") in
      value_env (text "KUBERNETES_SERVICE_PORT") (text "443")
      ∷ value_env (text "KUBERNETES_SERVICE_PORT_HTTPS") (text "443")
      ∷ value_env (text "KUBERNETES_PORT") url
      ∷ value_env (text "KUBERNETES_PORT_443_TCP") url
      ∷ value_env (text "KUBERNETES_PORT_443_TCP_PROTO") (text "tcp")
      ∷ value_env (text "KUBERNETES_PORT_443_TCP_PORT") (text "443")
      ∷ value_env (text "KUBERNETES_PORT_443_TCP_ADDR") host
      ∷ value_env (text "KUBERNETES_SERVICE_HOST") host
      ∷ []

  unfoldable pub with_kubernetes_service_env : List Value → List Value
  unfolding kubernetes_service_env
  with_kubernetes_service_env vars = vars ++ kubernetes_service_env

  -- In a build that is not a test.
  unfoldable pub enclava_init_image : Result Bytes
  enclava_init_image = do
    image ← ok_or (env (text "ENCLAVA_INIT_IMAGE")) init_image_required
    ensure (contains (text "@sha256:") image) init_image_not_pinned
    ok image
