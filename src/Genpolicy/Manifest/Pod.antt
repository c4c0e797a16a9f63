-- ===== src/Genpolicy/Manifest/Pod.antt =====
-- `render_pod_manifest`: the pod, of the containers and the volumes.
use policy_templates.Prelude.{
  Bytes, text, if◌then◌else◌, Bool, true, Option, List, [], ◌∷◌, ◌++◌, Result, ok, ok_or, ◌>>=◌,
  ◌>>◌, manifest_unprintable,
}
use policy_templates.External.{External}
use policy_templates.Descriptor.{LogEncryptionConfig, DeploymentDescriptor}
use policy_templates.Descriptor.Unique.{validate_unique_resource_names}
use policy_templates.Genpolicy.Value.{Value, boolean, string, json_object, json_array}
use policy_templates.Genpolicy.Environment.{trustee_kbs_url}
use policy_templates.Genpolicy.Shape.{Floats, is_small_shape}
use policy_templates.Genpolicy.Normalize.Mounts.{Printer}
use policy_templates.Genpolicy.Manifest.Parts.{str, num}
use policy_templates.Genpolicy.Manifest.App.{is_some, app_container}
use policy_templates.Genpolicy.Manifest.Proxy.{attestation_proxy_container}
use policy_templates.Genpolicy.Manifest.Ingress.{tenant_ingress_container}
use policy_templates.Genpolicy.Manifest.Init.{enclava_tools_container, enclava_init_container}
use policy_templates.Genpolicy.Manifest.Volumes.{cap_volumes}

abbrev pub kata_default_memory_annotation : Bytes
kata_default_memory_annotation = text "io.katacontainers.config.hypervisor.default_memory"

module _ (x : External) (f : Floats) (env : Bytes → Option Bytes) (d : DeploymentDescriptor) where
  unfoldable pub cap_runtime_annotations : Value
  unfolding trustee_kbs_url is_small_shape
  cap_runtime_annotations = json_object (
      (text "io.containerd.cri.runtime-handler", string d.expected_runtime_class)
      ∷ (
        text "io.katacontainers.config.hypervisor.kernel_params",
        string (
            text "agent.aa_kbc_params=cc_kbc::"
            ++ (trustee_kbs_url env ++ text " agent.guest_components_rest_api=all")),
      )
      ∷ (
        text "io.katacontainers.config.hypervisor.cc_init_data",
        str "enclava-dynamic-cc-init-data",
      )
      ∷ (text "io.katacontainers.config.runtime.cc_init_data", str "enclava-dynamic-cc-init-data")
      ∷ (if is_small_shape f d then (kata_default_memory_annotation, str "1536") ∷ [] else []))

  -- The pod of its containers, the tools container last.
  unfoldable pub pod_value : List Value → Value → Bool → Value
  unfolding cap_runtime_annotations cap_volumes
  pod_value containers tools log_enabled =
      let metadata = json_object (
        (text "name", string (d.app_name ++ text "-0"))
        ∷ (text "namespace", string d.namespace)
        ∷ (text "annotations", cap_runtime_annotations)
        ∷ []) in
      let security = json_object (
        (text "fsGroup", num 10001)
        ∷ (text "supplementalGroups", json_array (num 0 ∷ num 6 ∷ []))
        ∷ []) in
      let spec = json_object (
        (text "runtimeClassName", string d.expected_runtime_class)
        ∷ (text "shareProcessNamespace", boolean true)
        ∷ (text "securityContext", security)
        ∷ (text "initContainers", json_array (tools ∷ []))
        ∷ (text "containers", json_array containers)
        ∷ (text "volumes", json_array (cap_volumes d log_enabled))
        ∷ []) in
      json_object (
        (text "apiVersion", str "v1")
        ∷ (text "kind", str "Pod")
        ∷ (text "metadata", metadata)
        ∷ (text "spec", spec)
        ∷ [])

  -- The pod before it is printed.
  unfoldable pub pod_manifest : Option LogEncryptionConfig → Result Value
  unfolding app_container attestation_proxy_container tenant_ingress_container
      enclava_init_container enclava_tools_container pod_value
  pod_manifest log_encryption = do
    validate_unique_resource_names d
    proxy ← attestation_proxy_container d env
    ingress ← tenant_ingress_container d env
    init ← enclava_init_container env log_encryption
    tools ← enclava_tools_container env (is_some log_encryption)
    let containers = app_container d log_encryption x env ∷ proxy ∷ ingress ∷ init ∷ []
    ok (pod_value containers tools (is_some log_encryption))

  unfoldable pub render_pod_manifest : Printer → Option LogEncryptionConfig → Result Bytes
  unfolding pod_manifest
  render_pod_manifest printer log_encryption = do
    pod ← pod_manifest log_encryption
    ok_or (printer.to_yaml pod) manifest_unprintable
