-- ===== src/Genpolicy/Manifest/App.antt =====
-- The container of the application.
use policy_templates.Prelude.{
  Bytes, text, if◌then◌else◌, Bool, true, false, Option, none, some, List, [], ◌∷◌, ◌++◌, map,
}
use policy_templates.External.{External}
use policy_templates.Descriptor.{EnvVar, Port, LogEncryptionConfig, DeploymentDescriptor}
use policy_templates.Genpolicy.Value.{Value, string, json_object, json_array}
use policy_templates.Genpolicy.Keys.{is_empty, descriptor_uses_startup_fallback}
use policy_templates.Genpolicy.Environment.{log_spool_dir, log_spool_path}
use policy_templates.Genpolicy.Shape.{resources_yaml}
use policy_templates.Genpolicy.Manifest.Parts.{
  str, num, strings, value_env, mount, mount_with_propagation, app_security_context_from_descriptor,
  with_kubernetes_service_env,
}

abbrev pub if_some {ℓ κ} : {A : Type ℓ} {B : Type κ} → Option A → List B → List B
if_some none vs = []
if_some (some a) vs = vs

abbrev pub is_some {ℓ} : {A : Type ℓ} → Option A → Bool
is_some none = false
is_some (some a) = true

module _ (d : DeploymentDescriptor) (log_encryption : Option LogEncryptionConfig) where
  unfoldable pub app_volume_mounts : List Value
  unfolding mount mount_with_propagation descriptor_uses_startup_fallback log_spool_dir
  app_volume_mounts =
      mount (text "enclava-tools") (text "/enclava-tools") true
      ∷ ((if descriptor_uses_startup_fallback d
            then mount (text "startup") (text "/startup") true ∷ []
            else [])
          ++ (mount (text "unlock-socket") (text "/run/enclava") false
              ∷ mount_with_propagation (text "state-mount") (text "/state") false
                  (text "HostToContainer")
              ∷ if_some log_encryption (
                  mount_with_propagation (text "logs") log_spool_dir false (text "HostToContainer")
                  ∷ [])))

  module _ (x : External) where
    abbrev pub log_env_of : LogEncryptionConfig → List Value
    log_env_of log =
        value_env (text "ENCLAVA_LOG_ENCRYPTION_KEY_ID") log.key_id
        ∷ value_env (text "ENCLAVA_LOG_ORG_ID") d.org_slug
        ∷ value_env (text "ENCLAVA_LOG_APP_NAME") d.app_name
        ∷ value_env (text "ENCLAVA_LOG_DEPLOYMENT_ID") (x.uuid_to_string d.deploy_id)
        ∷ value_env (text "ENCLAVA_LOG_ENCRYPTION_PUBLIC_KEY_BASE64URL") log.public_key_base64url
        ∷ value_env (text "ENCLAVA_LOG_ENCRYPTION_PUBLIC_KEY_SHA256") log.public_key_sha256
        ∷ value_env (text "ENCLAVA_LOG_CONTAINER_NAME") (text "web")
        ∷ value_env (text "ENCLAVA_LOG_SPOOL_PATH") (log_spool_path log)
        ∷ []

    abbrev pub log_env : Option LogEncryptionConfig → List Value
    log_env none = []
    log_env (some log) = log_env_of log

    abbrev pub port_value : Port → Value
    port_value port = json_object (
        (text "containerPort", num port.container_port)
        ∷ (text "protocol", string port.protocol)
        ∷ [])

    abbrev pub env_value : EnvVar → Value
    env_value entry = value_env entry.name entry.value

    unfoldable pub app_container : (Bytes → Option Bytes) → Value
    unfolding app_volume_mounts app_security_context_from_descriptor resources_yaml
        with_kubernetes_service_env
    app_container env =
        let oci = d.oci_runtime_spec in
        json_object (
          (text "name", str "web")
          ∷ (text "image", string d.image_ref)
          ∷ (
            text "command",
            strings (
                if is_empty oci.command
                then text "/enclava-tools/enclava-wait-exec" ∷ []
                else oci.command),
          )
          ∷ (text "args", strings oci.args)
          ∷ (
            text "env",
            json_array
                (with_kubernetes_service_env env (map env_value oci.env ++ log_env log_encryption)),
          )
          ∷ (text "ports", json_array (map port_value oci.ports))
          ∷ (text "volumeMounts", json_array app_volume_mounts)
          ∷ (text "securityContext", app_security_context_from_descriptor oci)
          ∷ (text "resources", resources_yaml oci.resources)
          ∷ [])
