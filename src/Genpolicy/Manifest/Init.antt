-- ===== src/Genpolicy/Manifest/Init.antt =====
-- The containers that prepare the pod and unlock its state.
use policy_templates.Prelude.{
  Bytes, text, decimal, if◌then◌else◌, Bool, true, false, Option, none, some, List, [], ◌∷◌, ◌++◌,
  Result, ok, ◌>>=◌,
}
use policy_templates.Descriptor.{LogEncryptionConfig}
use policy_templates.Genpolicy.Value.{Value, string, json_object, json_array}
use policy_templates.Genpolicy.Environment.{log_spool_dir, log_spool_path}
use policy_templates.Genpolicy.Manifest.Scripts.{
  enclava_tools_init_command, enclava_tools_init_command_no_logs,
}
use policy_templates.Genpolicy.Manifest.Parts.{
  str, num, strings, value_env, mount, mount_with_propagation, security_context, caps, resources,
  with_kubernetes_service_env, enclava_init_image,
}
use policy_templates.Genpolicy.Manifest.App.{if_some}

unfoldable pub tools_volume_mounts : Bool → List Value
unfolding mount log_spool_dir
tools_volume_mounts log_enabled =
    mount (text "enclava-tools") (text "/work") false
    ∷ mount (text "unlock-socket") (text "/run/enclava") false
    ∷ (if log_enabled then mount (text "logs") log_spool_dir false ∷ [] else [])

abbrev pub tools_command : Bool → Bytes
tools_command log_enabled =
    if log_enabled then enclava_tools_init_command else enclava_tools_init_command_no_logs

unfoldable pub tools_value : Bool → Bytes → Value
unfolding tools_volume_mounts security_context caps resources
tools_value log_enabled image = json_object (
    (text "name", str "enclava-tools")
    ∷ (text "image", string image)
    ∷ (
      text "command",
      strings (text "/bin/sh" ∷ text "-eu" ∷ text "-c" ∷ tools_command log_enabled ∷ []),
    )
    ∷ (text "volumeMounts", json_array (tools_volume_mounts log_enabled))
    ∷ (text "securityContext", security_context 0 0 true false false (caps (text "ALL" ∷ []) []))
    ∷ (text "resources", resources (text "10m") (text "16Mi") (text "50m") (text "64Mi"))
    ∷ [])

unfoldable pub enclava_tools_container : (Bytes → Option Bytes) → Bool → Result Value
unfolding enclava_init_image tools_value
enclava_tools_container env log_enabled = do
  image ← enclava_init_image env
  ok (tools_value log_enabled image)

unfoldable pub init_volume_mounts : Option LogEncryptionConfig → List Value
unfolding mount mount_with_propagation log_spool_dir
init_volume_mounts log_encryption =
    mount_with_propagation (text "state-mount") (text "/state") false (text "Bidirectional")
    ∷ mount_with_propagation (text "tls-state-mount") (text "/state/tls-state") false
        (text "Bidirectional")
    ∷ mount (text "unlock-socket") (text "/run/enclava") false
    ∷ mount (text "unlock-channel") (text "/run/enclava-unlock") false
    ∷ mount (text "luks-material") (text "/run/enclava-luks") false
    ∷ mount (text "enclava-init-config") (text "/etc/enclava-init") true
    ∷ if_some log_encryption
        (mount_with_propagation (text "logs") log_spool_dir false (text "Bidirectional") ∷ [])

abbrev pub relay_env : Option LogEncryptionConfig → List Value
relay_env none = []
relay_env (some log) =
    value_env (text "ENCLAVA_LOG_RELAY_BIND") (text "127.0.0.1:" ++ decimal 8082)
    ∷ value_env (text "ENCLAVA_LOG_RELAY_CONTAINER") (text "web")
    ∷ value_env (text "ENCLAVA_LOG_RELAY_SPOOL_PATH") (log_spool_path log)
    ∷ []

unfoldable pub init_env : Option LogEncryptionConfig → List Value
unfolding value_env
init_env log_encryption =
    value_env (text "ENCLAVA_INIT_CONFIG") (text "/etc/enclava-init/config.toml")
    ∷ value_env (text "ENCLAVA_INIT_STAY_ALIVE") (text "true")
    ∷ value_env (text "ENCLAVA_INIT_READY_FILE") (text "/run/enclava/init-ready")
    ∷ value_env (text "ENCLAVA_INIT_STARTED_DIR") (text "/run/enclava/containers")
    ∷ value_env (text "ENCLAVA_INIT_UNLOCK_SOCKET_GID") (text "10001")
    ∷ value_env (text "ENCLAVA_INIT_WAIT_FOR_CONTAINERS")
        (text "web,tenant-ingress,attestation-proxy")
    ∷ value_env (text "KBS_FETCH_RETRIES") (text "120")
    ∷ value_env (text "KBS_FETCH_RETRY_SLEEP_SECONDS") (text "2")
    ∷ value_env (text "KBS_FETCH_REQUEST_TIMEOUT_SECONDS") (text "10")
    ∷ relay_env log_encryption

abbrev pub device : Bytes → Bytes → Value
device name device_path =
    json_object ((text "name", string name) ∷ (text "devicePath", string device_path) ∷ [])

unfoldable pub readiness_probe : Value
readiness_probe =
    let command = strings (text "/usr/local/bin/enclava-init" ∷ text "--probe-ready" ∷ []) in
    json_object (
      (text "exec", json_object ((text "command", command) ∷ []))
      ∷ (text "failureThreshold", num 6)
      ∷ (text "periodSeconds", num 5)
      ∷ (text "successThreshold", num 1)
      ∷ (text "timeoutSeconds", num 2)
      ∷ [])

module _ (env : Bytes → Option Bytes) (log_encryption : Option LogEncryptionConfig) where
  unfoldable pub init_value : Bytes → Value
  unfolding init_volume_mounts init_env readiness_probe security_context caps resources
      with_kubernetes_service_env
  init_value image = json_object (
      (text "name", str "enclava-init")
      ∷ (text "image", string image)
      ∷ (text "command", strings (text "/usr/local/bin/enclava-init" ∷ []))
      ∷ (text "readinessProbe", readiness_probe)
      ∷ (text "env", json_array (with_kubernetes_service_env env (init_env log_encryption)))
      ∷ (text "volumeMounts", json_array (init_volume_mounts log_encryption))
      ∷ (
        text "volumeDevices",
        json_array (
            device (text "state") (text "/dev/csi0")
            ∷ device (text "tls-state") (text "/dev/csi1")
            ∷ []),
      )
      ∷ (
        text "securityContext",
        security_context 0 0 true true true
            (caps (text "ALL" ∷ []) (text "$(privileged_caps)" ∷ [])),
      )
      ∷ (text "resources", resources (text "50m") (text "64Mi") (text "500m") (text "512Mi"))
      ∷ [])

  unfoldable pub enclava_init_container : Result Value
  unfolding enclava_init_image init_value
  enclava_init_container = do image ← enclava_init_image env; ok (init_value image)
