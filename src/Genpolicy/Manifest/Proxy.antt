-- ===== src/Genpolicy/Manifest/Proxy.antt =====
-- The container of the attestation proxy.
use policy_templates.Prelude.{
  ℕ, Bytes, text, ◌==◌, trim, ◌||◌, if◌then◌else◌, true, false, Option, none, some, List, [], ◌∷◌,
  ◌++◌, Result, ok, err, ◌>>=◌, unlock_mode_invalid,
}
use policy_templates.Descriptor.{DeploymentDescriptor}
use policy_templates.Genpolicy.Value.{Value, string, json_object, json_array}
use policy_templates.Genpolicy.Keys.{
  is_empty, descriptor_uses_root_managed_config, required_config_keys_from_descriptor,
}
use policy_templates.Genpolicy.Environment.{
  trustee_kbs_resource_url, trustee_kbs_ca_cert_pem, attestation_proxy_image_repo, amd_kds_base_url,
}
use policy_templates.Genpolicy.Manifest.Parts.{
  str, num, strings, image_ref, sidecar_image_repo, value_env, field_env, mount,
  mount_with_propagation, security_context, caps, sidecar_resources, with_kubernetes_service_env,
}

unfoldable pub storage_ownership_mode : Bytes → Result Bytes
storage_ownership_mode mode =
    if mode == text "auto" || mode == text "auto-unlock"
    then ok (text "auto-unlock")
    else if mode == text "password"
    then ok (text "password")
    else err (unlock_mode_invalid mode)

-- A variable that is pushed if there is a value.
abbrev pub env_if_some : Bytes → Option Bytes → List Value
env_if_some name none = []
env_if_some name (some value) = value_env name value ∷ []

abbrev pub port_named : ℕ → Bytes → Value
port_named port name =
    json_object ((text "containerPort", num port) ∷ (text "name", string name) ∷ [])

module _ (d : DeploymentDescriptor) where
  unfoldable pub proxy_volume_mounts : List Value
  unfolding mount mount_with_propagation
  proxy_volume_mounts =
      mount (text "ownership-signal") (text "/run/ownership-signal") false
      ∷ mount_with_propagation (text "state-mount") (text "/data") false (text "HostToContainer")
      ∷ mount_with_propagation (text "state-mount") (text "/state") false (text "HostToContainer")
      ∷ mount (text "unlock-socket") (text "/run/enclava") false
      ∷ ((if d.independent_verification
            then mount (text "verification-material") (text "/etc/enclava-verification") true ∷ []
            else [])
          ++ (mount (text "unlock-channel") (text "/run/enclava-unlock") false ∷ []))

  -- The variables up to the API's signing key.
  unfoldable pub proxy_env_identity : List Value
  unfolding value_env field_env
  proxy_env_identity =
      value_env (text "ATTESTATION_WORKLOAD_CONTAINER") (text "web")
      ∷ field_env (text "ATTESTATION_POD_NAME") (text "metadata.name")
      ∷ field_env (text "ATTESTATION_POD_NAMESPACE") (text "metadata.namespace")
      ∷ value_env (text "ATTESTATION_PROFILE") (text "coco-sev-snp")
      ∷ value_env (text "ATTESTATION_RUNTIME_CLASS") d.expected_runtime_class
      ∷ value_env (text "ATTESTATION_WORKLOAD_IMAGE") d.image_ref
      ∷ value_env (text "ATTESTATION_BIND") (text "127.0.0.1")
      ∷ value_env (text "ATTESTATION_TLS_BIND") (text "0.0.0.0")
      ∷ value_env (text "ATTESTATION_TLS_PORT") (text "8443")
      ∷ value_env (text "TEE_DOMAIN") d.tee_domain
      ∷ (if is_empty (trim d.api_signing_pubkey)
          then []
          else value_env (text "CAP_API_SIGNING_PUBKEY") d.api_signing_pubkey ∷ [])

  module _ (env : Bytes → Option Bytes) where
    -- The variables of the configuration and of the key broker.
    unfoldable pub proxy_env_storage : Bytes → List Value
    unfolding value_env trustee_kbs_resource_url
    proxy_env_storage mode =
        value_env (text "CAP_CONFIG_DIR") (text "/state/.enclava/config")
        ∷ value_env (text "CAP_CONFIG_READY_MARKER") (text "/state/.enclava/luks-ready")
        ∷ value_env (text "STORAGE_OWNERSHIP_MODE") mode
        ∷ value_env (text "INSTANCE_ID") (d.namespace ++ (text "-" ++ d.app_name))
        ∷ value_env (text "OWNER_CIPHERTEXT_BACKEND") (text "kbs-resource")
        ∷ value_env (text "OWNER_SEED_HANDOFF_SLOTS") (text "app-data")
        ∷ value_env (text "OWNERSHIP_MOUNT_PATH") (text "/run/ownership-signal")
        ∷ value_env (text "KBS_RESOURCE_URL") (trustee_kbs_resource_url env)
        ∷ value_env (text "KBS_RESOURCE_CACHE_SECONDS") (text "300")
        ∷ value_env (text "KBS_RESOURCE_FAILURE_CACHE_SECONDS") (text "30")
        ∷ value_env (text "KBS_FETCH_RETRIES") (text "120")
        ∷ value_env (text "KBS_FETCH_RETRY_SLEEP_SECONDS") (text "2")
        ∷ value_env (text "KBS_FETCH_MAX_SLEEP_SECONDS") (text "10")
        ∷ value_env (text "KBS_FETCH_REQUEST_TIMEOUT_SECONDS") (text "10")
        ∷ []

    -- The variables that the descriptor's profile and the environment decide.
    unfoldable pub proxy_env_profile : Option Bytes → List Value
    unfolding value_env descriptor_uses_root_managed_config required_config_keys_from_descriptor
        trustee_kbs_ca_cert_pem
    proxy_env_profile amd_kds_base_url =
        (if descriptor_uses_root_managed_config d
          then []
          else value_env (text "CAP_CONFIG_FILE_GID") (text "10001") ∷ [])
        ++ (env_if_some (text "AMD_KDS_BASE_URL") amd_kds_base_url
            ++ (env_if_some (text "CAP_CONFIG_REQUIRED_KEYS")
                  (required_config_keys_from_descriptor d)
                ++ (value_env (text "ENCLAVA_CONTAINER_NAME") (text "attestation-proxy")
                    ∷ value_env (text "ENCLAVA_STARTED_DIR") (text "/run/enclava/containers")
                    ∷ value_env (text "ENCLAVA_INIT_UNLOCK_SOCKET")
                        (text "/run/enclava-unlock/unlock.sock")
                    ∷ ((if d.independent_verification
                          then value_env (text "PROOF_TLS_CERT_PATH")
                              (text "/run/enclava/public-tls/certificates/tls.crt")
                            ∷ []
                          else [])
                        ++ env_if_some (text "KBS_RESOURCE_CA_CERT_PEM")
                            (trustee_kbs_ca_cert_pem env)))))

    -- `Ok(json!({...}))`, of the mode that `storage_ownership_mode` gave
    unfoldable pub proxy_value : Option Bytes → Bytes → Value
    unfolding proxy_volume_mounts proxy_env_identity proxy_env_storage proxy_env_profile image_ref
        attestation_proxy_image_repo security_context caps sidecar_resources
        with_kubernetes_service_env
    proxy_value amd_kds_base_url mode = json_object (
        (text "name", str "attestation-proxy")
        ∷ (
          text "image",
          string (
              image_ref (sidecar_image_repo (attestation_proxy_image_repo env))
                d.sidecars.attestation_proxy_digest),
        )
        ∷ (text "command", strings (text "/attestation-proxy" ∷ []))
        ∷ (
          text "ports",
          json_array
              (port_named 8081 (text "attest-http") ∷ port_named 8443 (text "attestation") ∷ []),
        )
        ∷ (
          text "env",
          json_array (
              with_kubernetes_service_env env (
                proxy_env_identity
                ++ (proxy_env_storage mode ++ proxy_env_profile amd_kds_base_url))),
        )
        ∷ (text "volumeMounts", json_array proxy_volume_mounts)
        ∷ (
          text "securityContext",
          security_context 0 0 true false false
              (caps (text "ALL" ∷ []) (text "CHOWN" ∷ text "MKNOD" ∷ text "SYS_PTRACE" ∷ [])),
        )
        ∷ (text "resources", sidecar_resources)
        ∷ [])

    unfoldable pub attestation_proxy_container_with_amd_kds_base_url : Option Bytes → Result Value
    unfolding storage_ownership_mode proxy_value
    attestation_proxy_container_with_amd_kds_base_url amd_kds_base_url = do
      mode ← storage_ownership_mode d.unlock_mode
      ok (proxy_value amd_kds_base_url mode)

    unfoldable pub attestation_proxy_container : Result Value
    unfolding attestation_proxy_container_with_amd_kds_base_url amd_kds_base_url
    attestation_proxy_container =
        attestation_proxy_container_with_amd_kds_base_url (amd_kds_base_url env)
