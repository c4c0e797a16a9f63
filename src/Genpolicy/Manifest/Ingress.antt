-- ===== src/Genpolicy/Manifest/Ingress.antt =====
-- The container of the tenant's ingress.
use policy_templates.Prelude.{
  ℕ, Bytes, text, true, false, List, [], ◌∷◌, ◌++◌, Option, Result, ok, ◌>>=◌,
}
use policy_templates.Descriptor.{DeploymentDescriptor}
use policy_templates.Genpolicy.Value.{Value, string, json_object, json_array}
use policy_templates.Genpolicy.Environment.{
  CaddyTlsMode, acme, dns01_broker, internal, tenant_caddy_tls_mode,
}
use policy_templates.Genpolicy.Manifest.Scripts.{caddy_dns01_broker_tls_handoff_script}
use policy_templates.Genpolicy.Manifest.Parts.{
  str, strings, image_ref, sidecar_image_repo, value_env, field_env, mount, security_context, caps,
  sidecar_resources, with_kubernetes_service_env,
}
use policy_templates.Genpolicy.Manifest.Proxy.{port_named}

abbrev pub tls_port : CaddyTlsMode → ℕ
tls_port acme = 10443
tls_port dns01_broker = 10443
tls_port internal = 10443

abbrev pub caddy_args : List Bytes
caddy_args = text "/usr/bin/caddy" ∷ text "run" ∷ text "--config" ∷ text "/etc/caddy/Caddyfile" ∷ []

abbrev pub ingress_args : CaddyTlsMode → List Bytes
ingress_args dns01_broker = text "/bin/sh" ∷ text "-ec" ∷ caddy_dns01_broker_tls_handoff_script ∷ []
ingress_args acme = caddy_args
ingress_args internal = caddy_args

unfoldable pub ingress_volume_mounts : List Value
unfolding mount
ingress_volume_mounts =
    mount (text "tenant-ingress-caddyfile") (text "/etc/caddy") true
    ∷ mount (text "enclava-tools") (text "/enclava-tools") true
    ∷ mount (text "unlock-socket") (text "/run/enclava") false
    ∷ []

unfoldable pub ingress_env : List Value
unfolding field_env value_env
ingress_env =
    let runtime = text "/run/enclava/caddy-runtime" in
    field_env (text "POD_NAME") (text "metadata.name")
    ∷ field_env (text "POD_NAMESPACE") (text "metadata.namespace")
    ∷ value_env (text "CADDY_SEED_PATH") (text "/state/caddy/seed")
    ∷ value_env (text "VOLUME_MOUNT_POINT") runtime
    ∷ value_env (text "XDG_DATA_HOME") runtime
    ∷ value_env (text "XDG_CONFIG_HOME") (runtime ++ text "/config")
    ∷ value_env (text "HOME") runtime
    ∷ value_env (text "ENCLAVA_CONTAINER_NAME") (text "tenant-ingress")
    ∷ value_env (text "ENCLAVA_STARTED_DIR") (text "/run/enclava/containers")
    ∷ value_env (text "ENCLAVA_INIT_READY_FILE") (text "/run/enclava/init-ready")
    ∷ []

module _ (d : DeploymentDescriptor) (env : Bytes → Option Bytes) where
  unfoldable pub tenant_ingress_container_for_mode : CaddyTlsMode → Value
  unfolding ingress_volume_mounts ingress_env image_ref security_context caps sidecar_resources
      with_kubernetes_service_env
  tenant_ingress_container_for_mode mode = json_object (
      (text "name", str "tenant-ingress")
      ∷ (
        text "image",
        string (
            image_ref (sidecar_image_repo (text "ghcr.io/enclava-labs/caddy-ingress"))
              d.sidecars.caddy_digest),
      )
      ∷ (text "command", strings (text "/enclava-tools/enclava-wait-exec" ∷ []))
      ∷ (text "args", strings (ingress_args mode))
      ∷ (text "ports", json_array (port_named (tls_port mode) (text "https") ∷ []))
      ∷ (text "env", json_array (with_kubernetes_service_env env ingress_env))
      ∷ (text "volumeMounts", json_array ingress_volume_mounts)
      ∷ (
        text "securityContext",
        security_context 10002 10002 false false false (caps (text "ALL" ∷ []) []),
      )
      ∷ (text "resources", sidecar_resources)
      ∷ [])

  unfoldable pub tenant_ingress_container : Result Value
  unfolding tenant_ingress_container_for_mode tenant_caddy_tls_mode
  tenant_ingress_container = do
    mode ← tenant_caddy_tls_mode env
    ok (tenant_ingress_container_for_mode mode)
