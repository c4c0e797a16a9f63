-- ===== src/Genpolicy/Manifest/Agree.antt =====
-- The mounts of the manifest, its volumes, and the table of the platform's mounts.
use policy_templates.Prelude.{
  ◌≡◌, refl, Bytes, text, ◌==◌, bytes_le, not, ◌||◌, Bool, true, false, Bool-cases, Option, none,
  some, List, [], ◌∷◌, ◌++◌, if◌then◌else◌, ok, inl, inr,
}
use policy_templates.External.{External}
use policy_templates.Descriptor.{LogEncryptionConfig, DeploymentDescriptor}
use policy_templates.Genpolicy.Value.{
  Value, put, get_field, put_all, json_object, get, as_array, as_string, elements-items,
}
use policy_templates.Genpolicy.Keys.{descriptor_uses_startup_fallback}
use policy_templates.Genpolicy.Environment.{CaddyTlsMode, log_spool_dir, amd_kds_base_url}
use policy_templates.Genpolicy.Shape.{Floats}
use policy_templates.Genpolicy.Normalize.Mounts.{Row, row, platform_mounts}
use policy_templates.Genpolicy.Manifest.Parts.{mount, mount_with_propagation}
use policy_templates.Genpolicy.Manifest.App.{if_some, is_some, app_volume_mounts, app_container}
use policy_templates.Genpolicy.Manifest.Proxy.{proxy_volume_mounts, proxy_value}
use policy_templates.Genpolicy.Manifest.Ingress.{
  ingress_volume_mounts, tenant_ingress_container_for_mode,
}
use policy_templates.Genpolicy.Manifest.Init.{tools_value, init_volume_mounts, init_value}
use policy_templates.Genpolicy.Manifest.Pod.{pod_value, pod_manifest}
use policy_templates.Genpolicy.Manifest.Renders.{pod_manifest-Rendered}

abbrev pub or_nil : Option (List Value) → List Value
or_nil none = []
or_nil (some vs) = vs

abbrev pub list_at : Bytes → Value → List Value
list_at key v = or_nil (as_array (get key v))

abbrev pub or_null : Option Value → Value
or_null none = Value.null
or_null (some v) = v

abbrev pub spec_of : Value → Value
spec_of pod = or_null (get (text "spec") pod)

abbrev pub pod_containers : Value → List Value
pod_containers pod = list_at (text "containers") (spec_of pod)

abbrev pub text_or_empty : Option Bytes → Bytes
text_or_empty none = []
text_or_empty (some s) = s

abbrev pub text_at : Bytes → Value → Bytes
text_at key v = text_or_empty (as_string (get key v))

-- The option of a mount in the guest for a propagation of the manifest; any other propagation is no
-- option of the table.
abbrev pub guest_propagation : Bytes → Bytes
guest_propagation p =
    if p == text "Bidirectional"
    then text "rshared"
    else if p == text "HostToContainer"
    then text "rslave"
    else p

abbrev pub row_of : Bytes → Value → Option Bytes → List Row
row_of container m none = []
row_of container m (some p) =
    row container (text_at (text "name") m) (text_at (text "mountPath") m) (guest_propagation p)
      (not (text_at (text "name") m == text "logs"))
    ∷ []

-- The mounts with a propagation, as rows of a table; the mounts of logs are not required.
abbrev pub rows_of_mounts : Bytes → List Value → List Row
rows_of_mounts container [] = []
rows_of_mounts container (m ∷ ms) =
    row_of container m (as_string (get (text "mountPropagation") m)) ++ rows_of_mounts container ms

unfoldable pub propagated : List Value → List Row
propagated [] = []
propagated (c ∷ cs) =
    rows_of_mounts (text_at (text "name") c) (list_at (text "volumeMounts") c) ++ propagated cs

-- The rows that apply: all, or those that are required.
unfoldable pub applicable : Bool → List Row → List Row
applicable log_enabled [] = []
applicable log_enabled (r ∷ rows) =
    if r.required || log_enabled
    then r ∷ applicable log_enabled rows
    else applicable log_enabled rows

module _ (x : External) (env : Bytes → Option Bytes) (d : DeploymentDescriptor)
    (log : Option LogEncryptionConfig) where
  pub mounts-app :
      list_at (text "volumeMounts") (app_container d log x env) ≡ app_volume_mounts d log
  unfolding app_container json_object put_all put get get_field text ◌==◌ bytes_le
  mounts-app = elements-items (app_volume_mounts d log)

  pub mounts-proxy :
      (amd : Option Bytes) (mode : Bytes)
      → list_at (text "volumeMounts") (proxy_value d env amd mode) ≡ proxy_volume_mounts d
  unfolding proxy_value json_object put_all put get get_field text ◌==◌ bytes_le
  mounts-proxy amd mode = elements-items (proxy_volume_mounts d)

  pub mounts-ingress :
      (tls : CaddyTlsMode)
      → list_at (text "volumeMounts") (tenant_ingress_container_for_mode d env tls)
        ≡ ingress_volume_mounts
  unfolding tenant_ingress_container_for_mode json_object put_all put get get_field text ◌==◌
      bytes_le
  mounts-ingress tls = elements-items ingress_volume_mounts

  pub mounts-init :
      (image : Bytes)
      → list_at (text "volumeMounts") (init_value env log image) ≡ init_volume_mounts log
  unfolding init_value json_object put_all put get get_field text ◌==◌ bytes_le
  mounts-init image = elements-items (init_volume_mounts log)

  names-containers :
      (amd : Option Bytes) (mode : Bytes) (tls : CaddyTlsMode) (image : Bytes)
      → (text_at (text "name") (app_container d log x env) ≡ text "web")
        × (text_at (text "name") (proxy_value d env amd mode) ≡ text "attestation-proxy")
        × (text_at (text "name") (tenant_ingress_container_for_mode d env tls)
            ≡ text "tenant-ingress")
        × (text_at (text "name") (init_value env log image) ≡ text "enclava-init")
  unfolding app_container proxy_value tenant_ingress_container_for_mode init_value json_object
      put_all put get get_field text ◌==◌ bytes_le
  names-containers amd mode tls image = (refl, refl, refl, refl)

-- The rows that each container's mounts make.
module _ (d : DeploymentDescriptor) where
  rows-app :
      (log : Option LogEncryptionConfig)
      → rows_of_mounts (text "web") (app_volume_mounts d log)
        ≡ row (text "web") (text "state-mount") (text "/state") (text "rslave") true
          ∷ if_some log
              (row (text "web") (text "logs") (text "/run/enclava-logs") (text "rslave") false ∷ [])
  unfolding app_volume_mounts mount mount_with_propagation json_object put_all put get get_field
      text ◌==◌ bytes_le log_spool_dir
  rows-app none = elim (Bool-cases (descriptor_uses_startup_fallback d)) [
    | inl e ↦ rw e refl
    | inr e ↦ rw e refl
  ]
  rows-app (some log) = elim (Bool-cases (descriptor_uses_startup_fallback d)) [
    | inl e ↦ rw e refl
    | inr e ↦ rw e refl
  ]

  rows-proxy :
      rows_of_mounts (text "attestation-proxy") (proxy_volume_mounts d)
      ≡ row (text "attestation-proxy") (text "state-mount") (text "/data") (text "rslave") true
        ∷ row (text "attestation-proxy") (text "state-mount") (text "/state") (text "rslave") true
        ∷ []
  unfolding proxy_volume_mounts mount mount_with_propagation json_object put_all put get get_field
      text ◌==◌ bytes_le
  rows-proxy = elim (Bool-cases d.independent_verification) [
    | inl e ↦ rw e refl
    | inr e ↦ rw e refl
  ]

rows-ingress : rows_of_mounts (text "tenant-ingress") ingress_volume_mounts ≡ []
unfolding ingress_volume_mounts mount json_object put_all put get get_field text ◌==◌ bytes_le
rows-ingress = refl

rows-init :
    (log : Option LogEncryptionConfig)
    → rows_of_mounts (text "enclava-init") (init_volume_mounts log)
      ≡ row (text "enclava-init") (text "state-mount") (text "/state") (text "rshared") true
        ∷ row
            (text "enclava-init")
            (text "tls-state-mount")
            (text "/state/tls-state")
            (text "rshared")
            true
        ∷ if_some log (
            row
              (text "enclava-init")
              (text "logs")
              (text "/run/enclava-logs")
              (text "rshared")
              false
            ∷ [])
unfolding init_volume_mounts mount mount_with_propagation json_object put_all put get get_field text
    ◌==◌ bytes_le log_spool_dir
rows-init none = refl
rows-init (some log) = refl

rows-platform :
    (d : DeploymentDescriptor) (log : Option LogEncryptionConfig)
    → rows_of_mounts (text "web") (app_volume_mounts d log)
        ++ (rows_of_mounts (text "attestation-proxy") (proxy_volume_mounts d)
            ++ (rows_of_mounts (text "tenant-ingress") ingress_volume_mounts
                ++ (rows_of_mounts (text "enclava-init") (init_volume_mounts log) ++ [])))
      ≡ applicable (is_some log) platform_mounts
unfolding applicable platform_mounts
rows-platform d none = rw (rows-app d none, rows-proxy d, rows-ingress, rows-init none) refl
rows-platform d (some log) =
    rw (rows-app d (some log), rows-proxy d, rows-ingress, rows-init (some log)) refl

pub containers-pod_value :
    (x : External) (f : Floats) (env : Bytes → Option Bytes) (d : DeploymentDescriptor)
    (containers : List Value) (tools : Value) (log_enabled : Bool)
    → pod_containers (pod_value x f env d containers tools log_enabled) ≡ containers
unfolding pod_value json_object put_all put get get_field text ◌==◌ bytes_le
containers-pod_value x f env d containers tools log_enabled = elements-items containers

-- The mounts with a propagation in the manifest of a pod are, in their order, those of the table that
-- the normalisation corrects, with the propagation that the table gives them: all of the table if
-- logs are encrypted, and those that are required if not.
pub propagated-platform_mounts :
    (x : External) (f : Floats) (env : Bytes → Option Bytes) (d : DeploymentDescriptor)
    (log : Option LogEncryptionConfig) (pod : Value)
    → pod_manifest x f env d log ≡ ok pod
    → propagated (pod_containers pod) ≡ applicable (is_some log) platform_mounts
unfolding propagated
propagated-platform_mounts x f env d log pod h =
    let r = pod_manifest-Rendered x f env d log pod h in
    let amd = amd_kds_base_url env in
    let (app, proxy, ingress, init) = names-containers x env d log amd r.mode r.tls r.image in
    rw
      (
        r.made,
        containers-pod_value x f env d _ (tools_value (is_some log) r.image) (is_some log),
        app,
        proxy,
        ingress,
        init,
        mounts-app x env d log,
        mounts-proxy x env d log amd r.mode,
        mounts-ingress x env d log r.tls,
        mounts-init x env d log r.image,
      )
      (rows-platform d log)
