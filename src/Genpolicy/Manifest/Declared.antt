-- ===== src/Genpolicy/Manifest/Declared.antt =====
-- The mounts of the pod, and the volumes that it declares.
use policy_templates.Prelude.{
  ◌≡◌, refl, Bytes, text, ◌==◌, ==_iff, bytes_le, Bool, true, false, Bool-cases, inl, inr, Option,
  none, some, List, [], ◌∷◌, ◌++◌, map, if◌then◌else◌, ok, any, any_iff, Any-map, all, All,
}
use policy_templates.External.{External}
use policy_templates.Descriptor.{LogEncryptionConfig, DeploymentDescriptor}
use policy_templates.Descriptor.Unique.{Distinct}
use policy_templates.Policy.Sudo.{and_true, distinct, distinct-Distinct}
use policy_templates.Genpolicy.Value.{
  Value, put, get_field, put_all, json_object, get, elements-items,
}
use policy_templates.Genpolicy.Keys.{descriptor_uses_startup_fallback}
use policy_templates.Genpolicy.Environment.{amd_kds_base_url}
use policy_templates.Genpolicy.Shape.{Floats}
use policy_templates.Genpolicy.Manifest.Parts.{mount, mount_with_propagation}
use policy_templates.Genpolicy.Manifest.App.{is_some, app_volume_mounts}
use policy_templates.Genpolicy.Manifest.Proxy.{proxy_volume_mounts}
use policy_templates.Genpolicy.Manifest.Ingress.{ingress_volume_mounts}
use policy_templates.Genpolicy.Manifest.Init.{tools_volume_mounts, tools_value, init_volume_mounts}
use policy_templates.Genpolicy.Manifest.Volumes.{
  cap_volumes, fixed_volumes, config_map_volume, memory_volume, insert_at_index,
}
use policy_templates.Genpolicy.Manifest.Pod.{pod_value, pod_manifest}
use policy_templates.Genpolicy.Manifest.Renders.{Among, pod_manifest-Rendered}
use policy_templates.Genpolicy.Manifest.Agree.{
  list_at, spec_of, text_at, pod_containers, containers-pod_value, mounts-app, mounts-proxy,
  mounts-ingress, mounts-init,
}

abbrev pub names_at : Bytes → Value → List Bytes
names_at key v = map (text_at (text "name")) (list_at key v)

-- The init containers and the containers of a pod.
abbrev pub all_containers : Value → List Value
all_containers pod = list_at (text "initContainers") (spec_of pod) ++ pod_containers pod

abbrev pub volume_names : Value → List Bytes
volume_names pod = names_at (text "volumes") (spec_of pod)

-- The names of the mounts and of the volumes, for a start-up volume, a verification volume, and logs.
when : Bool → List Bytes → List Bytes
when b l = if b then l else []

app_names : Bool → Bool → List Bytes
app_names startup logs =
    text "enclava-tools"
    ∷ (when startup (text "startup" ∷ [])
        ++ (text "unlock-socket" ∷ text "state-mount" ∷ when logs (text "logs" ∷ [])))

proxy_names : Bool → List Bytes
proxy_names verification =
    text "ownership-signal"
    ∷ text "state-mount"
    ∷ text "state-mount"
    ∷ text "unlock-socket"
    ∷ (when verification (text "verification-material" ∷ []) ++ (text "unlock-channel" ∷ []))

ingress_names : List Bytes
ingress_names = text "tenant-ingress-caddyfile" ∷ text "enclava-tools" ∷ text "unlock-socket" ∷ []

init_names : Bool → List Bytes
init_names logs =
    text "state-mount"
    ∷ text "tls-state-mount"
    ∷ text "unlock-socket"
    ∷ text "unlock-channel"
    ∷ text "luks-material"
    ∷ text "enclava-init-config"
    ∷ when logs (text "logs" ∷ [])

tools_names : Bool → List Bytes
tools_names logs = text "enclava-tools" ∷ text "unlock-socket" ∷ when logs (text "logs" ∷ [])

-- The volumes with `startup` at its place among the first ones.
volume_list : Bool → Bool → Bool → List Bytes
volume_list startup verification logs =
    when logs (text "logs" ∷ [])
    ++ (text "ownership-signal"
        ∷ text "tenant-ingress-caddyfile"
        ∷ ((if logs
              then when startup (text "startup" ∷ []) ++ (text "enclava-tools" ∷ [])
              else text "enclava-tools" ∷ when startup (text "startup" ∷ []))
            ++ (text "unlock-socket"
                ∷ text "unlock-channel"
                ∷ text "luks-material"
                ∷ text "state-mount"
                ∷ text "tls-state-mount"
                ∷ text "enclava-init-config"
                ∷ when verification (text "verification-material" ∷ []))))

names-app :
    (d : DeploymentDescriptor) (log : Option LogEncryptionConfig)
    → map (text_at (text "name")) (app_volume_mounts d log)
      ≡ app_names (descriptor_uses_startup_fallback d) (is_some log)
unfolding app_names when app_volume_mounts mount mount_with_propagation json_object put_all put get
    get_field text ◌==◌ bytes_le
names-app d none = elim (Bool-cases (descriptor_uses_startup_fallback d)) [
  | inl e ↦ rw e refl
  | inr e ↦ rw e refl
]
names-app d (some log) = elim (Bool-cases (descriptor_uses_startup_fallback d)) [
  | inl e ↦ rw e refl
  | inr e ↦ rw e refl
]

names-proxy :
    (d : DeploymentDescriptor)
    → map (text_at (text "name")) (proxy_volume_mounts d) ≡ proxy_names d.independent_verification
unfolding proxy_names when proxy_volume_mounts mount mount_with_propagation json_object put_all put
    get get_field text ◌==◌ bytes_le
names-proxy d = elim (Bool-cases d.independent_verification) [
  | inl e ↦ rw e refl
  | inr e ↦ rw e refl
]

names-ingress : map (text_at (text "name")) ingress_volume_mounts ≡ ingress_names
unfolding ingress_names ingress_volume_mounts mount json_object put_all put get get_field text ◌==◌
    bytes_le
names-ingress = refl

names-init :
    (log : Option LogEncryptionConfig)
    → map (text_at (text "name")) (init_volume_mounts log) ≡ init_names (is_some log)
unfolding init_names when init_volume_mounts mount mount_with_propagation json_object put_all put
    get get_field text ◌==◌ bytes_le
names-init none = refl
names-init (some log) = refl

names-tools :
    (logs : Bool) → map (text_at (text "name")) (tools_volume_mounts logs) ≡ tools_names logs
unfolding tools_names when tools_volume_mounts mount json_object put_all put get get_field text ◌==◌
    bytes_le
names-tools true = refl
names-tools false = refl

names-volumes :
    (d : DeploymentDescriptor) (logs : Bool)
    → map (text_at (text "name")) (cap_volumes d logs)
      ≡ volume_list (descriptor_uses_startup_fallback d) d.independent_verification logs
unfolding volume_list when cap_volumes fixed_volumes config_map_volume memory_volume insert_at_index
    json_object put_all put get get_field text ◌==◌ bytes_le
names-volumes d true = elim (Bool-cases (descriptor_uses_startup_fallback d)) [
  | inl e ↦ elim (Bool-cases d.independent_verification) [
    | inl v ↦ rw (e, v) refl
    | inr v ↦ rw (e, v) refl
  ]
  | inr e ↦ elim (Bool-cases d.independent_verification) [
    | inl v ↦ rw (e, v) refl
    | inr v ↦ rw (e, v) refl
  ]
]
names-volumes d false = elim (Bool-cases (descriptor_uses_startup_fallback d)) [
  | inl e ↦ elim (Bool-cases d.independent_verification) [
    | inl v ↦ rw (e, v) refl
    | inr v ↦ rw (e, v) refl
  ]
  | inr e ↦ elim (Bool-cases d.independent_verification) [
    | inl v ↦ rw (e, v) refl
    | inr v ↦ rw (e, v) refl
  ]
]

-- The computed test that all names of the lists are among some.
declared : List (List Bytes) → List Bytes → Bool
declared lists names = all (λ l. all (λ n. any (λ m. m == n) names) l) lists

all-All :
    (l names : List Bytes)
    → all (λ n. any (λ m. m == n) names) l ≡ true
    → All (λ n. Among n names) l
all-All [] names h = tt
all-All (n ∷ l) names h =
    let (here, rest) = (and_true _ _).0 h in
    (
      Any-map _ _ names (λ m. (==_iff m n).0) ((any_iff (λ m. m == n) names).0 here),
      all-All l names rest,
    )

declared-All :
    (lists : List (List Bytes)) (names : List Bytes)
    → declared lists names ≡ true
    → All (λ l. All (λ n. Among n names) l) lists
unfolding declared
declared-All [] names h = tt
declared-All (l ∷ lists) names h =
    let (here, rest) = (and_true _ _).0 h in (all-All l names here, declared-All lists names rest)

mount_lists : Bool → Bool → Bool → List (List Bytes)
mount_lists startup verification logs =
    tools_names logs
    ∷ app_names startup logs
    ∷ proxy_names verification
    ∷ ingress_names
    ∷ init_names logs
    ∷ []

declared-mounts :
    (startup verification logs : Bool)
    → declared (mount_lists startup verification logs) (volume_list startup verification logs)
      ≡ true
unfolding declared mount_lists tools_names app_names proxy_names ingress_names init_names
    volume_list when text ◌==◌
declared-mounts true true true = refl
declared-mounts true true false = refl
declared-mounts true false true = refl
declared-mounts true false false = refl
declared-mounts false true true = refl
declared-mounts false true false = refl
declared-mounts false false true = refl
declared-mounts false false false = refl

distinct-volumes :
    (startup verification logs : Bool) → distinct (volume_list startup verification logs) ≡ true
unfolding distinct volume_list when text ◌==◌
distinct-volumes true true true = refl
distinct-volumes true true false = refl
distinct-volumes true false true = refl
distinct-volumes true false false = refl
distinct-volumes false true true = refl
distinct-volumes false true false = refl
distinct-volumes false false true = refl
distinct-volumes false false false = refl

-- The other lists of the pod's specification.
module _ (x : External) (f : Floats) (env : Bytes → Option Bytes) (d : DeploymentDescriptor)
    (containers : List Value) (tools : Value) (logs : Bool) where
  tools-pod_value :
      list_at (text "initContainers") (spec_of (pod_value x f env d containers tools logs))
      ≡ tools ∷ []
  unfolding pod_value json_object put_all put get get_field text ◌==◌ bytes_le
  tools-pod_value = refl

  volumes-pod_value :
      list_at (text "volumes") (spec_of (pod_value x f env d containers tools logs))
      ≡ cap_volumes d logs
  unfolding pod_value json_object put_all put get get_field text ◌==◌ bytes_le
  volumes-pod_value = elements-items (cap_volumes d logs)

mounts-tools :
    (logs : Bool) (image : Bytes)
    → list_at (text "volumeMounts") (tools_value logs image) ≡ tools_volume_mounts logs
unfolding tools_value json_object put_all put get get_field text ◌==◌ bytes_le
mounts-tools logs image = elements-items (tools_volume_mounts logs)

-- In the manifest of a pod, each mount of each container and init container is of a volume that the
-- pod declares, and no two volumes have one name.
pub volume_names-Among :
    (x : External) (f : Floats) (env : Bytes → Option Bytes) (d : DeploymentDescriptor)
    (log : Option LogEncryptionConfig) (pod : Value)
    → pod_manifest x f env d log ≡ ok pod
    → All
        (λ names. All (λ n. Among n (volume_names pod)) names)
        (map (names_at (text "volumeMounts")) (all_containers pod))
      × Distinct (volume_names pod)
unfolding mount_lists
volume_names-Among x f env d log pod h =
    let r = pod_manifest-Rendered x f env d log pod h in
    let amd = amd_kds_base_url env in
    let logs = is_some log in
    let s = descriptor_uses_startup_fallback d in
    let v = d.independent_verification in
    let tools = tools_value logs r.image in
    rw
      (
        r.made,
        containers-pod_value x f env d _ tools logs,
        tools-pod_value x f env d _ tools logs,
        volumes-pod_value x f env d _ tools logs,
        mounts-tools logs r.image,
        mounts-app x env d log,
        mounts-proxy x env d log amd r.mode,
        mounts-ingress x env d log r.tls,
        mounts-init x env d log r.image,
        names-app d log,
        names-proxy d,
        names-ingress,
        names-init log,
        names-tools logs,
        names-volumes d logs,
      )
      (
        declared-All (mount_lists s v logs) (volume_list s v logs) (declared-mounts s v logs),
        distinct-Distinct (volume_list s v logs) (distinct-volumes s v logs),
      )
