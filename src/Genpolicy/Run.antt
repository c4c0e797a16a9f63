-- ===== src/Genpolicy/Run.antt =====
-- The generator's settings and its run (genpolicy.rs).
use policy_templates.Prelude.{
  Bytes, text, trim, contains, not, ◌||◌, Bool, Option, none, some, List, [], ◌∷◌, if◌then◌else◌,
  Result, ok, ensure, ok_or, ◌>>=◌, ◌>>◌, version_not_pinned, work_dir_failed, write_failed,
  genpolicy_not_executed, genpolicy_failed, genpolicy_not_utf8,
}
use policy_templates.External.{External}
use policy_templates.Descriptor.{LogEncryptionConfig, DeploymentDescriptor}
use policy_templates.Policy.{GenpolicyInvocation, GeneratedAgentPolicy}
use policy_templates.Policy.Inputs.{unwrap_or}
use policy_templates.Genpolicy.Keys.{is_empty}
use policy_templates.Genpolicy.Shape.{Floats}
use policy_templates.Genpolicy.Normalize.Mounts.{Printer, normalize_guest_memory_mount_propagation}
use policy_templates.Genpolicy.Normalize.Text.{normalize_cap_generated_policy}
use policy_templates.Genpolicy.Manifest.Pod.{render_pod_manifest}
use policy_templates.Genpolicy.Settings.{Host, Output, join, prepare_cap_settings_dir}

pub record GenpolicyConfig : Type 0 where
  pub binary : Bytes
  pub version_pin : Bytes
  pub rules_path : Bytes
  pub settings_dir : Option Bytes

abbrev pub unless_blank : Option Bytes → Option Bytes
unless_blank none = none
unless_blank (some value) = if is_empty (trim value) then none else some value

-- GenpolicyConfig::from_env
unfoldable pub genpolicy_from_env : (Bytes → Option Bytes) → GenpolicyConfig
genpolicy_from_env env = record {
  binary = unwrap_or (env (text "GENPOLICY_BIN")) (text "genpolicy");
  version_pin = unwrap_or (env (text "GENPOLICY_VERSION_PIN")) (text "unconfigured-local");
  rules_path = unwrap_or (env (text "GENPOLICY_RULES_PATH")) (text "rules.rego");
  settings_dir = unless_blank (env (text "GENPOLICY_SETTINGS_DIR"));
}

unfoldable pub require_pinned_version : GenpolicyConfig → Result (Unit {0})
require_pinned_version config =
    let pin = trim config.version_pin in
    ensure
      (not (is_empty pin || (contains (text "unconfigured") pin || contains (text "unpinned") pin)))
      version_not_pinned

abbrev pub settings_args : Option Bytes → List Bytes
settings_args none = []
settings_args (some settings_dir) = text "-j" ∷ settings_dir ∷ []

-- The arguments for a manifest and a directory of settings.
abbrev pub genpolicy_args : Bytes → Bytes → Option Bytes → List Bytes
genpolicy_args manifest rules_path settings_dir =
    text "-y" ∷ manifest ∷ text "-p" ∷ rules_path ∷ text "-r" ∷ settings_args settings_dir

module _ (h : Host) where
  open h use {Disk, create_dir_all, write, execute}

  -- The second run, with an empty registry configuration.
  unfoldable pub run_anonymously : Bytes → List Bytes → Bytes → Disk → Result (Output × Disk)
  run_anonymously binary args work_dir disk = do
    let docker_dir = join work_dir (text "anonymous-registry")
    let auth_file = join docker_dir (text "config.json")
    made ← ok_or (create_dir_all disk docker_dir) write_failed
    written ← ok_or (write made auth_file (text "{\"auths\":{}}")) write_failed
    ok_or
        (execute written binary args work_dir
          ((text "REGISTRY_AUTH_FILE", auth_file) ∷ (text "DOCKER_CONFIG", docker_dir) ∷ []))
        genpolicy_not_executed

  unfoldable pub run_genpolicy : Bytes → List Bytes → Bytes → Disk → Result (Output × Disk)
  unfolding run_anonymously
  run_genpolicy binary args work_dir disk = do
    (output, disk') ← ok_or (execute disk binary args work_dir []) genpolicy_not_executed
    if output.success then ok (output, disk') else run_anonymously binary args work_dir disk'

  abbrev pub effective_settings :
      Printer → Option Bytes → Bytes → Disk → Result (Option Bytes × Disk)
  effective_settings printer none work_dir disk = ok (none, disk)
  effective_settings printer (some settings_dir) work_dir disk = do
    (dest, disk') ← prepare_cap_settings_dir h printer settings_dir work_dir disk
    ok (some dest, disk')

module _ (x : External) (f : Floats) (printer : Printer) (env : Bytes → Option Bytes) where
  unfoldable pub build_invocation_with_log_encryption :
      GenpolicyConfig
      → DeploymentDescriptor
      → Option LogEncryptionConfig
      → Result GenpolicyInvocation
  unfolding render_pod_manifest
  build_invocation_with_log_encryption config d log_encryption = do
    manifest_yaml ← render_pod_manifest x f env d printer log_encryption
    ok (record {
      binary = config.binary;
      args = genpolicy_args (text "pod.yaml") config.rules_path config.settings_dir;
      manifest_yaml = manifest_yaml;
      version_pin = config.version_pin;
    })

  abbrev pub build_invocation : GenpolicyConfig → DeploymentDescriptor → Result GenpolicyInvocation
  build_invocation config d = build_invocation_with_log_encryption config d none

  module _ (is_utf8 : Bytes → Bool) (h : Host) where
    open h use {Disk, tempdir, write}

    unfoldable pub run_with_log_encryption :
        GenpolicyConfig
        → Disk
        → DeploymentDescriptor
        → Option LogEncryptionConfig
        → Result GeneratedAgentPolicy
    unfolding build_invocation_with_log_encryption run_genpolicy
        normalize_guest_memory_mount_propagation normalize_cap_generated_policy
        prepare_cap_settings_dir
    run_with_log_encryption config disk d log_encryption = do
      invocation ← build_invocation_with_log_encryption config d log_encryption
      (dir, disk1) ← ok_or (tempdir disk) work_dir_failed
      let manifest_path = join dir (text "pod.yaml")
      disk2 ← ok_or (write disk1 manifest_path invocation.manifest_yaml) write_failed
      (settings_dir, disk3) ← effective_settings h printer config.settings_dir dir disk2
      (output, _) ←
          run_genpolicy h config.binary
            (genpolicy_args manifest_path config.rules_path settings_dir) dir disk3
      ensure output.success genpolicy_failed
      ensure (is_utf8 output.stdout) genpolicy_not_utf8
      policy ← normalize_guest_memory_mount_propagation printer output.stdout
      ok (record { policy_text = normalize_cap_generated_policy policy; invocation = invocation })

    -- GenpolicyConfig::run
    abbrev pub run_genpolicy_for :
        GenpolicyConfig → Disk → DeploymentDescriptor → Result GeneratedAgentPolicy
    run_genpolicy_for config disk d = run_with_log_encryption config disk d none
