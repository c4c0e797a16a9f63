-- ===== src/Genpolicy/Ran.antt =====
-- What a successful run of the generator did.
use policy_templates.Prelude.{
  ok_or-eq-ok, ◌≡◌, sym, ap, ◌∙◌, Bytes, text, Bool, true, false, Bool-cases, Option, some, List,
  [], ◌∷◌, ok, ensure-passed, ok_or, ok_inj, >>=-eq-ok, inl, inr, work_dir_failed, write_failed,
  genpolicy_not_executed, genpolicy_failed, genpolicy_not_utf8,
}
use policy_templates.External.{External}
use policy_templates.Descriptor.{LogEncryptionConfig, DeploymentDescriptor}
use policy_templates.Policy.{GenpolicyInvocation, GeneratedAgentPolicy}
use policy_templates.Genpolicy.Shape.{Floats}
use policy_templates.Genpolicy.Normalize.Mounts.{Printer, normalize_guest_memory_mount_propagation}
use policy_templates.Genpolicy.Normalize.Text.{normalize_cap_generated_policy}
use policy_templates.Genpolicy.Normalize.Correct.{
  Corrected, normalize_guest_memory_mount_propagation-Corrected,
}
use policy_templates.Genpolicy.Manifest.Pod.{render_pod_manifest}
use policy_templates.Genpolicy.Settings.{Host, Output, join}
use policy_templates.Genpolicy.Run.{
  GenpolicyConfig, genpolicy_args, build_invocation_with_log_encryption, run_anonymously,
  run_genpolicy, effective_settings, run_with_log_encryption,
}

module _ (h : Host) (binary : Bytes) (args : List Bytes) (dir : Bytes) (disk : h.Disk)
    (output : Output) where
  -- The binary ran once and succeeded; or it ran, failed, and ran once more on the same arguments,
  -- with an empty registry configuration that had been written before.
  pub data Attempts : Type 0 where
    once :
        (after : h.Disk)
        → h.execute disk binary args dir [] ≡ some (output, after)
        → output.success ≡ true
        → Attempts
    again :
        (failed : Output) (d1 d2 d3 d4 : h.Disk)
        → h.execute disk binary args dir [] ≡ some (failed, d1)
        → failed.success ≡ false
        → h.create_dir_all d1 (join dir (text "anonymous-registry")) ≡ some d2
        → h.write d2
            (join (join dir (text "anonymous-registry")) (text "config.json"))
            (text "{\"auths\":{}}")
          ≡ some d3
        → h.execute d3 binary args dir (
            (
              text "REGISTRY_AUTH_FILE",
              join (join dir (text "anonymous-registry")) (text "config.json"),
            )
            ∷ (text "DOCKER_CONFIG", join dir (text "anonymous-registry"))
            ∷ [])
          ≡ some (output, d4)
        → Attempts

module _ (h : Host) where
  run_genpolicy-Attempts :
      (binary : Bytes) (args : List Bytes) (dir : Bytes) (disk : h.Disk) (output : Output)
      (after : h.Disk)
      → run_genpolicy h binary args dir disk ≡ ok (output, after)
      → Attempts h binary args dir disk output
  unfolding run_genpolicy run_anonymously
  run_genpolicy-Attempts binary args dir disk output after e =
      let ((first, d1), e1, k1) =
        >>=-eq-ok (ok_or (h.execute disk binary args dir []) genpolicy_not_executed) _ e in
      let ran = ok_or-eq-ok (h.execute disk binary args dir []) genpolicy_not_executed e1 in
      elim (Bool-cases first.success) [
        | inl good ↦
            let same = ok_inj (rw good at k1) in
            let here : first ≡ output = ap (λ p. p.0) same in
            once d1 (ran ∙ ap (λ o. some (o, d1)) here)
              (ap (λ (o : Output). o.success) (sym here) ∙ good)
        | inr bad ↦
            let docker_dir = join dir (text "anonymous-registry") in
            let k2 = rw bad at k1 in
            let (d2, e2, k3) =
              >>=-eq-ok (ok_or (h.create_dir_all d1 docker_dir) write_failed) _ k2 in
            let (d3, e3, k4) =
              >>=-eq-ok
                (ok_or (h.write d2 (join docker_dir (text "config.json")) (text "{\"auths\":{}}"))
                  write_failed)
                _ k3 in
            again first d1 d2 d3 after ran bad (ok_or-eq-ok _ _ e2) (ok_or-eq-ok _ _ e3)
              (ok_or-eq-ok _ _ k4)
      ]

module _ (x : External) (f : Floats) (printer : Printer) (env : Bytes → Option Bytes)
    (is_utf8 : Bytes → Bool) (h : Host) where
  module _ (config : GenpolicyConfig) (disk : h.Disk) (d : DeploymentDescriptor)
      (log : Option LogEncryptionConfig) (generated : GeneratedAgentPolicy) where
    pub record Ran : Type 0 where
      pub manifest : Bytes
      pub rendered : render_pod_manifest x f env d printer log ≡ ok manifest
      pub invocation : generated.invocation ≡ record {
        binary = config.binary;
        args = genpolicy_args (text "pod.yaml") config.rules_path config.settings_dir;
        manifest_yaml = manifest;
        version_pin = config.version_pin;
      }
      pub dir : Bytes
      pub empty : h.Disk
      pub with_manifest : h.Disk
      pub ready : h.Disk
      pub settings : Option Bytes
      pub output : Output
      pub policy : Bytes
      pub made : h.tempdir disk ≡ some (dir, empty)
      pub written : h.write empty (join dir (text "pod.yaml")) manifest ≡ some with_manifest
      pub prepared :
          effective_settings h printer config.settings_dir dir with_manifest ≡ ok (settings, ready)
      pub attempts :
          Attempts h config.binary
            (genpolicy_args (join dir (text "pod.yaml")) config.rules_path settings)
            dir
            ready
            output
      pub succeeded : output.success ≡ true
      pub utf8 : is_utf8 output.stdout ≡ true
      pub corrected : Corrected printer output.stdout policy
      pub text_is : generated.policy_text ≡ normalize_cap_generated_policy policy

    pub run_with_log_encryption-Ran :
        run_with_log_encryption x f printer env is_utf8 h config disk d log ≡ ok generated → Ran
    unfolding run_with_log_encryption build_invocation_with_log_encryption
    run_with_log_encryption-Ran e =
        let (invocation, ei, e1) =
          >>=-eq-ok (build_invocation_with_log_encryption x f printer env config d log) _ e in
        let (manifest, em, si) = >>=-eq-ok (render_pod_manifest x f env d printer log) _ ei in
        let ((dir, disk1), et, e2) = >>=-eq-ok (ok_or (h.tempdir disk) work_dir_failed) _ e1 in
        let path = join dir (text "pod.yaml") in
        let (disk2, ew, e3) =
          >>=-eq-ok (ok_or (h.write disk1 path invocation.manifest_yaml) write_failed) _ e2 in
        let ((settings, disk3), es, e4) =
          >>=-eq-ok (effective_settings h printer config.settings_dir dir disk2) _ e3 in
        let ((output, disk4), er, e5) =
          >>=-eq-ok
            (run_genpolicy h config.binary (genpolicy_args path config.rules_path settings) dir
              disk3)
            _ e4 in
        let (good, e6) = ensure-passed output.success genpolicy_failed _ e5 in
        let (utf8, e7) = ensure-passed (is_utf8 output.stdout) genpolicy_not_utf8 _ e6 in
        let (policy, ec, e8) =
          >>=-eq-ok (normalize_guest_memory_mount_propagation printer output.stdout) _ e7 in
        let same_invocation = ok_inj si in
        let same = ok_inj e8 in
        let yaml : invocation.manifest_yaml ≡ manifest =
          ap (λ (i : GenpolicyInvocation). i.manifest_yaml) (sym same_invocation) in
        record {
          manifest = manifest;
          rendered = em;
          invocation =
              ap (λ (g : GeneratedAgentPolicy). g.invocation) (sym same) ∙ sym same_invocation;
          dir = dir;
          empty = disk1;
          with_manifest = disk2;
          ready = disk3;
          settings = settings;
          output = output;
          policy = policy;
          made = ok_or-eq-ok _ _ et;
          written =
              ap (h.write disk1 path) (sym yaml)
              ∙ ok_or-eq-ok (h.write disk1 path invocation.manifest_yaml) write_failed ew;
          prepared = es;
          attempts =
              run_genpolicy-Attempts h config.binary
                (genpolicy_args path config.rules_path settings) dir disk3 output disk4 er;
          succeeded = good;
          utf8 = utf8;
          corrected = normalize_guest_memory_mount_propagation-Corrected printer output.stdout ec;
          text_is = ap (λ (g : GeneratedAgentPolicy). g.policy_text) (sym same);
        }
