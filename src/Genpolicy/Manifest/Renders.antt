-- ===== src/Genpolicy/Manifest/Renders.antt =====
-- When the manifest is made, and of what.
use policy_templates.Prelude.{
  ◌≡◌, ◌⊎◌, subst, refl, sym, ap, ◌∙◌, ◌↔◌, Bytes, text, ◌==◌, ==_sound, trim, to_ascii_lowercase,
  contains, map, true, false, Bool-cases, Option, Option-cases, some, List, [], ◌∷◌, Any, ok,
  ensure-passed, ok_inj, >>=-eq-ok, inl, inr,
}
use policy_templates.External.{External}
use policy_templates.Descriptor.{LogEncryptionConfig, DeploymentDescriptor}
use policy_templates.Descriptor.Unique.{
  Distinct, names, validate_unique_resource_names, validate_unique_resource_names_iff,
}
use policy_templates.Policy.Inputs.{unwrap_or}
use policy_templates.Genpolicy.Value.{Value}
use policy_templates.Genpolicy.Environment.{
  CaddyTlsMode, acme, dns01_broker, internal, mode_of, tls_mode_from_str, tenant_caddy_tls_mode,
  amd_kds_base_url,
}
use policy_templates.Genpolicy.Shape.{Floats}
use policy_templates.Genpolicy.Manifest.Parts.{enclava_init_image}
use policy_templates.Genpolicy.Manifest.App.{is_some, app_container}
use policy_templates.Genpolicy.Manifest.Proxy.{
  storage_ownership_mode, proxy_value, attestation_proxy_container_with_amd_kds_base_url,
  attestation_proxy_container,
}
use policy_templates.Genpolicy.Manifest.Ingress.{
  tenant_ingress_container_for_mode, tenant_ingress_container,
}
use policy_templates.Genpolicy.Manifest.Init.{
  tools_value, enclava_tools_container, init_value, enclava_init_container,
}
use policy_templates.Genpolicy.Manifest.Pod.{pod_value, pod_manifest}

-- A text is one of some names.
abbrev pub Among : Bytes → List Bytes → Type 0
Among s = Any (λ n. n ≡ s)

abbrev pub unlock_modes : List Bytes
unlock_modes = text "auto" ∷ text "auto-unlock" ∷ text "password" ∷ []

abbrev pub tls_modes : List Bytes
tls_modes =
    text ""
    ∷ text "acme"
    ∷ text "dns01-broker"
    ∷ text "dns-01-broker"
    ∷ text "broker"
    ∷ text "internal"
    ∷ []

-- The value of TENANT_CADDY_TLS_MODE as it is compared.
abbrev pub tls_setting : (Bytes → Option Bytes) → Bytes
tls_setting env = map to_ascii_lowercase (trim (unwrap_or (env (text "TENANT_CADDY_TLS_MODE")) []))

-- A name that a test has found, or the rest of the search.
found_or : {P : Type 0} (s n : Bytes) → ((s == n) ≡ false → P) → (n ≡ s) ⊎ P
found_or s n rest = elim (Bool-cases (s == n)) [
  | inl e ↦ inl (sym (==_sound s n e))
  | inr e ↦ inr (rest e)
]

storage_ownership_mode-Among :
    (s : Bytes) {m : Bytes} → storage_ownership_mode s ≡ ok m → Among s unlock_modes
unfolding storage_ownership_mode
storage_ownership_mode-Among s h = found_or s (text "auto") λ e.
    found_or s (text "auto-unlock")
      λ e'. found_or s (text "password") λ e''. let h' = rw (e, e', e'') at h in cc

storage_ownership_mode-some :
    (s : Bytes) → Among s unlock_modes → (m : Bytes) × (storage_ownership_mode s ≡ ok m)
unfolding storage_ownership_mode text ◌==◌
storage_ownership_mode-some s h =
    let P : Bytes → Type 0 = λ t. (m : Bytes) × (storage_ownership_mode t ≡ ok m) in
    elim h [
      | inl e ↦ subst P e (text "auto-unlock", refl)
      | inr (inl e) ↦ subst P e (text "auto-unlock", refl)
      | inr (inr (inl e)) ↦ subst P e (text "password", refl)
      | inr (inr (inr e)) ↦ absurd e
    ]

mode_of-Among : (s : Bytes) {m : CaddyTlsMode} → mode_of s ≡ ok m → Among s tls_modes
unfolding text
mode_of-Among s h = found_or s (text "") λ e0. found_or s (text "acme") λ e1.
    found_or s (text "dns01-broker") λ e2. found_or s (text "dns-01-broker") λ e3.
      found_or s (text "broker")
        λ e4. found_or s (text "internal") λ e5. let h' = rw (e0, e1, e2, e3, e4, e5) at h in cc

mode_of-some : (s : Bytes) → Among s tls_modes → (m : CaddyTlsMode) × (mode_of s ≡ ok m)
unfolding text ◌==◌
mode_of-some s h =
    let P : Bytes → Type 0 = λ t. (m : CaddyTlsMode) × (mode_of t ≡ ok m) in
    elim h [
      | inl e ↦ subst P e (acme, refl)
      | inr (inl e) ↦ subst P e (acme, refl)
      | inr (inr (inl e)) ↦ subst P e (dns01_broker, refl)
      | inr (inr (inr (inl e))) ↦ subst P e (dns01_broker, refl)
      | inr (inr (inr (inr (inl e)))) ↦ subst P e (dns01_broker, refl)
      | inr (inr (inr (inr (inr (inl e))))) ↦ subst P e (internal, refl)
      | inr (inr (inr (inr (inr (inr e))))) ↦ absurd e
    ]

-- The image of the init containers: set, and pinned by its digest.
abbrev pub Pinned : (Bytes → Option Bytes) → Bytes → Type 0
Pinned env image =
    (env (text "ENCLAVA_INIT_IMAGE") ≡ some image) × (contains (text "@sha256:") image ≡ true)

enclava_init_image_iff :
    (env : Bytes → Option Bytes) (image : Bytes)
    → (enclava_init_image env ≡ ok image) ↔ Pinned env image
unfolding enclava_init_image
enclava_init_image_iff env image = elim (Option-cases (env (text "ENCLAVA_INIT_IMAGE"))) [
  | inl e ↦ (λ h. let h' = rw e at h in absurd (cc), λ h. absurd (cc (h.0, e)))
  | inr (set, e) ↦ (
    λ h.
        let (pinned, same) = ensure-passed (contains (text "@sha256:") set) _ _ (rw e at h) in
        let same' = ok_inj same in (e ∙ ap some same', rw (← same') pinned),
    λ h. let (known, pinned) = h in rw (known, pinned) refl,
  )
]

module _ (x : External) (f : Floats) (env : Bytes → Option Bytes) (d : DeploymentDescriptor)
    (log : Option LogEncryptionConfig) where
  -- The pod that is made, for the modes and the image that were found.
  abbrev pub rendered_pod : Bytes → CaddyTlsMode → Bytes → Value
  rendered_pod mode tls image =
      pod_value x f env d
        (app_container d log x env
          ∷ proxy_value d env (amd_kds_base_url env) mode
          ∷ tenant_ingress_container_for_mode d env tls
          ∷ init_value env log image
          ∷ [])
        (tools_value (is_some log) image) (is_some log)

  -- What a manifest is made of.
  pub record Rendered (pod : Value) : Type 0 where
    pub mode : Bytes
    pub tls : CaddyTlsMode
    pub image : Bytes
    pub unique : validate_unique_resource_names d ≡ ok tt
    pub unlock : storage_ownership_mode d.unlock_mode ≡ ok mode
    pub ingress : tenant_caddy_tls_mode env ≡ ok tls
    pub init : enclava_init_image env ≡ ok image
    pub made : pod ≡ rendered_pod mode tls image

  pod_manifest-built :
      (mode : Bytes) (tls : CaddyTlsMode) (image : Bytes)
      → validate_unique_resource_names d ≡ ok tt
      → storage_ownership_mode d.unlock_mode ≡ ok mode
      → tenant_caddy_tls_mode env ≡ ok tls
      → enclava_init_image env ≡ ok image
      → pod_manifest x f env d log ≡ ok (rendered_pod mode tls image)
  unfolding pod_manifest attestation_proxy_container tenant_ingress_container
      attestation_proxy_container_with_amd_kds_base_url enclava_init_container
      enclava_tools_container
  pod_manifest-built mode tls image unique unlock ingress init =
      rw (unique, unlock, ingress, init) refl

  pub pod_manifest-Rendered : (pod : Value) → pod_manifest x f env d log ≡ ok pod → Rendered pod
  unfolding pod_manifest attestation_proxy_container tenant_ingress_container
      attestation_proxy_container_with_amd_kds_base_url enclava_init_container
  pod_manifest-Rendered pod h =
      let (_, unique, h1) = >>=-eq-ok (validate_unique_resource_names d) _ h in
      let (proxy, ep, h2) = >>=-eq-ok (attestation_proxy_container d env) _ h1 in
      let (mode, em, _) = >>=-eq-ok (storage_ownership_mode d.unlock_mode) _ ep in
      let (ingress, et, h3) = >>=-eq-ok (tenant_ingress_container d env) _ h2 in
      let (tls, el, _) = >>=-eq-ok (tenant_caddy_tls_mode env) _ et in
      let (init, ei, _) = >>=-eq-ok (enclava_init_container env log) _ h3 in
      let (image, ea, _) = >>=-eq-ok (enclava_init_image env) _ ei in
      record {
        mode = mode;
        tls = tls;
        image = image;
        unique = unique;
        unlock = em;
        ingress = el;
        init = ea;
        made = sym (ok_inj (sym (pod_manifest-built mode tls image unique em el ea) ∙ h));
      }

  -- A manifest is made exactly when no resource name stands twice, the unlock mode and the TLS mode are
  -- among those known, and the image of the init containers is set and pinned by a digest.
  pub pod_manifest_iff : ((pod : Value) × (pod_manifest x f env d log ≡ ok pod)) ↔ (
      Distinct (names d.oci_runtime_spec.resources.requests)
      × Distinct (names d.oci_runtime_spec.resources.limits)
      × Among d.unlock_mode unlock_modes
      × Among (tls_setting env) tls_modes
      × ((image : Bytes) × Pinned env image))
  unfolding tenant_caddy_tls_mode tls_mode_from_str
  pod_manifest_iff = (
    λ (pod, h).
        let r = pod_manifest-Rendered pod h in
        let (requests, limits) = (validate_unique_resource_names_iff d).0 r.unique in
        (
          requests,
          limits,
          storage_ownership_mode-Among d.unlock_mode r.unlock,
          mode_of-Among (tls_setting env) r.ingress,
          (r.image, (enclava_init_image_iff env r.image).0 r.init),
        ),
    λ (requests, limits, unlock, tls, (image, pinned)).
        let (mode, em) = storage_ownership_mode-some d.unlock_mode unlock in
        let (setting, et) = mode_of-some (tls_setting env) tls in
        (
          rendered_pod mode setting image,
          pod_manifest-built mode setting image
              ((validate_unique_resource_names_iff d).1 (requests, limits)) em et
              ((enclava_init_image_iff env image).1 pinned),
        ),
  )
