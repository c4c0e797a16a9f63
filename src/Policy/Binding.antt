-- ===== src/Policy/Binding.antt =====
-- What the signing input of an artifact says about its metadata and its policy.
use policy_templates.Prelude.{
  ok_or-eq-ok, ℕ, ◌≡◌, sym, ap, ◌∙◌, Bytes, eqb, length, some, ok, ensure-passed, >>=-eq-ok, ok_or,
  ok_inj, ◌⊎◌, inl,
}
use policy_templates.External.{External, Collision}
use policy_templates.Canonical.{ce_v1_bytes, ce_v1_hash}
use policy_templates.Canonical.Binding.{ce_v1_bytes_inj, ce_v1_hash_binds}
use policy_templates.Canonical.Binds.{◌>>=◌, value_at}
use policy_templates.Policy.{PolicyMetadata}
use policy_templates.Policy.Metadata.{
  Decoded, decode_hex32, decode_metadata, metadata_records, canonical_policy_metadata_hash,
  signing_records, policy_artifact_signing_input,
}

-- The same metadata, but for the spelling of identifiers and of hexadecimal digits.
pub record SameMetadata (x : External) (m n : PolicyMetadata) : Type 0 where
  pub app_id : x.uuid_parse m.app_id ≡ x.uuid_parse n.app_id
  pub deploy_id : x.uuid_parse m.deploy_id ≡ x.uuid_parse n.deploy_id
  pub core_hash : x.hex_decode m.descriptor_core_hash ≡ x.hex_decode n.descriptor_core_hash
  pub pubkey : x.hex_decode m.descriptor_signing_pubkey ≡ x.hex_decode n.descriptor_signing_pubkey
  pub release : m.platform_release_version ≡ n.platform_release_version
  pub template_id : m.policy_template_id ≡ n.policy_template_id
  pub template_hash : x.hex_decode m.policy_template_sha256 ≡ x.hex_decode n.policy_template_sha256
  pub agent_hash : x.hex_decode m.agent_policy_sha256 ≡ x.hex_decode n.agent_policy_sha256
  pub version_pin : m.genpolicy_version_pin ≡ n.genpolicy_version_pin
  pub signed_at : m.signed_at ≡ n.signed_at
  pub key_id : m.key_id ≡ n.key_id

record DecodedFrom (x : External) (m : PolicyMetadata) (d : Decoded) : Type 0 where
  app_id : x.uuid_parse m.app_id ≡ some d.app_id
  deploy_id : x.uuid_parse m.deploy_id ≡ some d.deploy_id
  core_hash : x.hex_decode m.descriptor_core_hash ≡ some d.descriptor_core_hash
  pubkey : x.hex_decode m.descriptor_signing_pubkey ≡ some d.descriptor_signing_pubkey
  template_hash : x.hex_decode m.policy_template_sha256 ≡ some d.policy_template_sha256
  agent_hash : x.hex_decode m.agent_policy_sha256 ≡ some d.agent_policy_sha256

module _ (x : External) where
  decode_hex32-eq-ok :
      (name value : Bytes) {b : Bytes}
      → decode_hex32 x name value ≡ ok b
      → x.hex_decode value ≡ some b
  unfolding decode_hex32
  decode_hex32-eq-ok name value h =
      let (a, e, k) = >>=-eq-ok (ok_or (x.hex_decode value) _) _ h in
      let (_, same) = ensure-passed (eqb (length a) 32) _ _ k in
      cc (ok_or-eq-ok (x.hex_decode value) _ e, same)

  DecodedFrom-decode_metadata :
      (m : PolicyMetadata) {d : Decoded} → decode_metadata x m ≡ ok d → DecodedFrom x m d
  unfolding decode_metadata
  DecodedFrom-decode_metadata m h =
      let (a, ea, h1) = >>=-eq-ok (ok_or (x.uuid_parse m.app_id) _) _ h in
      let (p, ep, h2) = >>=-eq-ok (ok_or (x.uuid_parse m.deploy_id) _) _ h1 in
      let (c, ec, h3) = >>=-eq-ok (decode_hex32 x _ m.descriptor_core_hash) _ h2 in
      let (k, ek, h4) = >>=-eq-ok (decode_hex32 x _ m.descriptor_signing_pubkey) _ h3 in
      let (t, et, h5) = >>=-eq-ok (decode_hex32 x _ m.policy_template_sha256) _ h4 in
      let (g, eg, h6) = >>=-eq-ok (decode_hex32 x _ m.agent_policy_sha256) _ h5 in
      let same = ok_inj h6 in
      record {
        app_id = ok_or-eq-ok _ _ ea ∙ ap (λ (d : Decoded). some d.app_id) same;
        deploy_id = ok_or-eq-ok _ _ ep ∙ ap (λ (d : Decoded). some d.deploy_id) same;
        core_hash =
            decode_hex32-eq-ok _ _ ec ∙ ap (λ (d : Decoded). some d.descriptor_core_hash) same;
        pubkey =
            decode_hex32-eq-ok _ _ ek ∙ ap (λ (d : Decoded). some d.descriptor_signing_pubkey) same;
        template_hash =
            decode_hex32-eq-ok _ _ et ∙ ap (λ (d : Decoded). some d.policy_template_sha256) same;
        agent_hash =
            decode_hex32-eq-ok _ _ eg ∙ ap (λ (d : Decoded). some d.agent_policy_sha256) same;
      }

  metadata_records_inj :
      (m n : PolicyMetadata) (d e : Decoded)
      → DecodedFrom x m d
      → DecodedFrom x n e
      → metadata_records x m d ≡ metadata_records x n e
      → SameMetadata x m n
  unfolding metadata_records
  metadata_records_inj m n d e fd fe same =
      let at = λ (i : ℕ). ap (value_at i) same in
      record {
        app_id = fd.app_id ∙ ap some (at 0) ∙ sym fe.app_id;
        deploy_id = fd.deploy_id ∙ ap some (at 1) ∙ sym fe.deploy_id;
        core_hash = fd.core_hash ∙ ap some (at 2) ∙ sym fe.core_hash;
        pubkey = fd.pubkey ∙ ap some (at 3) ∙ sym fe.pubkey;
        release = at 4;
        template_id = at 5;
        template_hash = fd.template_hash ∙ ap some (at 6) ∙ sym fe.template_hash;
        agent_hash = fd.agent_hash ∙ ap some (at 7) ∙ sym fe.agent_hash;
        version_pin = at 8;
        signed_at = at 9;
        key_id = at 10;
      }

  canonical_policy_metadata_hash_binds :
      (m n : PolicyMetadata) {h : Bytes}
      → canonical_policy_metadata_hash x m ≡ ok h
      → canonical_policy_metadata_hash x n ≡ ok h
      → SameMetadata x m n ⊎ Collision x
  unfolding canonical_policy_metadata_hash
  canonical_policy_metadata_hash_binds m n hm hn =
      let (d, ed, p) =
        >>=-eq-ok (decode_metadata x m) (λ d. ce_v1_hash x (metadata_records x m d)) hm in
      let (e, ee, q) =
        >>=-eq-ok (decode_metadata x n) (λ d. ce_v1_hash x (metadata_records x n d)) hn in
      do
        same ← ce_v1_hash_binds x (metadata_records x m d) (metadata_records x n e) p q
        inl (
            metadata_records_inj m n d e (DecodedFrom-decode_metadata m ed)
              (DecodedFrom-decode_metadata n ee) same)

-- Two artifacts with the same signed bytes have the same hash of the policy text, and the same
-- metadata up to the spelling of identifiers and hexadecimal digits, unless SHA-256 has a collision.
pub policy_artifact_signing_input_binds :
    (x : External) (m n : PolicyMetadata) (h g b : Bytes)
    → policy_artifact_signing_input x m h ≡ ok b
    → policy_artifact_signing_input x n g ≡ ok b
    → (SameMetadata x m n × (h ≡ g)) ⊎ Collision x
unfolding policy_artifact_signing_input
policy_artifact_signing_input_binds x m n h g b em en =
    let (i, ei, p) =
      >>=-eq-ok (canonical_policy_metadata_hash x m) (λ i. ce_v1_bytes (signing_records x i h))
        em in
    let (j, ej, q) =
      >>=-eq-ok (canonical_policy_metadata_hash x n) (λ i. ce_v1_bytes (signing_records x i g))
        en in
    let same = ce_v1_bytes_inj (signing_records x i h) (signing_records x j g) p q in
    let hashes : i ≡ j = unfold signing_records in ap (value_at 1) same in
    do
      metadata ← canonical_policy_metadata_hash_binds x m n ei (cc (ej, hashes))
      inl (metadata, unfold signing_records in ap (value_at 2) same)
