-- ===== src/Prelude/Outcome.antt =====
-- Results: `err e` is an anyhow error, named for its message, or a panic.
use mathlib.Core.Path.{◌≡◌, refl}
use mathlib.Core.Bool.{Bool, true, false}
use mathlib.Core.Option.{Option, none, some}
use mathlib.Core.List.{List, [], ◌∷◌}
use policy_templates.Prelude.ByteString.{Bytes}

pub data Error : Type 0 where
  -- panics of canonical.rs
  label_exceeds_u16 value_exceeds_u32 : Error
  -- keyring.rs
  signer_is_not_owner keyring_signature_invalid owner_is_not_member : Error
  not_authorized_deployer : Error
  -- descriptor.rs; a duplicate is reported with the list and the name
  descriptor_signer_mismatch descriptor_signature_invalid : Error
  duplicate_resource : Bytes → Bytes → Error
  -- owner_store.rs; `storage_failed` stands for the errors of SQLite and of the file system
  storage_failed check_constraint unique_constraint : Error
  bootstrapped_with_different_owner not_bootstrapped not_previous_owner not_current_owner : Error
  replacement_must_differ negative_version stored_pubkey_length stored_pubkey_invalid : Error
  uuid_invalid time_invalid : Error
  -- policy.rs; a slot, a field or a blob is reported with its name
  raw_signing_key_disabled signing_key_id_required signing_key_base64 signing_key_length : Error
  signing_key_required : Error
  org_id_mismatch app_id_mismatch deploy_id_mismatch release_mismatch : Error
  schema_version_unsupported template_id_mismatch template_sha256_mismatch : Error
  privileged_forbidden privilege_escalation_forbidden : Error
  kbs_policy_hash_mismatch agent_policy_hash_mismatch : Error
  unrendered_slot : Error
  slot_empty slot_invalid : Bytes → Error
  blob_required blob_invalid hex_invalid not_32_bytes : Bytes → Error
  rego_sha256_mismatch agent_policy_sha256_mismatch metadata_agent_policy_mismatch : Error
  signature_encoding signature_length artifact_signature_invalid : Error
  -- main.rs
  base64_invalid not_64_bytes key_invalid : Bytes → Error
  owner_pubkey_ambiguous owner_pubkey_required legacy_owner_api_disabled : Error
  rotation_reason_required not_signed_by_current_owner rotation_signature_invalid : Error
  platform_signing_disabled bearer_token_required : Error
  -- genpolicy.rs
  policy_data_missing policy_data_invalid containers_missing container_not_unique : Error
  mounts_missing mount_not_unique mount_shape_unexpected policy_data_unprintable : Error
  unlock_mode_invalid tls_mode_invalid : Bytes → Error
  init_image_required init_image_not_pinned manifest_unprintable : Error
  version_not_pinned work_dir_failed write_failed settings_unreadable settings_invalid : Error
  settings_unprintable copy_failed : Error
  -- policy-artifact.rs
  value_required argument_unknown argument_required : Bytes → Error
  seed_invalid owner_key_invalid request_unreadable request_invalid signing_key_mismatch : Error
  genpolicy_not_executed genpolicy_failed genpolicy_not_utf8 : Error

pub data Result {ℓ} (A : Type ℓ) : Type ℓ where
  ok : A → Result A
  err : Error → Result A

-- Option::ok_or_else
abbrev pub ok_or {ℓ} : {A : Type ℓ} → Option A → Error → Result A
ok_or none e = err e
ok_or (some a) e = ok a

infixl 5 ◌>>=◌ ◌>>◌
abbrev pub ◌>>=◌ {ℓ κ} : {A : Type ℓ} {B : Type κ} → Result A → (A → Result B) → Result B
ok a >>= f = f a
err e >>= f = err e

-- `if !b { bail!(e) }`
abbrev pub ensure : Bool → Error → Result (Unit {0})
ensure true e = ok tt
ensure false e = err e

abbrev pub ◌>>◌ {ℓ} : {B : Type ℓ} → Result (Unit {0}) → Result B → Result B
m >> k = m >>= λ _. k

module _ {ℓ κ} {A : Type ℓ} {B : Type κ} where
  -- Inversion of a successful chain.
  pub >>=-eq-ok :
      (action : Result A) (next : A → Result B) {b : B}
      → (action >>= next) ≡ ok b
      → (a : A) × (action ≡ ok a) × (next a ≡ ok b)
  >>=-eq-ok (err e) next done = cc
  >>=-eq-ok (ok a) next done = (a, refl, done)

module _ {ℓ} {B : Type ℓ} where
  pub ok_inj : {a b : B} → ok a ≡ ok b → a ≡ b
  ok_inj e = cc

  -- A chain that goes on after a guard has passed it.
  pub ensure-passed :
      (t : Bool) (e : Error) (m : Result B) {b : B}
      → (ensure t e >> m) ≡ ok b
      → (t ≡ true) × (m ≡ ok b)
  ensure-passed true e m h = (refl, h)
  ensure-passed false e m h = cc

pub ok_or-eq-ok {ℓ} :
    {A : Type ℓ} (o : Option A) (e : Error) {a : A} → ok_or o e ≡ ok a → o ≡ some a
ok_or-eq-ok none e h = cc
ok_or-eq-ok (some a) e h = cc

module _ {ℓ κ} {A : Type ℓ} {B : Type κ} where
  -- `iter.map(f).collect()`, where `f` may fail
  unfoldable pub traverse : (A → Result B) → List A → Result (List B)
  traverse f [] = ok []
  traverse f (x ∷ xs) = do y ← f x; ys ← traverse f xs; ok (y ∷ ys)

  pub traverse_cons :
      (f : A → Result B) (x : A) (xs : List A) {ts : List B}
      → traverse f (x ∷ xs) ≡ ok ts
      → (y : B) × (ys : List B) × (f x ≡ ok y) × (traverse f xs ≡ ok ys) × (y ∷ ys ≡ ts)
  unfolding traverse
  traverse_cons f x xs e =
      let (y, ey, k) = >>=-eq-ok (f x) (λ y. traverse f xs >>= λ ys. ok (y ∷ ys)) e in
      let (ys, eys, k') = >>=-eq-ok (traverse f xs) (λ ys. ok (y ∷ ys)) k in (y, ys, ey, eys, cc)
