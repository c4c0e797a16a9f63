-- ===== src/Keyring.antt =====
-- signing-service/src/keyring.rs: the members of an organisation, signed by its owner.
pub mod Verify
pub mod Order
pub mod Binding
use policy_templates.Prelude.{
  ℕ, Bytes, text, ◌==◌, be64, Bool, true, false, ◌&&◌, any, find, Option, none, some, List, [], ◌∷◌,
  Result, ok, err, ◌>>=◌, ◌>>◌, ensure, ok_or, traverse, sort_by_key, signer_is_not_owner,
  keyring_signature_invalid, owner_is_not_member, not_authorized_deployer,
}
use mathlib.Core.Option
use policy_templates.External.{External}
use policy_templates.Canonical.{Tlv, ce_v1_bytes, ce_v1_hash}

pub data Role : Type 0 where
  owner admin deployer : Role

-- Role::as_str
unfoldable pub as_str : Role → Bytes
as_str owner = text "owner"
as_str admin = text "admin"
as_str deployer = text "deployer"

unfoldable pub can_deploy : Role → Bool
can_deploy owner = true
can_deploy admin = true
can_deploy deployer = true

unfoldable pub is_owner : Role → Bool
is_owner owner = true
is_owner _ = false

pub record Member : Type 0 where
  pub user_id : Bytes
  pub pubkey : Bytes
  pub role : Role
  pub added_at : ℕ

pub record OrgKeyring : Type 0 where
  pub org_id : Bytes
  pub version : ℕ
  pub members : List Member
  pub updated_at : ℕ

pub record OrgKeyringEnvelope : Type 0 where
  pub keyring : OrgKeyring
  pub signature : Bytes
  pub signing_pubkey : Bytes

-- The test of the owner's membership in `verify_keyring`.
unfoldable pub is_owner_member : Bytes → Member → Bool
unfolding is_owner
is_owner_member trusted_owner member = is_owner member.role && member.pubkey == trusted_owner

module _ (x : External) where
  unfoldable pub member_records : Member → List Tlv
  member_records member =
      (text "user_id", member.user_id)
      ∷ (text "pubkey", member.pubkey)
      ∷ (text "role", as_str member.role)
      ∷ (text "added_at", x.to_rfc3339 member.added_at)
      ∷ []

  unfoldable pub canonical_member_hash : Member → Result Bytes
  unfolding member_records
  canonical_member_hash member = ce_v1_hash x (member_records member)

  -- The record of a member in the list that is hashed: its id as text, and its hash.
  unfoldable pub member_entry : Member → Result Tlv
  unfolding canonical_member_hash
  member_entry member = do
    hash ← canonical_member_hash member
    ok (x.uuid_to_string member.user_id, hash)

  unfoldable pub canonical_members_hash : List Member → Result Bytes
  unfolding member_entry
  canonical_members_hash members = do
    let sorted = sort_by_key (λ (m : Member). m.user_id) members
    records ← traverse member_entry sorted
    ce_v1_hash x records

  unfoldable pub keyring_records : OrgKeyring → Bytes → List Tlv
  keyring_records keyring members_hash =
      (text "purpose", text "enclava-org-keyring-v1")
      ∷ (text "org_id", keyring.org_id)
      ∷ (text "version", be64 keyring.version)
      ∷ (text "members", members_hash)
      ∷ (text "updated_at", x.to_rfc3339 keyring.updated_at)
      ∷ []

  unfoldable pub canonical_keyring_bytes : OrgKeyring → Result Bytes
  unfolding keyring_records canonical_members_hash
  canonical_keyring_bytes keyring = do
    members_hash ← canonical_members_hash keyring.members
    ce_v1_bytes (keyring_records keyring members_hash)

  unfoldable pub keyring_fingerprint : OrgKeyring → Result Bytes
  keyring_fingerprint keyring = do bytes ← canonical_keyring_bytes keyring; ok (x.sha256 bytes)

  unfoldable pub verify_keyring : OrgKeyringEnvelope → Bytes → Result OrgKeyring
  unfolding is_owner_member
  verify_keyring envelope trusted_owner = do
    ensure (envelope.signing_pubkey == trusted_owner) signer_is_not_owner
    bytes ← canonical_keyring_bytes envelope.keyring
    ensure (x.verify trusted_owner bytes envelope.signature) keyring_signature_invalid
    ensure (any (is_owner_member trusted_owner) envelope.keyring.members) owner_is_not_member
    ok envelope.keyring

-- The test of `find_deployer_pubkey`.
unfoldable pub deploys_with : Bytes → Member → Bool
deploys_with pubkey member = member.pubkey == pubkey && can_deploy member.role

unfoldable pub find_deployer_pubkey : OrgKeyring → Bytes → Result Bytes
unfolding deploys_with
find_deployer_pubkey keyring pubkey =
    ok_or (Option.map (λ (m : Member). m.pubkey) (find (deploys_with pubkey) keyring.members))
      not_authorized_deployer
