-- ===== src/Keyring/Verify.antt =====
-- What `verify_keyring` and `find_deployer_pubkey` accept.
use mathlib.Core.Option
use policy_templates.Prelude.{
  ◌≡◌, refl, ap, ◌↔◌, Bytes, ◌==◌, ==_iff, ==_sound, true, Bool-cases, any, any_iff, Any, Any-map,
  find, find-some, List, [], ◌∷◌, Option, some, none, ok, >>=-eq-ok, ensure-passed, ok_or, inl, inr,
  arith, not_authorized_deployer,
}
use policy_templates.External.{External}
use policy_templates.Keyring.{
  owner, is_owner, can_deploy, Member, OrgKeyring, OrgKeyringEnvelope, canonical_keyring_bytes,
  is_owner_member, verify_keyring, deploys_with, find_deployer_pubkey,
}

-- A member with the role of owner and the key.
abbrev pub OwnedBy : Bytes → Member → Type 0
OwnedBy key m = (m.role ≡ owner) × (m.pubkey ≡ key)

is_owner_member_iff : (key : Bytes) (m : Member) → (is_owner_member key m ≡ true) ↔ OwnedBy key m
unfolding is_owner_member is_owner
is_owner_member_iff key m =
    (λ h. ground (arith, ==_iff m.pubkey key), λ h. ground (arith, ==_iff m.pubkey key))

-- What the service trusts a keyring for: the owner is named as the signer, has signed the canonical
-- bytes, and is a member in the role of owner.
pub record Authentic (x : External) (e : OrgKeyringEnvelope) (key : Bytes) : Type 0 where
  pub signer : e.signing_pubkey ≡ key
  pub signed :
      (b : Bytes) × (canonical_keyring_bytes x e.keyring ≡ ok b)
      × (x.verify key b e.signature ≡ true)
  pub owned : Any (OwnedBy key) e.keyring.members

module _ (x : External) (e : OrgKeyringEnvelope) (key : Bytes) where
  Authentic-of_verify :
      {k : OrgKeyring} → verify_keyring x e key ≡ ok k → Authentic x e key × (k ≡ e.keyring)
  unfolding verify_keyring
  Authentic-of_verify h =
      let (signer, h1) = ensure-passed (e.signing_pubkey == key) _ _ h in
      let (b, canonical, h2) = >>=-eq-ok (canonical_keyring_bytes x e.keyring) _ h1 in
      let (signed, h3) = ensure-passed (x.verify key b e.signature) _ _ h2 in
      let (owned, h4) = ensure-passed (any (is_owner_member key) e.keyring.members) _ _ h3 in
      (
        record {
          signer = ==_sound e.signing_pubkey key signer;
          signed = (b, canonical, signed);
          owned =
              Any-map (λ m. is_owner_member key m ≡ true) (OwnedBy key) e.keyring.members
                (λ m. (is_owner_member_iff key m).0)
                ((any_iff (is_owner_member key) e.keyring.members).0 owned);
        },
        cc,
      )

  verify_of_Authentic : Authentic x e key → verify_keyring x e key ≡ ok e.keyring
  unfolding verify_keyring
  verify_of_Authentic a =
      let owned : any (is_owner_member key) e.keyring.members ≡ true =
        (any_iff (is_owner_member key) e.keyring.members).1 (
          Any-map (OwnedBy key) (λ m. is_owner_member key m ≡ true) e.keyring.members
            (λ m. (is_owner_member_iff key m).1) a.owned) in
      rw ((==_iff e.signing_pubkey key).1 a.signer, a.signed.1, a.signed.2, owned) refl

-- `verify_keyring` accepts an envelope exactly when it is authentic, and then returns its keyring.
pub verify_keyring_iff :
    (x : External) (e : OrgKeyringEnvelope) (key : Bytes) (k : OrgKeyring)
    → (verify_keyring x e key ≡ ok k) ↔ (Authentic x e key × (k ≡ e.keyring))
verify_keyring_iff x e key k =
    (Authentic-of_verify x e key, λ h. rw h.1 (verify_of_Authentic x e key h.0))

deploys_with_iff : (key : Bytes) (m : Member) → (deploys_with key m ≡ true) ↔ (m.pubkey ≡ key)
unfolding deploys_with can_deploy
deploys_with_iff key m =
    (λ h. ground (arith, ==_iff m.pubkey key), λ h. ground (arith, ==_iff m.pubkey key))

find_deployer_members :
    (key : Bytes) (ms : List Member)
    → Any (λ m. m.pubkey ≡ key) ms
    → Option.map (λ (m : Member). m.pubkey) (find (deploys_with key) ms) ≡ some key
find_deployer_members key [] h = absurd h
find_deployer_members key (m ∷ ms) h = elim (Bool-cases (deploys_with key m)) [
  | inl e ↦ rw e (ap some ((deploys_with_iff key m).0 e))
  | inr e ↦ rw e (elim h [
    | inl here ↦ cc (e, (deploys_with_iff key m).1 here)
    | inr there ↦ find_deployer_members key ms there
  ])
]

deployer_found :
    (o : Option Member) {found : Bytes}
    → ok_or (Option.map (λ (m : Member). m.pubkey) o) not_authorized_deployer ≡ ok found
    → (m : Member) × (o ≡ some m) × (m.pubkey ≡ found)
deployer_found none h = cc
deployer_found (some m) h = (m, refl, cc)

-- The descriptor's signer is accepted exactly when some member has its key, and then the member's
-- key that is returned is the signer's: every role may deploy.
pub find_deployer_pubkey_iff :
    (k : OrgKeyring) (key found : Bytes)
    → (find_deployer_pubkey k key ≡ ok found)
      ↔ ((found ≡ key) × Any (λ (m : Member). m.pubkey ≡ key) k.members)
unfolding find_deployer_pubkey
find_deployer_pubkey_iff k key found = (
  λ h.
      let (m, e, same) = deployer_found (find (deploys_with key) k.members) h in
      let (hit, member) = find-some (deploys_with key) k.members m e in
      let is_key = (deploys_with_iff key m).0 hit in
      (cc, Any-map (λ n. n ≡ m) (λ n. n.pubkey ≡ key) k.members (λ n p. rw p is_key) member),
  λ h. rw (h.0, find_deployer_members key k.members h.1) refl,
)
