-- ===== src/OwnerStore/Refine.antt =====
-- A registry, and the database as a view of it: for each organisation the list of its owners' keys, the last
-- first. The row of an organisation is a view of that list.
use policy_templates.Prelude.{
  ℕ, ◌≡◌, ◌≢◌, refl, sym, ap, subst, Bytes, ◌==◌, ==_iff, ==_refl, true, false, Bool-cases,
  Option-cases, length, map, List, [], ◌∷◌, Result, ok, err, inl, inr, if◌then◌else◌, arith,
  bootstrapped_with_different_owner,
}
use policy_templates.External.{External, TextLaws}
use policy_templates.OwnerStore.{
  Storage, Statement, connect, begin, select, insert, log_event, commit, BootstrapOutcome, created,
  already_exists, bootstrap_owner,
}
use policy_templates.OwnerStore.Table.{
  OwnerRow, EventRow, Db, select_owner, insert_owner, insert_event,
}
use policy_templates.OwnerStore.Select.{events_of}
use policy_templates.Canonical.Binds.{uuid_to_string_inj}
use policy_templates.OwnerStore.Cases.{bootstrap_cases}
use policy_templates.OwnerStore.Invariant.{IsConsistent, Agrees, RowValid, IsKey}

-- The owners' keys of an organisation, the last first.
abbrev pub keys : List EventRow → List Bytes
keys = map (λ (e : EventRow). e.owner_pubkey)

unfoldable pub history : External → Db → Bytes → List Bytes
history x db org_id = keys (events_of (x.uuid_to_string org_id) db.events)

-- Bootstrapping: the first key is taken, the current key is confirmed, another is refused.
abbrev pub spec_bootstrap : Bytes → List Bytes → Result BootstrapOutcome × List Bytes
spec_bootstrap key [] = (ok created, key ∷ [])
spec_bootstrap key (current ∷ earlier) = (
  if current == key then ok already_exists else err bootstrapped_with_different_owner,
  current ∷ earlier,
)

-- No call of SQLite fails.
abbrev pub AllWorks : Storage → Type 0
AllWorks works = (s : Statement) → works s ≡ true

pub last_event :
    {x : External} (row : OwnerRow) (events : List EventRow)
    → RowValid x row events
    → (e : EventRow) × (rest : List EventRow) × (events ≡ e ∷ rest)
      × (e.owner_pubkey ≡ row.owner_pubkey)
last_event row [] v = absurd v.last
last_event row (e ∷ rest) v = (e, rest, refl, v.last)

-- Two organisations have two texts.
pub uuid_ne :
    {x : External} (laws : TextLaws x) (u v : Bytes)
    → u ≢ v
    → (x.uuid_to_string v == x.uuid_to_string u) ≡ false
uuid_ne {x} laws u v differs = elim (Bool-cases (x.uuid_to_string v == x.uuid_to_string u)) [
  | inl e ↦ absurd (differs (uuid_to_string_inj laws u v (sym ((==_iff _ _).0 e))))
  | inr e ↦ e
]

module _ (x : External) (works : Storage) (db : Db) (org_id key : Bytes) (now : ℕ) where
  bootstrap_history :
      AllWorks works
      → IsConsistent x db
      → IsKey x key
      → ((bootstrap_owner x works db org_id key now).0
          ≡ (spec_bootstrap key (history x db org_id)).0)
        × (history x (bootstrap_owner x works db org_id key now).1 org_id
            ≡ (spec_bootstrap key (history x db org_id)).1)
  unfolding bootstrap_owner history insert_owner insert_event events_of
  bootstrap_history all valid isKey = elim (Option-cases (select_owner org db)) [
    | inl absent ↦
        let unused = subst (λ o. Agrees x o (events_of org db.events)) absent (valid.agrees org) in
        ground (
          arith,
          unused,
          all connect,
          all begin,
          all select,
          all insert,
          all log_event,
          all commit,
          ==_refl org,
          ap (length {0}) unused,
        )
    | inr (row, found) ↦
        let before = subst (λ o. Agrees x o (events_of org db.events)) found (valid.agrees org) in
        let (e, rest, events, last) = last_event row (events_of org db.events) before in
        ground (arith, all connect, all begin, all select, events, last)
  ]
    where
      org : Bytes
      org = x.uuid_to_string org_id

  history_elsewhere :
      (other : Bytes)
      → TextLaws x
      → other ≢ org_id
      → history x (bootstrap_owner x works db org_id key now).1 other ≡ history x db other
  unfolding history events_of
  history_elsewhere other laws differs = elim (bootstrap_cases x works db org_id key now) [
    | inl same ↦ rw same
    | inr (_, _, state) ↦ rw (state, events_of) (rw (uuid_ne laws other org_id differs) refl)
  ]

-- With no failure of SQLite and a consistent database, a bootstrap answers as the registry does and
-- leaves the registry's list of keys for the organisation; other organisations keep theirs.
pub bootstrap_owner_refines :
    (x : External) (works : Storage) (db : Db) (org_id key : Bytes) (now : ℕ)
    → AllWorks works
    → TextLaws x
    → IsConsistent x db
    → IsKey x key
    → let reply = bootstrap_owner x works db org_id key now in
      (reply.0 ≡ (spec_bootstrap key (history x db org_id)).0)
      × (history x reply.1 org_id ≡ (spec_bootstrap key (history x db org_id)).1)
      × ((other : Bytes) → other ≢ org_id → history x reply.1 other ≡ history x db other)
bootstrap_owner_refines x works db org_id key now all laws valid isKey =
    let (reply, here) = bootstrap_history x works db org_id key now all valid isKey in
    (reply, here, λ other differs. history_elsewhere x works db org_id key now other laws differs)
