-- ===== src/OwnerStore/Atomic.antt =====
-- The database after an operation that fails.
use policy_templates.Prelude.{
  ℕ, ◌+◌, ◌%◌, ◌<◌, ◌^◌, ◌≡◌, subst, sym, ◌∙◌, Bytes, length, lt→ltb, err, arith, Error, inl, inr,
}
use policy_templates.External.{External}
use policy_templates.OwnerStore.{Storage, bootstrap_owner, rotate_owner, rotated_record}
use policy_templates.OwnerStore.Table.{Db}
use policy_templates.OwnerStore.Select.{events_of}
use policy_templates.OwnerStore.Cases.{bootstrap_cases, rotate_cases}
use policy_templates.OwnerStore.Invariant.{IsConsistent, RowValid, Agrees}

-- A bootstrap that returns an error has not changed the database, whichever call of SQLite fails.
pub bootstrap_owner_atomic :
    (x : External) (works : Storage) (db : Db) (org_id key : Bytes) (now : ℕ) (e : Error)
    → (bootstrap_owner x works db org_id key now).0 ≡ err e
    → (bootstrap_owner x works db org_id key now).1 ≡ db
bootstrap_owner_atomic x works db org_id key now e h =
    elim (bootstrap_cases x works db org_id key now) [ inl same ↦ same | inr (_, done, _) ↦ cc ]

-- A rotation that returns an error has not changed a consistent database, whichever call of SQLite
-- fails, while the organisation has fewer than 2^63 - 1 events: the record that is read after the
-- commit can then be built.
pub rotate_owner_atomic :
    (x : External) (works : Storage) (db : Db) (org_id expected replacement : Bytes) (now : ℕ)
    (e : Error)
    → IsConsistent x db
    → length (events_of (x.uuid_to_string org_id) db.events) + 1 < 2 ^ 63
    → (rotate_owner x works db org_id expected replacement now).0 ≡ err e
    → (rotate_owner x works db org_id expected replacement now).1 ≡ db
unfolding rotated_record
rotate_owner_atomic x works db org_id expected replacement now e valid room h =
    elim (rotate_cases x works db org_id expected replacement now) [
      | inl same ↦ same
      | inr (row, found, _, _, reply, _) ↦
          let org = x.uuid_to_string org_id in
          let before : RowValid x row (events_of org db.events) =
            subst (λ o. Agrees x o (events_of org db.events)) found (valid.agrees org) in
          let small : (row.version + 1) % 2 ^ 64 < 2 ^ 63 = omega (arith, before.version) in
          let impossible = rw (lt→ltb _ _ small, before.bootstrapped.1) at (sym h ∙ reply) in cc
    ]
