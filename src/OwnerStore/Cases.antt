-- ===== src/OwnerStore/Cases.antt =====
-- The states that an operation can leave.
use policy_templates.Prelude.{
  ℕ, ◌≡◌, ◌≢◌, Bytes, text, ==_iff, ==_refl, Option, ◌+◌, ◌%◌, ◌^◌, none, some, ◌∷◌, ok, arith, ◌⊎◌,
  inl, inr, Bool, true, ◌&&◌, Bool-cases, Option-cases,
}
use policy_templates.External.{External}
use policy_templates.OwnerStore.{
  Storage, connect, begin, select, transaction, rotate_with, created, bootstrap_owner,
  rotated_record, rotate_owner, OwnerRecord,
}
use policy_templates.OwnerStore.Table.{
  OwnerRow, Db, select_owner, insert_owner, insert_event, update_owner, update_rows,
}

-- The database with a first owner for the organisation.
abbrev pub with_owner : Db → Bytes → Bytes → Bytes → Db
with_owner db org pubkey now = record {
  owners =
      record {
        org_id = org;
        owner_pubkey = pubkey;
        version = 1;
        bootstrapped_at = now;
        rotated_at = none;
      }
      ∷ db.owners;
  events =
      record {
        org_id = org;
        version = 1;
        event_type = text "bootstrap";
        owner_pubkey = pubkey;
        occurred_at = now;
      }
      ∷ db.events;
}

pub bootstrap_cases :
    (x : External) (works : Storage) (db : Db) (org_id key : Bytes) (now : ℕ)
    → ((bootstrap_owner x works db org_id key now).1 ≡ db)
      ⊎ ((select_owner (x.uuid_to_string org_id) db ≡ none)
          × ((bootstrap_owner x works db org_id key now).0 ≡ ok created)
          × ((bootstrap_owner x works db org_id key now).1
              ≡ with_owner db (x.uuid_to_string org_id) key (x.to_rfc3339 now)))
unfolding bootstrap_owner insert_owner insert_event
bootstrap_cases x works db org_id key now = ground arith

-- The database with the next owner of the organisation.
abbrev pub with_next_owner : Db → Bytes → Bytes → ℕ → Bytes → Db
with_next_owner db org pubkey version now = record {
  owners = update_rows org pubkey version now db.owners;
  events =
      record {
        org_id = org;
        version = version;
        event_type = text "rotation";
        owner_pubkey = pubkey;
        occurred_at = now;
      }
      ∷ db.events;
}

module _ (x : External) (works : Storage) (db : Db) (org_id expected replacement : Bytes)
    (now : ℕ) where
  rotate_row_cases :
      (row : OwnerRow)
      → let reply =
          transaction db (rotate_with x works db org_id expected replacement now (some row)) in
        (reply.1 ≡ db)
        ⊎ ((row.owner_pubkey ≡ expected)
            × (replacement ≢ expected)
            × (reply.0
                ≡ rotated_record x org_id replacement
                    ((row.version + 1) % 2 ^ 64)
                    row.bootstrapped_at
                    (ok (some now)))
            × (reply.1
                ≡ with_next_owner db
                    (x.uuid_to_string org_id)
                    replacement
                    ((row.version + 1) % 2 ^ 64)
                    (x.to_rfc3339 now)))
  unfolding rotate_with update_owner insert_event
  rotate_row_cases row =
      ground (arith, ==_iff row.owner_pubkey expected, ==_iff replacement expected)

-- The calls before the query's result is looked at.
abbrev started : Storage → Bool
started works = works connect && (works begin && works select)

pub rotate_cases :
    (x : External) (works : Storage) (db : Db) (org_id expected replacement : Bytes) (now : ℕ)
    → ((rotate_owner x works db org_id expected replacement now).1 ≡ db)
      ⊎ ((row : OwnerRow) × (select_owner (x.uuid_to_string org_id) db ≡ some row)
          × (row.owner_pubkey ≡ expected)
          × (replacement ≢ expected)
          × ((rotate_owner x works db org_id expected replacement now).0
              ≡ rotated_record x org_id replacement
                  ((row.version + 1) % 2 ^ 64)
                  row.bootstrapped_at
                  (ok (some now)))
          × ((rotate_owner x works db org_id expected replacement now).1
              ≡ with_next_owner db
                  (x.uuid_to_string org_id)
                  replacement
                  ((row.version + 1) % 2 ^ 64)
                  (x.to_rfc3339 now)))
unfolding rotate_owner update_owner insert_event
rotate_cases x works db org_id expected replacement now =
    elim (Option-cases (select_owner (x.uuid_to_string org_id) db)) [
      | inl absent ↦ inl (ground arith)
      | inr (row, found) ↦ elim (Bool-cases (started works)) [
        | inl ready ↦
            let c : works connect ≡ true = ground arith in
            let b : works begin ≡ true = ground arith in
            let q : works select ≡ true = ground arith in
            elim (rotate_row_cases x works db org_id expected replacement now row) [
              | inl same ↦ inl (rw (c, b, q, found, rotate_owner) same)
              | inr (current, differs, reply, state) ↦ inr (
                row,
                found,
                current,
                differs,
                rw (c, b, q, found, rotate_owner) reply,
                rw (c, b, q, found, rotate_owner) state,
              )
            ]
        | inr failed ↦ inl (ground arith)
      ]
    ]

refuses_row :
    (x : External) (works : Storage) (db : Db) (org_id key : Bytes) (now : ℕ)
    (row : Option OwnerRow) (r : OwnerRecord)
    → (transaction db (rotate_with x works db org_id key key now row)).0 ≢ ok r
unfolding rotate_with
refuses_row x works db org_id key now none r = λ h. cc
refuses_row x works db org_id key now (some row) r = λ h. absurd (ground (arith, ==_refl key))

-- A rotation to the expected owner itself never succeeds.
pub rotate_owner-refuses :
    (x : External) (works : Storage) (db : Db) (org_id key : Bytes) (now : ℕ) (r : OwnerRecord)
    → (rotate_owner x works db org_id key key now).0 ≢ ok r
unfolding rotate_owner
rotate_owner-refuses x works db org_id key now r h = elim (Bool-cases (started works)) [
  | inl ready ↦
      let c : works connect ≡ true = ground arith in
      let b : works begin ≡ true = ground arith in
      let s : works select ≡ true = ground arith in
      refuses_row x works db org_id key now (select_owner (x.uuid_to_string org_id) db) r
        (rw (c, b, s) at h)
  | inr failed ↦ absurd (ground arith)
]
