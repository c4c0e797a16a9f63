-- ===== src/OwnerStore.antt =====
-- signing-service/src/owner_store.rs: the owner key of each organisation, in SQLite.
pub mod Table
pub mod Select
pub mod Cases
pub mod Atomic
pub mod Invariant
pub mod Refine
pub mod Read
pub mod Rotate
use policy_templates.Prelude.{
  ℕ, ◌+◌, ◌-◌, ◌%◌, ◌^◌, Bytes, text, ◌==◌, ltb, eqb, length, Bool, true, false, not, ◌&&◌, Option,
  none, some, Result, ok, err, ensure, ok_or, ◌>>=◌, ◌>>◌, if◌then◌else◌, storage_failed,
  bootstrapped_with_different_owner, not_bootstrapped, not_previous_owner, not_current_owner,
  replacement_must_differ, negative_version, stored_pubkey_length, stored_pubkey_invalid,
  uuid_invalid, time_invalid,
}
use policy_templates.External.{External}
use Table.{
  OwnerRow, EventRow, Db, select_owner, select_event, insert_owner, insert_event, update_owner,
}

pub data BootstrapOutcome : Type 0 where
  created already_exists : BootstrapOutcome

pub record OwnerRecord : Type 0 where
  pub org_id : Bytes
  pub owner_pubkey : Bytes
  pub version : ℕ
  pub bootstrapped_at : ℕ
  pub rotated_at : Option ℕ

-- The calls of SQLite, each of which may fail; `works s` says that `s` does not.
pub data Statement : Type 0 where
  connect begin select select_previous insert update log_event commit : Statement

abbrev pub Storage : Type 0
Storage = Statement → Bool

abbrev pub run : Storage → Statement → Result (Unit {0})
run works s = ensure (works s) storage_failed

-- What an operation returns, and the database that it leaves.
abbrev pub Reply : Type 0 → Type 0
Reply A = Result A × Db

-- A body that fails is dropped with its transaction, which rolls back. What a body returns in its
-- inner result is computed after the commit.
abbrev pub transaction : {A : Type 0} → Db → Result (Result A × Db) → Reply A
transaction db (ok reply) = reply
transaction db (err e) = (err e, db)

-- u64::try_from of an i64
abbrev pub to_u64 : ℕ → Result ℕ
to_u64 version = if ltb version (2 ^ 63) then ok version else err negative_version

-- `previous_owner.as_deref() != Some(expected_current)`, the other way round.
is_owner_of : Bytes → Option EventRow → Bool
is_owner_of key none = false
is_owner_of key (some e) = e.owner_pubkey == key

module _ (x : External) where
  pub parse_time : Bytes → Result ℕ
  parse_time raw = ok_or (x.parse_rfc3339 raw) time_invalid

  pub parse_rotated : Option Bytes → Result (Option ℕ)
  unfolding parse_time
  parse_rotated none = ok none
  parse_rotated (some raw) = do t ← parse_time raw; ok (some t)

  unfoldable pub verifying_key_from_vec : Bytes → Result Bytes
  verifying_key_from_vec bytes = do
    ensure (eqb (length bytes) 32) stored_pubkey_length
    ensure (x.valid_key bytes) stored_pubkey_invalid
    ok bytes

  -- The closure of `get_owner` on the row that was found.
  read_owner : OwnerRow → Result OwnerRecord
  unfolding verifying_key_from_vec parse_time parse_rotated
  read_owner row = do
    owner_pubkey ← verifying_key_from_vec row.owner_pubkey
    org_id ← ok_or (x.uuid_parse row.org_id) uuid_invalid
    version ← to_u64 row.version
    bootstrapped_at ← parse_time row.bootstrapped_at
    rotated_at ← parse_rotated row.rotated_at
    ok (record {
      org_id = org_id;
      owner_pubkey = owner_pubkey;
      version = version;
      bootstrapped_at = bootstrapped_at;
      rotated_at = rotated_at;
    })

  read_found : Option OwnerRow → Result (Option OwnerRecord)
  unfolding read_owner
  read_found none = ok none
  read_found (some row) = do r ← read_owner row; ok (some r)

  -- The record that a rotation returns.
  unfoldable pub rotated_record : Bytes → Bytes → ℕ → Bytes → Result (Option ℕ) → Result OwnerRecord
  unfolding parse_time
  rotated_record org_id replacement raw_version raw_bootstrapped rotated = do
    version ← to_u64 raw_version
    bootstrapped_at ← parse_time raw_bootstrapped
    rotated_at ← rotated
    ok (record {
      org_id = org_id;
      owner_pubkey = replacement;
      version = version;
      bootstrapped_at = bootstrapped_at;
      rotated_at = rotated_at;
    })

module _ (x : External) (works : Storage) where
  bootstrap_new : Db → Bytes → Bytes → Bytes → Result (Result BootstrapOutcome × Db)
  bootstrap_new db org pubkey now = do
    run works insert
    inserted ←
        insert_owner
          (record {
            org_id = org;
            owner_pubkey = pubkey;
            version = 1;
            bootstrapped_at = now;
            rotated_at = none;
          })
          db
    run works log_event
    logged ←
        insert_event
          (record {
            org_id = org;
            version = 1;
            event_type = text "bootstrap";
            owner_pubkey = pubkey;
            occurred_at = now;
          })
          inserted
    run works commit
    ok (ok created, logged)

  -- The body of `bootstrap_owner` behind the query for the owner.
  bootstrap_with :
      Db → Bytes → Bytes → Bytes → Option OwnerRow → Result (Result BootstrapOutcome × Db)
  unfolding bootstrap_new
  bootstrap_with db org pubkey now none = bootstrap_new db org pubkey now
  bootstrap_with db org pubkey now (some existing) =
      if existing.owner_pubkey == pubkey
      then ok (ok already_exists, db)
      else err bootstrapped_with_different_owner

  unfoldable pub bootstrap_owner : Db → Bytes → Bytes → ℕ → Reply BootstrapOutcome
  unfolding bootstrap_with
  bootstrap_owner db org_id owner_pubkey now =
      let org = x.uuid_to_string org_id in
      transaction db do
        run works connect
        run works begin
        run works select
        bootstrap_with db org owner_pubkey (x.to_rfc3339 now) (select_owner org db)

  unfoldable pub get_owner : Db → Bytes → Result (Option OwnerRecord)
  unfolding read_found
  get_owner db org_id = do
    run works connect
    run works select
    read_found x (select_owner (x.uuid_to_string org_id) db)

  unfoldable pub require_owner : Db → Bytes → Result OwnerRecord
  unfolding get_owner
  require_owner db org_id = do found ← get_owner db org_id; ok_or found not_bootstrapped

  -- The replacement is the current owner already: a repeated request.
  rotate_replay : Db → Bytes → Bytes → Bytes → OwnerRow → Result (Result OwnerRecord × Db)
  unfolding is_owner_of rotated_record parse_rotated
  rotate_replay db org_id expected replacement row = do
    run works select_previous
    let previous = select_event (x.uuid_to_string org_id) ((row.version + 2 ^ 64 - 1) % 2 ^ 64) db
    ensure (is_owner_of expected previous) not_previous_owner
    ok (
      rotated_record x org_id replacement row.version row.bootstrapped_at
          (parse_rotated x row.rotated_at),
      db,
    )

  rotate_now : Db → Bytes → Bytes → Bytes → ℕ → OwnerRow → Result (Result OwnerRecord × Db)
  unfolding rotated_record
  rotate_now db org_id expected replacement now row = do
    ensure (row.owner_pubkey == expected) not_current_owner
    ensure (not (replacement == expected)) replacement_must_differ
    let org = x.uuid_to_string org_id
    let new_version = (row.version + 1) % 2 ^ 64
    run works update
    updated ← update_owner org replacement new_version (x.to_rfc3339 now) db
    run works log_event
    logged ←
        insert_event
          (record {
            org_id = org;
            version = new_version;
            event_type = text "rotation";
            owner_pubkey = replacement;
            occurred_at = x.to_rfc3339 now;
          })
          updated
    run works commit
    ok (rotated_record x org_id replacement new_version row.bootstrapped_at (ok (some now)), logged)

  rotate_with : Db → Bytes → Bytes → Bytes → ℕ → Option OwnerRow → Result (Result OwnerRecord × Db)
  unfolding rotate_replay rotate_now
  rotate_with db org_id expected replacement now none = err not_bootstrapped
  rotate_with db org_id expected replacement now (some row) =
      if row.owner_pubkey == replacement && not (expected == replacement)
      then rotate_replay db org_id expected replacement row
      else rotate_now db org_id expected replacement now row

  unfoldable pub rotate_owner : Db → Bytes → Bytes → Bytes → ℕ → Reply OwnerRecord
  unfolding rotate_with
  rotate_owner db org_id expected_current replacement now = transaction db do
    run works connect
    run works begin
    run works select
    rotate_with db org_id expected_current replacement now
        (select_owner (x.uuid_to_string org_id) db)
