-- ===== src/OwnerStore/Table.antt =====
-- The two tables of the owner database (signing-service/src/owner_store.rs) and the SQL statements
-- that the store runs on them. A column of type TEXT or BLOB is a byte string; an INTEGER column is
-- the 64-bit pattern of its two's complement.
use policy_templates.Prelude.{
  ℕ, Bytes, ◌==◌, eqb, Bool, true, false, ◌&&◌, find, length, Option, none, some, List, [], ◌∷◌,
  Result, ok, ensure, ◌>>◌, if◌then◌else◌, check_constraint, unique_constraint,
}

pub record OwnerRow : Type 0 where
  pub org_id : Bytes
  pub owner_pubkey : Bytes
  pub version : ℕ
  pub bootstrapped_at : Bytes
  pub rotated_at : Option Bytes

-- The column `id` is left out: AUTOINCREMENT numbers the rows in the order of their insertion.
pub record EventRow : Type 0 where
  pub org_id : Bytes
  pub version : ℕ
  pub event_type : Bytes
  pub owner_pubkey : Bytes
  pub occurred_at : Bytes

-- The events, the last inserted first.
pub record Db : Type 0 where
  pub owners : List OwnerRow
  pub events : List EventRow

-- CREATE TABLE IF NOT EXISTS on a new file
abbrev pub empty : Db
empty = record { owners = []; events = [] }

-- SELECT .. FROM owners WHERE org_id = ?1
unfoldable pub select_owner : Bytes → Db → Option OwnerRow
select_owner org db = find (λ (row : OwnerRow). row.org_id == org) db.owners

-- SELECT owner_pubkey FROM owner_events WHERE org_id = ?1 AND version = ?2 ORDER BY id DESC LIMIT 1
unfoldable pub select_event : Bytes → ℕ → Db → Option EventRow
select_event org version db =
    find (λ (e : EventRow). e.org_id == org && eqb e.version version) db.events

-- CHECK(length(owner_pubkey) = 32)
abbrev pub check_pubkey : Bytes → Result (Unit {0})
check_pubkey pubkey = ensure (eqb (length pubkey) 32) check_constraint

-- org_id is the PRIMARY KEY.
abbrev pub is_none : Option OwnerRow → Bool
is_none none = true
is_none (some row) = false

-- INSERT INTO owners
unfoldable pub insert_owner : OwnerRow → Db → Result Db
insert_owner row db = do
  check_pubkey row.owner_pubkey
  ensure (is_none (select_owner row.org_id db)) unique_constraint
  ok (record db { owners = row ∷ db.owners })

-- INSERT INTO owner_events
unfoldable pub insert_event : EventRow → Db → Result Db
insert_event row db = do check_pubkey row.owner_pubkey; ok (record db { events = row ∷ db.events })

-- The assignments of the UPDATE, in one row.
abbrev pub set_owner : Bytes → ℕ → Bytes → OwnerRow → OwnerRow
set_owner pubkey version rotated_at row = record row {
  owner_pubkey = pubkey;
  version = version;
  rotated_at = some rotated_at;
}

unfoldable pub update_rows : Bytes → Bytes → ℕ → Bytes → List OwnerRow → List OwnerRow
update_rows org pubkey version rotated_at [] = []
update_rows org pubkey version rotated_at (row ∷ rows) =
    (if row.org_id == org then set_owner pubkey version rotated_at row else row)
    ∷ update_rows org pubkey version rotated_at rows

-- UPDATE owners SET owner_pubkey = ?2, version = ?3, rotated_at = ?4 WHERE org_id = ?1
unfoldable pub update_owner : Bytes → Bytes → ℕ → Bytes → Db → Result Db
unfolding update_rows
update_owner org pubkey version rotated_at db = do
  check_pubkey pubkey
  ok (record db { owners = update_rows org pubkey version rotated_at db.owners })
