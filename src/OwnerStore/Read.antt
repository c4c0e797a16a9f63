-- ===== src/OwnerStore/Read.antt =====
-- `get_owner` and the registry's entry for an organisation.
use policy_templates.Prelude.{
  ℕ, suc, ◌^◌, ◌<◌, ◌≡◌, refl, subst, Bytes, lt→ltb, length, length-map, Option-cases, Option, none,
  some, List, [], ◌∷◌, Result, ok, err, inl, inr, arith,
}
use policy_templates.External.{External, TextLaws}
use policy_templates.OwnerStore.{
  Storage, connect, select, get_owner, OwnerRecord, read_found, parse_rotated,
}
use policy_templates.OwnerStore.Table.{OwnerRow, EventRow, Db, select_owner}
use policy_templates.OwnerStore.Select.{events_of, select_owner_key}
use policy_templates.OwnerStore.Invariant.{IsConsistent, Agrees, RowValid, Readable}
use policy_templates.OwnerStore.Refine.{keys, history, AllWorks, last_event}

-- The organisation, its current key and the number of its keys.
abbrev pub spec_owner : Bytes → List Bytes → Option (Bytes × Bytes × ℕ)
spec_owner org_id [] = none
spec_owner org_id (current ∷ earlier) = some (org_id, current, suc (length earlier))

abbrev pub found_of : Result (Option OwnerRecord) → Result (Option (Bytes × Bytes × ℕ))
found_of (ok none) = ok none
found_of (ok (some r)) = ok (some (r.org_id, r.owner_pubkey, r.version))
found_of (err e) = err e

pub rotated-Readable :
    (x : External) (raw : Option Bytes)
    → Readable x raw
    → (t : Option ℕ) × (parse_rotated x raw ≡ ok t)
unfolding parse_rotated
rotated-Readable x none h = (none, refl)
rotated-Readable x (some raw) (t, e) = (some t, rw e refl)

read_row :
    (x : External) (org_id : Bytes) (row : OwnerRow) (e : EventRow) (rest : List EventRow)
    → x.uuid_parse row.org_id ≡ some org_id
    → RowValid x row (e ∷ rest)
    → length (e ∷ rest) < 2 ^ 63
    → found_of (read_found x (some row)) ≡ ok (spec_owner org_id (keys (e ∷ rest)))
unfolding read_found
read_row x org_id row e rest org valid room =
    let (t, parsed) = rotated-Readable x row.rotated_at valid.rotated in
    ground (
      arith,
      parsed,
      org,
      valid.bootstrapped.1,
      valid.version,
      valid.last,
      valid.key.0,
      valid.key.1,
      lt→ltb row.version (2 ^ 63),
      length-map (λ (f : EventRow). f.owner_pubkey) rest,
    )

-- With no failure of SQLite and a consistent database with fewer than 2^63 events of the
-- organisation, `get_owner` finds nothing for an organisation without keys, and otherwise the last
-- key with the number of keys as its version.
pub get_owner_refines :
    (x : External) (works : Storage) (db : Db) (org_id : Bytes)
    → AllWorks works
    → TextLaws x
    → IsConsistent x db
    → length (events_of (x.uuid_to_string org_id) db.events) < 2 ^ 63
    → found_of (get_owner x works db org_id) ≡ ok (spec_owner org_id (history x db org_id))
unfolding get_owner history
get_owner_refines x works db org_id all laws valid room =
    let org = x.uuid_to_string org_id in
    elim (Option-cases (select_owner org db)) [
      | inl absent ↦
          let unused =
            subst (λ o. Agrees x o (events_of org db.events)) absent (valid.agrees org) in
          rw (all connect, all select, absent, unused) refl
      | inr (row, found) ↦
          let before = subst (λ o. Agrees x o (events_of org db.events)) found (valid.agrees org) in
          let (e, rest, events, last) = last_event row (events_of org db.events) before in
          rw (all connect, all select, found, events)
            (read_row x org_id row e rest
              (rw (select_owner_key org db row found) (laws.uuid_parse-uuid_to_string org_id))
              (rw events at before) (rw events at room))
    ]
