-- ===== src/OwnerStore/Invariant.antt =====
-- The row of an organisation and its events, before and after the operations.
use mathlib.Core.Option
use policy_templates.Prelude.{
  ℕ, suc, ◌+◌, ◌%◌, ◌^◌, ◌<◌, ◌≡◌, refl, subst, Bytes, text, find, ◌==◌, ==_iff, true, Bool-cases,
  length, Option, none, some, List, [], ◌∷◌, inl, inr, arith,
}
use policy_templates.External.{External, TextLaws}
use policy_templates.OwnerStore.{Storage, bootstrap_owner, rotate_owner}
use policy_templates.OwnerStore.Table.{OwnerRow, EventRow, Db, empty, select_owner, set_owner}
use policy_templates.OwnerStore.Select.{events_of, find-update_rows}
use policy_templates.OwnerStore.Cases.{with_owner, with_next_owner, bootstrap_cases, rotate_cases}

-- The events, last first, have the versions n, .., 2, 1.
abbrev pub Numbered : List EventRow → Type 0
Numbered [] = Unit
Numbered (e ∷ events) = (e.version ≡ suc (length events)) × Numbered events

abbrev pub LastKey : Bytes → List EventRow → Type 0
LastKey key [] = ⊥
LastKey key (e ∷ events) = e.owner_pubkey ≡ key

abbrev pub Readable : External → Option Bytes → Type 0
Readable x none = Unit
Readable x (some raw) = (t : ℕ) × (x.parse_rfc3339 raw ≡ some t)

-- What VerifyingKey and the CHECK promise of a key.
abbrev pub IsKey : External → Bytes → Type 0
IsKey x key = (length key ≡ 32) × (x.valid_key key ≡ true)

pub record RowValid (x : External) (row : OwnerRow) (events : List EventRow) : Type 0 where
  pub key : IsKey x row.owner_pubkey
  pub version : row.version ≡ length events
  pub last : LastKey row.owner_pubkey events
  pub bootstrapped : Readable x (some row.bootstrapped_at)
  pub rotated : Readable x row.rotated_at

-- An organisation has a valid row with its events, or neither.
abbrev pub Agrees : External → Option OwnerRow → List EventRow → Type 0
Agrees x none events = events ≡ []
Agrees x (some row) events = RowValid x row events

pub record IsConsistent (x : External) (db : Db) : Type 0 where
  pub numbered : (k : Bytes) → Numbered (events_of k db.events)
  pub agrees : (k : Bytes) → Agrees x (select_owner k db) (events_of k db.events)

pub IsConsistent-empty : (x : External) → IsConsistent x empty
unfolding select_owner events_of
IsConsistent-empty x = record { numbered = λ k. tt; agrees = λ k. refl }

module _ (x : External) (laws : TextLaws x) {db : Db} (valid : IsConsistent x db) where
  with_owner-IsConsistent :
      (org key : Bytes) (now : ℕ)
      → IsKey x key
      → select_owner org db ≡ none
      → IsConsistent x (with_owner db org key (x.to_rfc3339 now))
  unfolding select_owner events_of
  with_owner-IsConsistent org key now isKey absent =
      let none_before : events_of org db.events ≡ [] =
        subst (λ o. Agrees x o (events_of org db.events)) absent (valid.agrees org) in
      record {
        numbered = λ k. elim (Bool-cases (org == k)) [
          | inl e ↦
              let unused =
                subst (λ j. events_of j db.events ≡ []) ((==_iff org k).0 e) none_before in
              rw (e, unused) (refl, tt)
          | inr e ↦ rw e (valid.numbered k)
        ];
        agrees = λ k. elim (Bool-cases (org == k)) [
          | inl e ↦
              let unused =
                subst (λ j. events_of j db.events ≡ []) ((==_iff org k).0 e) none_before in
              rw (e, unused)
                (record {
                  key = isKey;
                  version = refl;
                  last = refl;
                  bootstrapped = (now, laws.parse_rfc3339-to_rfc3339 now);
                  rotated = tt;
                })
          | inr e ↦ rw e (valid.agrees k)
        ];
      }

  with_next_owner-IsConsistent :
      (org key : Bytes) (now : ℕ) (row : OwnerRow)
      → IsKey x key
      → select_owner org db ≡ some row
      → length (events_of org db.events) + 1 < 2 ^ 64
      → IsConsistent x (with_next_owner db org key ((row.version + 1) % 2 ^ 64) (x.to_rfc3339 now))
  unfolding select_owner events_of
  with_next_owner-IsConsistent org key now row isKey found room =
      let before : RowValid x row (events_of org db.events) =
        subst (λ o. Agrees x o (events_of org db.events)) found (valid.agrees org) in
      let version = (row.version + 1) % 2 ^ 64 in
      let stamp = x.to_rfc3339 now in
      let Next : Bytes → Type 0 = λ j. version ≡ suc (length (events_of j db.events)) in
      let next : Next org = omega (arith, before.version) in
      let event : EventRow = record {
        org_id = org;
        version = version;
        event_type = text "rotation";
        owner_pubkey = key;
        occurred_at = stamp;
      } in
      let Updated : Bytes → Type 0 = λ j.
        Agrees x
          (Option.map (set_owner key version stamp)
            (find (λ (r : OwnerRow). r.org_id == j) db.owners))
          (event ∷ events_of j db.events) in
      let updated : RowValid x (set_owner key version stamp row) (event ∷ events_of org db.events) =
        record {
          key = isKey;
          version = next;
          last = refl;
          bootstrapped = before.bootstrapped;
          rotated = (now, laws.parse_rfc3339-to_rfc3339 now);
        } in
      record {
        numbered = λ k. elim (Bool-cases (org == k)) [
          | inl e ↦ rw e (
              subst (λ j. Next j × Numbered (events_of j db.events)) ((==_iff org k).0 e)
                (next, valid.numbered org))
          | inr e ↦ rw e (valid.numbered k)
        ];
        agrees = λ k.
            rw (find-update_rows org key version stamp k db.owners) (elim (Bool-cases (org == k)) [
              | inl e ↦ rw e (subst Updated ((==_iff org k).0 e) (rw found updated))
              | inr e ↦ rw e (valid.agrees k)
            ]);
      }

-- A bootstrap with a key of 32 valid bytes keeps every organisation's row and events in step,
-- whichever call of SQLite fails.
pub bootstrap_owner-IsConsistent :
    (x : External) (works : Storage) (db : Db) (org_id key : Bytes) (now : ℕ)
    → TextLaws x
    → IsConsistent x db
    → IsKey x key
    → IsConsistent x (bootstrap_owner x works db org_id key now).1
bootstrap_owner-IsConsistent x works db org_id key now laws valid isKey =
    elim (bootstrap_cases x works db org_id key now) [
      | inl same ↦ rw same valid
      | inr (absent, _, state) ↦
          rw state
            (with_owner-IsConsistent x laws valid (x.uuid_to_string org_id) key now isKey absent)
    ]

-- A rotation to a key of 32 valid bytes keeps every organisation's row and events in step, whichever
-- call of SQLite fails, if the organisation has fewer than 2^64 - 1 events.
pub rotate_owner-IsConsistent :
    (x : External) (works : Storage) (db : Db) (org_id expected replacement : Bytes) (now : ℕ)
    → TextLaws x
    → IsConsistent x db
    → IsKey x replacement
    → length (events_of (x.uuid_to_string org_id) db.events) + 1 < 2 ^ 64
    → IsConsistent x (rotate_owner x works db org_id expected replacement now).1
rotate_owner-IsConsistent x works db org_id expected replacement now laws valid isKey room =
    elim (rotate_cases x works db org_id expected replacement now) [
      | inl same ↦ rw same valid
      | inr (row, found, _, _, _, state) ↦ rw state (
          with_next_owner-IsConsistent x laws valid (x.uuid_to_string org_id) replacement now row
            isKey found room)
    ]
