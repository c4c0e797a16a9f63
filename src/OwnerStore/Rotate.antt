-- ===== src/OwnerStore/Rotate.antt =====
-- Rotation as an operation of the registry: the list of an organisation's keys, the last first.
use policy_templates.Prelude.{
  ℕ, suc, ◌+◌, ◌-◌, ◌%◌, ◌^◌, ◌<◌, ◌≡◌, ◌≢◌, refl, subst, Bytes, find, eqb, lt→ltb, ◌==◌, ==_iff,
  ==_refl, Bool, false, not, ◌&&◌, Option-cases, length, length-map, none, some, List, [], ◌∷◌,
  Result, ok, err, inl, inr, if◌then◌else◌, arith, not_bootstrapped, not_previous_owner,
  not_current_owner, replacement_must_differ,
}
use policy_templates.External.{External, TextLaws}
use policy_templates.OwnerStore.{
  Storage, connect, begin, select, select_previous, update, log_event, commit, rotate_owner,
  rotated_record, is_owner_of, rotate_with, transaction, OwnerRecord,
}
use policy_templates.OwnerStore.Table.{
  OwnerRow, EventRow, Db, select_owner, select_event, update_owner, insert_event,
}
use policy_templates.OwnerStore.Select.{events_of, select_event_own}
use policy_templates.OwnerStore.Cases.{rotate_cases}
use policy_templates.OwnerStore.Invariant.{IsConsistent, Agrees, RowValid, IsKey, Numbered}
use policy_templates.OwnerStore.Refine.{keys, history, AllWorks, last_event, uuid_ne}
use policy_templates.OwnerStore.Read.{rotated-Readable}

-- The key before the current one.
abbrev is_first : Bytes → List Bytes → Bool
is_first key [] = false
is_first key (k ∷ ks) = k == key

-- The answer is the current key and the number of keys there have been.
abbrev pub spec_rotate : Bytes → Bytes → List Bytes → Result (Bytes × ℕ) × List Bytes
spec_rotate expected replacement [] = (err not_bootstrapped, [])
spec_rotate expected replacement (current ∷ earlier) =
    let kept = current ∷ earlier in
    if current == replacement && not (expected == replacement)
    then (
      if is_first expected earlier then ok (replacement, length kept) else err not_previous_owner,
      kept,
    )
    else if not (current == expected)
    then (err not_current_owner, kept)
    else if replacement == expected
    then (err replacement_must_differ, kept)
    else (ok (replacement, suc (length kept)), replacement ∷ kept)

abbrev pub summary : Result OwnerRecord → Result (Bytes × ℕ)
summary (ok r) = ok (r.owner_pubkey, r.version)
summary (err e) = err e

-- The event with the version before the last.
find_previous :
    (e : EventRow) (rest : List EventRow) (version : ℕ)
    → Numbered (e ∷ rest)
    → version ≡ length (e ∷ rest)
    → version < 2 ^ 63
    → (expected : Bytes)
    → is_owner_of expected
        (find (λ (f : EventRow). eqb f.version ((version + 2 ^ 64 - 1) % 2 ^ 64)) (e ∷ rest))
      ≡ is_first expected (keys rest)
unfolding is_owner_of
find_previous e [] version n v small expected = ground arith
find_previous e (f ∷ rest) version n v small expected = ground arith

module _ (x : External) (works : Storage) (db : Db) (org_id expected replacement : Bytes) (now : ℕ)
    (all : AllWorks works) (isKey : IsKey x replacement) (row : OwnerRow) (e : EventRow)
    (rest : List EventRow) where
  rotate_row_refines :
      events_of (x.uuid_to_string org_id) db.events ≡ e ∷ rest
      → e.owner_pubkey ≡ row.owner_pubkey
      → RowValid x row (e ∷ rest)
      → Numbered (e ∷ rest)
      → length (e ∷ rest) + 1 < 2 ^ 63
      → let reply =
          transaction db (rotate_with x works db org_id expected replacement now (some row)) in
        let spec = spec_rotate expected replacement (e.owner_pubkey ∷ keys rest) in
        (summary reply.0 ≡ spec.0)
        × (keys (events_of (x.uuid_to_string org_id) reply.1.events) ≡ spec.1)
  unfolding rotate_with rotated_record update_owner insert_event select_event events_of
  rotate_row_refines events last valid numbered room =
      let org = x.uuid_to_string org_id in
      let (t, parsed) = rotated-Readable x row.rotated_at valid.rotated in
      let length_keys : length (keys rest) ≡ length rest =
        length-map (λ (e : EventRow). e.owner_pubkey) rest in
      ground (
        arith,
        parsed,
        valid.bootstrapped.1,
        valid.version,
        length_keys,
        events,
        last,
        all select_previous,
        all update,
        all log_event,
        all commit,
        ==_refl org,
        lt→ltb row.version (2 ^ 63),
        lt→ltb ((row.version + 1) % 2 ^ 64) (2 ^ 63),
        select_event_own org ((row.version + 2 ^ 64 - 1) % 2 ^ 64) db.events,
        find_previous e rest row.version numbered valid.version (omega (arith, valid.version))
            expected,
        ==_iff row.owner_pubkey expected,
        ==_iff replacement expected,
        ==_iff row.owner_pubkey replacement,
        ==_iff expected replacement,
      )

  rotate_history_found :
      IsConsistent x db
      → select_owner (x.uuid_to_string org_id) db ≡ some row
      → events_of (x.uuid_to_string org_id) db.events ≡ e ∷ rest
      → e.owner_pubkey ≡ row.owner_pubkey
      → length (e ∷ rest) + 1 < 2 ^ 63
      → let reply = rotate_owner x works db org_id expected replacement now in
        let spec = spec_rotate expected replacement (history x db org_id) in
        (summary reply.0 ≡ spec.0) × (history x reply.1 org_id ≡ spec.1)
  unfolding rotate_owner history
  rotate_history_found valid found events last room =
      let org = x.uuid_to_string org_id in
      rw (all connect, all begin, all select, found, events)
        (rotate_row_refines events last
          (rw events at
            (subst (λ o. Agrees x o (events_of org db.events)) found (valid.agrees org)))
          (rw events at (valid.numbered org)) room)

module _ (x : External) (works : Storage) (db : Db) (org_id expected replacement : Bytes)
    (now : ℕ) where
  rotate_history_absent :
      AllWorks works
      → IsConsistent x db
      → select_owner (x.uuid_to_string org_id) db ≡ none
      → let reply = rotate_owner x works db org_id expected replacement now in
        let spec = spec_rotate expected replacement (history x db org_id) in
        (summary reply.0 ≡ spec.0) × (history x reply.1 org_id ≡ spec.1)
  unfolding rotate_owner history
  rotate_history_absent all valid absent =
      let org = x.uuid_to_string org_id in
      let unused = subst (λ o. Agrees x o (events_of org db.events)) absent (valid.agrees org) in
      rw (all connect, all begin, all select, absent, unused) (refl, refl)

  rotate_elsewhere :
      (other : Bytes)
      → TextLaws x
      → other ≢ org_id
      → history x (rotate_owner x works db org_id expected replacement now).1 other
        ≡ history x db other
  unfolding history events_of
  rotate_elsewhere other laws differs =
      elim (rotate_cases x works db org_id expected replacement now) [
        | inl same ↦ rw same
        | inr (_, _, _, _, _, state) ↦
            rw (state, events_of) (rw (uuid_ne laws other org_id differs) refl)
      ]

-- With no failure of SQLite, a consistent database and fewer than 2^63 - 1 events of the
-- organisation, a rotation to a valid key answers as the registry does (errors, and the key and
-- version of a success) and leaves the registry's list of keys; other organisations keep theirs.
pub rotate_owner_refines :
    (x : External) (works : Storage) (db : Db) (org_id expected replacement : Bytes) (now : ℕ)
    → AllWorks works
    → TextLaws x
    → IsConsistent x db
    → IsKey x replacement
    → length (events_of (x.uuid_to_string org_id) db.events) + 1 < 2 ^ 63
    → let reply = rotate_owner x works db org_id expected replacement now in
      let spec = spec_rotate expected replacement (history x db org_id) in
      (summary reply.0 ≡ spec.0)
      × (history x reply.1 org_id ≡ spec.1)
      × ((other : Bytes) → other ≢ org_id → history x reply.1 other ≡ history x db other)
rotate_owner_refines x works db org_id expected replacement now all laws valid isKey room =
    let org = x.uuid_to_string org_id in
    let elsewhere = λ (other : Bytes) (differs : other ≢ org_id).
      rotate_elsewhere x works db org_id expected replacement now other laws differs in
    elim (Option-cases (select_owner org db)) [
      | inl absent ↦
          let (reply, here) =
            rotate_history_absent x works db org_id expected replacement now all valid absent in
          (reply, here, elsewhere)
      | inr (row, found) ↦
          let before = subst (λ o. Agrees x o (events_of org db.events)) found (valid.agrees org) in
          let (e, rest, events, last) = last_event row (events_of org db.events) before in
          let (reply, here) =
            rotate_history_found x works db org_id expected replacement now all isKey row e rest
              valid found events last (rw events at room) in
          (reply, here, elsewhere)
    ]
