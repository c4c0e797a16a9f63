-- ===== src/OwnerStore/Select.antt =====
-- What the queries find after the statements that write.
use mathlib.Core.Option
use policy_templates.Prelude.{
  ℕ, ◌≡◌, refl, Bytes, ◌==◌, ==_iff, ==_sound, find-some, eqb, ◌&&◌, find, some, List, [], ◌∷◌,
  if◌then◌else◌, arith,
}
use policy_templates.OwnerStore.Table.{OwnerRow, EventRow, Db, select_owner, set_owner, update_rows}

-- The events of one organisation.
unfoldable pub events_of : Bytes → List EventRow → List EventRow
events_of org [] = []
events_of org (e ∷ events) =
    let rest = events_of org events in if e.org_id == org then e ∷ rest else rest

module _ (org pubkey : Bytes) (version : ℕ) (rotated_at k : Bytes) where
  pub find-update_rows :
      (rows : List OwnerRow)
      → find (λ (row : OwnerRow). row.org_id == k) (update_rows org pubkey version rotated_at rows)
        ≡ (if org == k
            then Option.map
                (set_owner pubkey version rotated_at)
                (find (λ (row : OwnerRow). row.org_id == k) rows)
            else find (λ (row : OwnerRow). row.org_id == k) rows)
  unfolding update_rows
  find-update_rows [] = ground arith
  find-update_rows (row ∷ rows) =
      ground
        (arith, ==_iff org k, ==_iff row.org_id org, ==_iff row.org_id k, find-update_rows rows)

-- The query for an event looks among the organisation's own events only.
pub select_event_own :
    (org : Bytes) (version : ℕ) (events : List EventRow)
    → find (λ (e : EventRow). e.org_id == org && eqb e.version version) events
      ≡ find (λ (e : EventRow). eqb e.version version) (events_of org events)
unfolding events_of
select_event_own org version [] = refl
select_event_own org version (e ∷ events) = ground (arith, select_event_own org version events)

-- The row that is found has the key that was asked for.
pub select_owner_key :
    (org : Bytes) (db : Db) (row : OwnerRow) → select_owner org db ≡ some row → row.org_id ≡ org
unfolding select_owner
select_owner_key org db row h =
    ==_sound row.org_id org (find-some (λ r. r.org_id == org) db.owners row h).0
