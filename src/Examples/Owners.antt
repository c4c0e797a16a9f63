-- ===== src/Examples/Owners.antt =====
-- An organisation that is bootstrapped and rotated, with a failing call among the runs.
use policy_templates.Prelude.{
  ◌≡◌, ◌≢◌, refl, Bytes, ◌==◌, [], ◌∷◌, true, false, ok, arith, storage_failed, not_previous_owner,
}
use policy_templates.OwnerStore.{commit, Storage, bootstrap_owner, get_owner, rotate_owner}
use policy_templates.OwnerStore.Table.{
  Db, empty, select_owner, select_event, insert_owner, insert_event,
}
use policy_templates.OwnerStore.Select.{events_of}
use policy_templates.OwnerStore.Invariant.{
  IsConsistent, IsKey, IsConsistent-empty, bootstrap_owner-IsConsistent, rotate_owner-IsConsistent,
}
use policy_templates.OwnerStore.Atomic.{bootstrap_owner_atomic, rotate_owner_atomic}
use policy_templates.OwnerStore.Refine.{history, spec_bootstrap, AllWorks, bootstrap_owner_refines}
use policy_templates.OwnerStore.Read.{spec_owner, found_of, get_owner_refines}
use policy_templates.OwnerStore.Rotate.{spec_rotate, summary, rotate_owner_refines}
use policy_templates.Examples.Toy.{toy, toy-TextLaws}

abbrev org_id : Bytes
org_id = 5 ∷ []

abbrev key1 : Bytes
key1 = toy.verifying_key (1 ∷ [])

abbrev key2 : Bytes
key2 = toy.verifying_key (2 ∷ [])

abbrev always : Storage
always s = true

-- The commit fails.
abbrev no_commit : Storage
no_commit commit = false
no_commit s = true

always-AllWorks : AllWorks always
always-AllWorks s = refl

key1-IsKey : IsKey toy key1
key1-IsKey = (refl, refl)

key2-IsKey : IsKey toy key2
key2-IsKey = (refl, refl)

-- Bootstrapped with the first key.
abbrev owned : Db
owned = (bootstrap_owner toy always empty org_id key1 3).1

bootstrap_owner-IsConsistent_example : IsConsistent toy owned
bootstrap_owner-IsConsistent_example =
    bootstrap_owner-IsConsistent toy always empty org_id key1 3 toy-TextLaws
      (IsConsistent-empty toy) key1-IsKey

rotate_owner-IsConsistent_example :
    IsConsistent toy (rotate_owner toy always owned org_id key1 key2 4).1
unfolding bootstrap_owner events_of select_owner insert_owner insert_event ◌==◌
rotate_owner-IsConsistent_example =
    rotate_owner-IsConsistent toy always owned org_id key1 key2 4 toy-TextLaws
      bootstrap_owner-IsConsistent_example key2-IsKey (omega arith)

bootstrap_owner_atomic_example : (bootstrap_owner toy no_commit empty org_id key1 3).1 ≡ empty
unfolding bootstrap_owner events_of select_owner insert_owner insert_event ◌==◌
bootstrap_owner_atomic_example =
    bootstrap_owner_atomic toy no_commit empty org_id key1 3 storage_failed refl

rotate_owner_atomic_example : (rotate_owner toy always owned org_id key2 key1 4).1 ≡ owned
unfolding bootstrap_owner rotate_owner events_of select_owner insert_owner insert_event select_event
    ◌==◌
rotate_owner_atomic_example =
    rotate_owner_atomic toy always owned org_id key2 key1 4 not_previous_owner
      bootstrap_owner-IsConsistent_example (omega arith) refl

bootstrap_owner_refines_example :
    let reply = bootstrap_owner toy always owned org_id key2 4 in
    (reply.0 ≡ (spec_bootstrap key2 (history toy owned org_id)).0)
    × (history toy reply.1 org_id ≡ (spec_bootstrap key2 (history toy owned org_id)).1)
    × ((other : Bytes) → other ≢ org_id → history toy reply.1 other ≡ history toy owned other)
bootstrap_owner_refines_example =
    bootstrap_owner_refines toy always owned org_id key2 4 always-AllWorks toy-TextLaws
      bootstrap_owner-IsConsistent_example key2-IsKey

get_owner_refines_example :
    found_of (get_owner toy always owned org_id) ≡ ok (spec_owner org_id (history toy owned org_id))
unfolding bootstrap_owner events_of select_owner insert_owner insert_event ◌==◌
get_owner_refines_example =
    get_owner_refines toy always owned org_id always-AllWorks toy-TextLaws
      bootstrap_owner-IsConsistent_example (omega arith)

rotate_owner_refines_example :
    let reply = rotate_owner toy always owned org_id key1 key2 4 in
    let spec = spec_rotate key1 key2 (history toy owned org_id) in
    (summary reply.0 ≡ spec.0)
    × (history toy reply.1 org_id ≡ spec.1)
    × ((other : Bytes) → other ≢ org_id → history toy reply.1 other ≡ history toy owned other)
unfolding bootstrap_owner events_of select_owner insert_owner insert_event ◌==◌
rotate_owner_refines_example =
    rotate_owner_refines toy always owned org_id key1 key2 4 always-AllWorks toy-TextLaws
      bootstrap_owner-IsConsistent_example key2-IsKey (omega arith)
