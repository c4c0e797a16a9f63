-- ===== src/Genpolicy/Normalize/Stable.antt =====
-- A pass over the text that is made again.
use policy_templates.Prelude.{
  ℕ, [], ◌≡◌, refl, Bytes, text, lines, contains, contains-middle, replace, find_str, take, drop,
  true, false, ◌∷◌, none, some, Option, inl, inr, Bool-cases, Bool, if◌then◌else◌, ◌||◌, not, ◌&&◌,
}
use policy_templates.Genpolicy.Rego.{
  pidns_check, pidns_allow, pidns_helpers, rootfs_precheck, rootfs_allow, rootfs_helper,
  mount_options_check, mount_options_allow, storage_fs_group_check, storage_fs_group_allow,
  storage_options_check, storage_options_allow, storage_helpers, sandbox_storage_check,
  sandbox_storage_allow, sandbox_storage_helpers, storage_count_check, storage_count_allow,
  extra_storage_helpers,
}
use policy_templates.Genpolicy.Normalize.Text.{
  insert_after, index_after, insert_at, insert_policy_helper, normalize_cap_sandbox_pidns,
  normalize_rootfs_propagation, normalize_cap_storage_mounts, normalize_cap_sandbox_storages,
  normalize_cap_extra_storages,
}

-- The helper stands in the text that it was put into.
contains-insert_at :
    (marker policy helper : Bytes) (place : Option ℕ)
    → contains marker helper ≡ true
    → contains marker (insert_at place policy helper) ≡ true
contains-insert_at marker policy helper none h = contains-middle marker [] helper (10 ∷ policy) h
contains-insert_at marker policy helper (some i) h =
    contains-middle marker (take i policy) helper (drop i policy) h

contains-insert_policy_helper :
    (marker policy helper : Bytes)
    → contains marker helper ≡ true
    → contains marker (insert_policy_helper policy helper) ≡ true
unfolding insert_policy_helper
contains-insert_policy_helper marker policy helper h = contains-insert_at marker policy helper _ h

marked_pidns : contains (text "allow_cap_sandbox_pidns") pidns_helpers ≡ true
unfolding contains text lines pidns_helpers
marked_pidns = refl

marked_rootfs : contains (text "allow_cap_rootfs_propagation") rootfs_helper ≡ true
unfolding contains text lines rootfs_helper
marked_rootfs = refl

marked_storage : contains (text "allow_cap_mount_options") storage_helpers ≡ true
unfolding contains text lines storage_helpers
marked_storage = refl

marked_sandbox : contains (text "allow_cap_sandbox_storage") sandbox_storage_helpers ≡ true
unfolding contains text lines sandbox_storage_helpers
marked_sandbox = refl

marked_extra : contains (text "allow_cap_extra_storage") extra_storage_helpers ≡ true
unfolding contains text lines extra_storage_helpers
marked_extra = refl

-- A change after which nothing is left to do.
module _ (skip : Bytes → Bool) (change : Bytes → Bytes) where
  abbrev pass : Bytes → Bytes
  pass p = if skip p then p else change p

  pass_twice : ((p : Bytes) → skip (change p) ≡ true) → (p : Bytes) → pass (pass p) ≡ pass p
  pass_twice settled p = elim (Bool-cases (skip p)) [
    | inl e ↦ rw (e, e) refl
    | inr e ↦ rw (e, settled p) refl
  ]

or_left : (a b : Bool) → a ≡ true → (a || b) ≡ true
or_left a b h = rw h refl

or_right : (a b : Bool) → b ≡ true → (a || b) ≡ true
or_right true b h = refl
or_right false b h = h

-- A pass that looks for the marker of its helper first.
module _ (marker helper : Bytes) (marked : contains marker helper ≡ true) (unused : Bytes → Bool)
    (change : Bytes → Bytes) where
  helper_twice :
      (p : Bytes)
      → pass
          (λ q. contains marker q || unused q)
          (λ q. insert_policy_helper (change q) helper)
          (pass
            (λ q. contains marker q || unused q)
            (λ q. insert_policy_helper (change q) helper)
            p)
        ≡ pass (λ q. contains marker q || unused q) (λ q. insert_policy_helper (change q) helper) p
  helper_twice =
      pass_twice (λ q. contains marker q || unused q) (λ q. insert_policy_helper (change q) helper)
        (λ q.
          or_left (contains marker (insert_policy_helper (change q) helper)) _
            (contains-insert_policy_helper marker (change q) helper marked))

-- Each of the five passes over the rules, made a second time, changes nothing.
pub passes_twice :
    (p : Bytes)
    → (normalize_cap_sandbox_pidns (normalize_cap_sandbox_pidns p) ≡ normalize_cap_sandbox_pidns p)
      × (normalize_rootfs_propagation (normalize_rootfs_propagation p)
          ≡ normalize_rootfs_propagation p)
      × (normalize_cap_storage_mounts (normalize_cap_storage_mounts p)
          ≡ normalize_cap_storage_mounts p)
      × (normalize_cap_sandbox_storages (normalize_cap_sandbox_storages p)
          ≡ normalize_cap_sandbox_storages p)
      × (normalize_cap_extra_storages (normalize_cap_extra_storages p)
          ≡ normalize_cap_extra_storages p)
unfolding normalize_cap_sandbox_pidns normalize_rootfs_propagation normalize_cap_storage_mounts
    normalize_cap_sandbox_storages normalize_cap_extra_storages
passes_twice p = (
  helper_twice (text "allow_cap_sandbox_pidns") pidns_helpers marked_pidns
      (λ q. not (contains pidns_check q)) (λ q. replace q pidns_check pidns_allow) p,
  pass_twice
      (λ q. not (contains rootfs_precheck q) || contains (text "allow_cap_rootfs_propagation") q)
      (λ q.
        let with_allow = replace q rootfs_precheck rootfs_allow in
        insert_at (index_after insert_after (find_str insert_after with_allow)) with_allow
          rootfs_helper)
      (λ q. or_right _ _ (
        contains-insert_at (text "allow_cap_rootfs_propagation")
          (replace q rootfs_precheck rootfs_allow) rootfs_helper
          (index_after insert_after
            (find_str insert_after (replace q rootfs_precheck rootfs_allow)))
          marked_rootfs))
      p,
  helper_twice (text "allow_cap_mount_options") storage_helpers marked_storage
      (λ q.
        not (contains mount_options_check q)
        && (not (contains storage_fs_group_check q) && not (contains storage_options_check q)))
      (λ q.
        let mounts = replace q mount_options_check mount_options_allow in
        let groups = replace mounts storage_fs_group_check storage_fs_group_allow in
        replace groups storage_options_check storage_options_allow)
      p,
  helper_twice (text "allow_cap_sandbox_storage") sandbox_storage_helpers marked_sandbox
      (λ q. not (contains sandbox_storage_check q))
      (λ q. replace q sandbox_storage_check sandbox_storage_allow) p,
  helper_twice (text "allow_cap_extra_storage") extra_storage_helpers marked_extra
      (λ q. not (contains storage_count_check q))
      (λ q. replace q storage_count_check storage_count_allow) p,
)
