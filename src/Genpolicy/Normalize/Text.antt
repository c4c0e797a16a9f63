-- ===== src/Genpolicy/Normalize/Text.antt =====
-- The textual passes over the rules of a generated policy: `normalize_cap_generated_policy` and what
-- it calls.
use policy_templates.Prelude.{
  ℕ, ◌+◌, Bytes, text, lines, contains, replace, find_str, take, drop, length, not, ◌&&◌, ◌||◌,
  Option, none, some, [], ◌∷◌, ◌++◌, if◌then◌else◌,
}
use policy_templates.Genpolicy.Rego.{
  pidns_check, pidns_allow, pidns_helpers, rootfs_precheck, rootfs_allow, rootfs_helper,
  mount_options_check, mount_options_allow, storage_fs_group_check, storage_fs_group_allow,
  storage_options_check, storage_options_allow, storage_helpers, sandbox_storage_check,
  sandbox_storage_allow, sandbox_storage_helpers, storage_count_check, storage_count_allow,
  extra_storage_helpers,
}

unfoldable pub insert_after : Bytes
insert_after = lines ("default AllowRequestsFailingPolicy := false" ∷ [])

-- The text with the helper at an index, or in front with a line feed.
abbrev pub insert_at : Option ℕ → Bytes → Bytes → Bytes
insert_at (some index) policy helper = take index policy ++ (helper ++ drop index policy)
insert_at none policy helper = helper ++ (10 ∷ policy)

abbrev pub index_after : Bytes → Option ℕ → Option ℕ
index_after needle none = none
index_after needle (some index) = some (index + length needle)

unfoldable pub insert_policy_helper : Bytes → Bytes → Bytes
insert_policy_helper policy helper =
    insert_at (index_after insert_after (find_str insert_after policy)) policy helper

unfoldable pub normalize_cap_sandbox_pidns : Bytes → Bytes
normalize_cap_sandbox_pidns policy =
    if contains (text "allow_cap_sandbox_pidns") policy || not (contains pidns_check policy)
    then policy
    else insert_policy_helper (replace policy pidns_check pidns_allow) pidns_helpers

-- The insertion is written out in this pass.
unfoldable pub normalize_rootfs_propagation : Bytes → Bytes
normalize_rootfs_propagation policy =
    if not (contains rootfs_precheck policy)
      || contains (text "allow_cap_rootfs_propagation") policy
    then policy
    else let with_allow = replace policy rootfs_precheck rootfs_allow in
      insert_at (index_after insert_after (find_str insert_after with_allow)) with_allow
        rootfs_helper

unfoldable pub normalize_cap_storage_mounts : Bytes → Bytes
normalize_cap_storage_mounts policy =
    if contains (text "allow_cap_mount_options") policy
      || (not (contains mount_options_check policy)
          && (not (contains storage_fs_group_check policy)
              && not (contains storage_options_check policy)))
    then policy
    else let mounts = replace policy mount_options_check mount_options_allow in
      let groups = replace mounts storage_fs_group_check storage_fs_group_allow in
      insert_policy_helper (replace groups storage_options_check storage_options_allow)
        storage_helpers

unfoldable pub normalize_cap_sandbox_storages : Bytes → Bytes
normalize_cap_sandbox_storages policy =
    if contains (text "allow_cap_sandbox_storage") policy
      || not (contains sandbox_storage_check policy)
    then policy
    else insert_policy_helper (replace policy sandbox_storage_check sandbox_storage_allow)
        sandbox_storage_helpers

unfoldable pub normalize_cap_extra_storages : Bytes → Bytes
normalize_cap_extra_storages policy =
    if contains (text "allow_cap_extra_storage") policy || not (contains storage_count_check policy)
    then policy
    else insert_policy_helper (replace policy storage_count_check storage_count_allow)
        extra_storage_helpers

unfoldable pub normalize_privileged_caps_placeholder : Bytes → Bytes
normalize_privileged_caps_placeholder policy =
    replace policy (text "\"CAP_$(privileged_caps)\"") (text "\"$(privileged_caps)\"")

unfoldable pub volume_layout : Bytes
volume_layout = lines ("# enclava-cap-volume-layout: guest-memory-v2" ∷ [])

unfoldable pub normalize_cap_generated_policy : Bytes → Bytes
normalize_cap_generated_policy policy =
    volume_layout
    ++ normalize_privileged_caps_placeholder (
        normalize_cap_extra_storages (
          normalize_cap_sandbox_storages (
            normalize_cap_storage_mounts
              (normalize_rootfs_propagation (normalize_cap_sandbox_pidns policy)))))
