-- ===== src/Genpolicy/Rego.antt =====
-- The Rego text that the normalisation of a generated policy looks for and puts in.
use policy_templates.Prelude.{Bytes, lines, [], ◌∷◌}

unfoldable pub pidns_check : Bytes
pidns_check = lines ("    p_pidns == i_pidns" ∷ [])

unfoldable pub pidns_allow : Bytes
pidns_allow = lines ("    allow_cap_sandbox_pidns(p_container, p_pidns, i_pidns)" ∷ [])

unfoldable pub pidns_helpers : Bytes
pidns_helpers = lines (
    "" ∷ "allow_cap_sandbox_pidns(_p_container, p_pidns, i_pidns) if {" ∷ "    p_pidns == i_pidns"
    ∷ "}" ∷ "" ∷ "allow_cap_sandbox_pidns(p_container, _p_pidns, i_pidns) if {"
    ∷ "    p_container.OCI.Annotations[\"io.kubernetes.cri.container-type\"] == \"sandbox\""
    ∷ "    i_pidns == false" ∷ "}" ∷ [])

unfoldable pub rootfs_precheck : Bytes
rootfs_precheck = lines ("    count(i_linux.RootfsPropagation) == 0" ∷ [])

unfoldable pub rootfs_allow : Bytes
rootfs_allow = lines ("    allow_cap_rootfs_propagation(i_linux.RootfsPropagation)" ∷ [])

unfoldable pub rootfs_helper : Bytes
rootfs_helper = lines (
    "" ∷ "allow_cap_rootfs_propagation(rootfs_propagation) if {"
    ∷ "    count(rootfs_propagation) == 0" ∷ "}" ∷ ""
    ∷ "allow_cap_rootfs_propagation(rootfs_propagation) if {"
    ∷ "    rootfs_propagation == \"rshared\"" ∷ "}" ∷ ""
    ∷ "allow_cap_rootfs_propagation(rootfs_propagation) if {"
    ∷ "    rootfs_propagation == \"rslave\"" ∷ "}" ∷ [])

unfoldable pub mount_options_check : Bytes
mount_options_check = lines ("    p_mount.options == i_mount.options" ∷ [])

unfoldable pub mount_options_allow : Bytes
mount_options_allow = lines ("    allow_cap_mount_options(p_mount, i_mount)" ∷ [])

unfoldable pub storage_fs_group_check : Bytes
storage_fs_group_check = lines ("    p_storage.fs_group       == i_storage.fs_group" ∷ [])

unfoldable pub storage_fs_group_allow : Bytes
storage_fs_group_allow = lines ("    allow_cap_storage_fs_group(p_storage, i_storage)" ∷ [])

unfoldable pub storage_options_check : Bytes
storage_options_check = lines ("    p_storage.options == i_storage.options" ∷ [])

unfoldable pub storage_options_allow : Bytes
storage_options_allow = lines ("    allow_cap_storage_options(p_storage, i_storage)" ∷ [])

unfoldable pub storage_helpers : Bytes
storage_helpers = lines (
    "" ∷ "allow_cap_mount_options(p_mount, i_mount) if {" ∷ "    p_mount.options == i_mount.options"
    ∷ "}" ∷ "" ∷ "allow_cap_mount_options(p_mount, i_mount) if {" ∷ "    p_mount.type_ == \"bind\""
    ∷ "    p_mount.source == \"\"" ∷ "    p_mount.options == [\"rbind\", \"rprivate\", \"rw\"]"
    ∷ "    i_mount.options == [\"rbind\", \"rslave\", \"rw\"]" ∷ "}" ∷ ""
    ∷ "allow_cap_mount_options(p_mount, i_mount) if {" ∷ "    p_mount.type_ == \"bind\""
    ∷ "    p_mount.source == \"\"" ∷ "    p_mount.options == [\"rbind\", \"rprivate\", \"ro\"]"
    ∷ "    i_mount.options == [\"rbind\", \"rslave\", \"ro\"]" ∷ "}" ∷ ""
    ∷ "allow_cap_mount_options(p_mount, i_mount) if {" ∷ "    p_mount.type_ == \"bind\""
    ∷ "    p_mount.source == \"\"" ∷ "    p_mount.options == [\"rbind\", \"rprivate\", \"rw\"]"
    ∷ "    i_mount.options == [\"rbind\", \"rshared\", \"rw\"]" ∷ "}" ∷ ""
    ∷ "allow_cap_storage_fs_group(p_storage, i_storage) if {"
    ∷ "    p_storage.fs_group == i_storage.fs_group" ∷ "}" ∷ ""
    ∷ "allow_cap_storage_fs_group(p_storage, i_storage) if {" ∷ "    p_storage.fs_group == null"
    ∷ "    p_storage.options == [\"fsgid=10001\"]" ∷ "    i_storage.options == []"
    ∷ "    i_storage.fs_group.group_change_policy == 0" ∷ "    i_storage.fs_group.group_id == 10001"
    ∷ "}" ∷ "" ∷ "allow_cap_storage_options(p_storage, i_storage) if {"
    ∷ "    p_storage.options == i_storage.options" ∷ "}" ∷ ""
    ∷ "allow_cap_storage_options(p_storage, i_storage) if {" ∷ "    p_storage.fs_group == null"
    ∷ "    p_storage.options == [\"fsgid=10001\"]" ∷ "    i_storage.options == []"
    ∷ "    i_storage.fs_group.group_change_policy == 0" ∷ "    i_storage.fs_group.group_id == 10001"
    ∷ "}" ∷ [])

unfoldable pub sandbox_storage_check : Bytes
sandbox_storage_check = lines ("    i_storage == p_storage" ∷ [])

unfoldable pub sandbox_storage_allow : Bytes
sandbox_storage_allow = lines ("    allow_cap_sandbox_storage(p_storage, i_storage)" ∷ [])

unfoldable pub sandbox_storage_helpers : Bytes
sandbox_storage_helpers = lines (
    "" ∷ "allow_cap_sandbox_storage(p_storage, i_storage) if {" ∷ "    i_storage == p_storage" ∷ "}"
    ∷ "" ∷ "allow_cap_sandbox_storage(_p_storage, i_storage) if {"
    ∷ "    i_storage.driver == \"9p\"" ∷ "    i_storage.driver_options == []"
    ∷ "    i_storage.fs_group == null" ∷ "    i_storage.fstype == \"9p\""
    ∷ "    i_storage.mount_point == \"/run/kata-containers/shared/containers/\""
    ∷ "    count(i_storage.options) == 3"
    ∷ "    \"trans=virtio,version=9p2000.L,cache=mmap\" in i_storage.options"
    ∷ "    \"nodev\" in i_storage.options" ∷ "    \"msize=8192\" in i_storage.options"
    ∷ "    i_storage.shared == false" ∷ "    i_storage.source == \"kataShared\"" ∷ "}" ∷ [])

unfoldable pub storage_count_check : Bytes
storage_count_check = lines ("    p_count == i_count - img_pull_count" ∷ [])

unfoldable pub storage_count_allow : Bytes
storage_count_allow = lines (
    "    cap_extra_storage_count := count([s | s := i_storages[_]; allow_cap_extra_storage(s, bundle_id, sandbox_id)])"
    ∷ "    print(\"allow_storages: cap_extra_storage_count =\", cap_extra_storage_count)"
    ∷ "    p_count == i_count - img_pull_count - cap_extra_storage_count" ∷ [])

unfoldable pub extra_storage_helpers : Bytes
extra_storage_helpers = lines (
    "" ∷ "allow_storage(_p_storages, i_storage, bundle_id, sandbox_id) if {"
    ∷ "    allow_cap_extra_storage(i_storage, bundle_id, sandbox_id)" ∷ "}" ∷ ""
    ∷ "allow_cap_extra_storage(i_storage, bundle_id, _sandbox_id) if {"
    ∷ "    i_storage.driver == \"watchable-bind\"" ∷ "    i_storage.driver_options == []"
    ∷ "    i_storage.fs_group == null" ∷ "    i_storage.fstype == \"bind\""
    ∷ "    i_storage.options == [\"rbind\", \"rprivate\", \"ro\"]" ∷ "    i_storage.shared == false"
    ∷ ""
    ∷ "    watchable_prefix := concat(\"\", [\"/run/kata-containers/shared/containers/watchable/\", bundle_id, \"-\"])"
    ∷ "    source_prefix := concat(\"\", [\"/run/kata-containers/shared/containers/\", bundle_id, \"-\"])"
    ∷ "    startswith(i_storage.mount_point, watchable_prefix)"
    ∷ "    startswith(i_storage.source, source_prefix)"
    ∷ "    replace(i_storage.mount_point, \"/watchable/\", \"/\") == i_storage.source" ∷ "}" ∷ [])
