-- ===== src/Genpolicy/Settings.antt =====
-- The settings of the generator (genpolicy.rs): its own copy, without the mounts of service account
-- tokens, in the work directory.
use policy_templates.Prelude.{
  Bytes, text, ◌==◌, any, eqb, not, Bool, true, false, Option, none, some, List, [], ◌∷◌, ◌++◌,
  if◌then◌else◌, Result, ok, err, ok_or, ◌>>=◌, settings_unreadable, settings_invalid,
  settings_unprintable, write_failed, copy_failed,
}
use policy_templates.Genpolicy.Value.{Value, get, as_array, as_string, set_key, json_array}
use policy_templates.Genpolicy.Normalize.Mounts.{Printer, select}

unfoldable pub token_mount_destinations : List Bytes
token_mount_destinations =
    text "/var/run/secrets/kubernetes.io/serviceaccount" ∷ text "/var/run/secrets/azure/tokens" ∷ []

-- `.is_some_and(|destination| TOKEN_MOUNT_DESTINATIONS.contains(&destination))`
abbrev pub is_token_destination : Option Bytes → Bool
is_token_destination none = false
is_token_destination (some destination) = any (λ d. d == destination) token_mount_destinations

abbrev pub keeps_mount : Value → Bool
keeps_mount mount = not (is_token_destination (as_string (get (text "destination") mount)))

abbrev pub keeps_destination : Value → Bool
keeps_destination destination = not (is_token_destination (as_string (some destination)))

abbrev pub retain_in : (Value → Bool) → Bytes → Option (List Value) → Value → Value
retain_in keep key none v = v
retain_in keep key (some vs) v = set_key key (json_array (select keep vs)) v

-- `retain` on the array at a key, if there is one.
unfoldable pub retain_at : (Value → Bool) → Bytes → Value → Value
retain_at keep key v = retain_in keep key (as_array (get key v)) v

abbrev pub retain_below : Option Value → Value → Value
retain_below none v = v
retain_below (some container) v =
    set_key (text "other_container") (retain_at keeps_mount (text "Mounts") container) v

-- The mounts of `/other_container/Mounts`.
unfoldable pub remove_token_mounts : Value → Value
unfolding retain_at token_mount_destinations
remove_token_mounts settings = retain_below (get (text "other_container") settings) settings

unfoldable pub remove_service_account_token_mounts : Value → Value
unfolding remove_token_mounts retain_at token_mount_destinations
remove_service_account_token_mounts settings =
    retain_at keeps_destination (text "mount_destinations") (remove_token_mounts settings)

-- What std::process::Command::output gives: whether the status is success, and what was printed.
pub record Output : Type 0 where
  pub success : Bool
  pub stdout : Bytes

-- A directory as fs::read_dir lists it, with what is below; `unreadable` is an entry or a directory
-- that cannot be read.
pub data Entries : Type 0 where
  finished unreadable : Entries
  file : Bytes → Entries → Entries
  directory : Bytes → Entries → Entries → Entries

-- The machine: its files are a state, and each operation may fail.
pub record Host : Type 1 where
  pub Disk : Type 0
  -- tempfile::tempdir, fs::write, fs::create_dir_all, fs::copy
  pub tempdir : Disk → Option (Bytes × Disk)
  pub write : Disk → Bytes → Bytes → Option Disk
  pub create_dir_all : Disk → Bytes → Option Disk
  pub copy : Disk → Bytes → Bytes → Option Disk
  -- fs::read_to_string, Path::is_dir, and what is in a directory
  pub read_to_string : Disk → Bytes → Option Bytes
  pub is_dir : Disk → Bytes → Bool
  pub entries : Disk → Bytes → Entries
  -- A binary, its arguments, the directory, and the variables set beside the inherited ones.
  pub execute : Disk → Bytes → List Bytes → Bytes → List (Bytes × Bytes) → Option (Output × Disk)

abbrev pub ends_directory : Bytes → Bool
ends_directory [] = true
ends_directory (b ∷ []) = eqb b 47
ends_directory (b ∷ (c ∷ s)) = ends_directory (c ∷ s)

-- Path::join of a relative path: with a slash between, unless the directory is empty or ends in one.
abbrev pub join : Bytes → Bytes → Bytes
join dir name = if ends_directory dir then dir ++ name else dir ++ (text "/" ++ name)

module _ (h : Host) where
  open h use {Disk, write, create_dir_all, copy, read_to_string, is_dir, entries}

  -- The loop of copy_dir_all over the entries of a directory.
  unfoldable pub copy_entries : Entries → Bytes → Bytes → Disk → Result Disk
  copy_entries finished source dest disk = ok disk
  copy_entries unreadable source dest disk = err copy_failed
  copy_entries (file name rest) source dest disk = do
    copied ← ok_or (copy disk (join source name) (join dest name)) copy_failed
    copy_entries rest source dest copied
  copy_entries (directory name below rest) source dest disk = do
    made ← ok_or (create_dir_all disk (join dest name)) copy_failed
    copied ← copy_entries below (join source name) (join dest name) made
    copy_entries rest source dest copied

  unfoldable pub copy_dir_all : Bytes → Bytes → Disk → Result Disk
  unfolding copy_entries
  copy_dir_all source dest disk = do
    made ← ok_or (create_dir_all disk dest) copy_failed
    copy_entries (entries made source) source dest made

  unfoldable pub prepare_cap_settings_dir : Printer → Bytes → Bytes → Disk → Result (Bytes × Disk)
  unfolding copy_dir_all remove_service_account_token_mounts
  prepare_cap_settings_dir printer source_dir work_dir disk = do
    let dest_dir = join work_dir (text "genpolicy-settings")
    made ← ok_or (create_dir_all disk dest_dir) write_failed
    raw ←
        ok_or (read_to_string made (join source_dir (text "genpolicy-settings.json")))
          settings_unreadable
    settings ← ok_or (printer.from_str raw) settings_invalid
    rendered ←
        ok_or (printer.to_string_pretty (remove_service_account_token_mounts settings))
          settings_unprintable
    written ←
        ok_or (write made (join dest_dir (text "genpolicy-settings.json")) rendered) write_failed
    let below = join source_dir (text "genpolicy-settings.d")
    copied ←
        if is_dir written below
        then copy_dir_all below (join dest_dir (text "genpolicy-settings.d")) written
        else ok written
    ok (dest_dir, copied)
