-- ===== src/Genpolicy/Normalize/Mounts.antt =====
-- `normalize_guest_memory_mount_propagation`: the mounts of guest memory in the data of a policy.
use policy_templates.Prelude.{
  Bytes, text, ◌==◌, rsplit_once, Bool, true, false, ◌&&◌, Option, none, some, List, [], ◌∷◌, ◌++◌,
  if◌then◌else◌, Result, ok, err, ensure, ok_or, ◌>>=◌, ◌>>◌, policy_data_missing,
  policy_data_invalid, containers_missing, container_not_unique, mounts_missing, mount_not_unique,
  mount_shape_unexpected, policy_data_unprintable,
}
use policy_templates.Genpolicy.Value.{
  Value, string, array, elements, json_array, get, get_in, as_array, as_string, set_key,
}

-- serde_json: from_str and to_string_pretty; serde_yaml: to_string
pub record Printer : Type 0 where
  pub from_str : Bytes → Option Value
  pub to_string_pretty : Value → Option Bytes
  pub to_yaml : Value → Option Bytes

-- A row of the table of the platform's mounts.
pub record Row : Type 0 where
  pub container : Bytes
  pub volume : Bytes
  pub destination : Bytes
  pub propagation : Bytes
  pub required : Bool

abbrev pub row : Bytes → Bytes → Bytes → Bytes → Bool → Row
row c v d p r = record { container = c; volume = v; destination = d; propagation = p; required = r }

unfoldable pub platform_mounts : List Row
platform_mounts =
    row (text "web") (text "state-mount") (text "/state") (text "rslave") true
    ∷ row (text "web") (text "logs") (text "/run/enclava-logs") (text "rslave") false
    ∷ row (text "attestation-proxy") (text "state-mount") (text "/data") (text "rslave") true
    ∷ row (text "attestation-proxy") (text "state-mount") (text "/state") (text "rslave") true
    ∷ row (text "enclava-init") (text "state-mount") (text "/state") (text "rshared") true
    ∷ row (text "enclava-init") (text "tls-state-mount") (text "/state/tls-state") (text "rshared")
        true
    ∷ row (text "enclava-init") (text "logs") (text "/run/enclava-logs") (text "rshared") false
    ∷ []

-- `value == Some(expected)`
abbrev pub is_some_of : Bytes → Option Bytes → Bool
is_some_of expected none = false
is_some_of expected (some s) = s == expected

abbrev pub container_name : Value → Option Bytes
container_name c = as_string (
    get_in (text "io.kubernetes.cri.container-name")
      (get_in (text "Annotations") (get (text "OCI") c)))

abbrev pub mounts_of : Value → Option (List Value)
mounts_of c = as_array (get_in (text "Mounts") (get (text "OCI") c))

abbrev pub destination_of : Value → Option Bytes
destination_of m = as_string (get (text "destination") m)

-- A write through `pointer_mut("/OCI/Mounts")`.
abbrev pub set_mounts_in : List Value → Value → Option Value → Value
set_mounts_in mounts c none = c
set_mounts_in mounts c (some oci) =
    set_key (text "OCI") (set_key (text "Mounts") (json_array mounts) oci) c

unfoldable pub set_mounts : List Value → Value → Value
set_mounts mounts c = set_mounts_in mounts c (get (text "OCI") c)

-- The elements that a test selects.
abbrev pub select : (Value → Bool) → List Value → List Value
select p [] = []
select p (v ∷ vs) = if p v then v ∷ select p vs else select p vs

-- The change of the elements that a test selects.
abbrev pub update : (Value → Bool) → (Value → Value) → List Value → List Value
update p f [] = []
update p f (v ∷ vs) = (if p v then f v else v) ∷ update p f vs

abbrev pub option_strings : Bytes → Bytes → Bytes → Value
option_strings a b c = json_array (string a ∷ string b ∷ string c ∷ [])

-- `value != Some(&json!(["rbind", "rprivate", "rw"]))`, negated
abbrev pub is_private : Option Value → Bool
is_private (some (array vs)) = elim (elements vs) [
  | string a ∷ string b ∷ string c ∷ [] ↦
      a == text "rbind" && (b == text "rprivate" && c == text "rw")
  | _ ↦ false
]
is_private _ = false

abbrev pub is_named : Bytes → Value → Bool
is_named name c = is_some_of name (container_name c)

abbrev pub mounted_at : Bytes → Value → Bool
mounted_at destination m = is_some_of destination (destination_of m)

abbrev pub ephemeral_source : Bytes → Bytes
ephemeral_source volume = text "^/run/kata-containers/sandbox/ephemeral/" ++ (volume ++ text "$")

-- The shape that the generator gives to a mount of guest memory.
unfoldable pub has_memory_shape : Row → Value → Bool
has_memory_shape r m =
    is_some_of (ephemeral_source r.volume) (as_string (get (text "source") m))
    && (is_some_of (text "bind") (as_string (get (text "type_") m))
        && is_private (get (text "options") m))

abbrev pub row_options : Row → Value
row_options r = option_strings (text "rbind") r.propagation (text "rw")

-- `mount["options"] = ...` on the mount of a row
unfoldable pub set_options : Row → Value → Value
set_options r m = set_key (text "options") (row_options r) m

abbrev pub corrected_containers : Row → List Value → List Value → List Value
corrected_containers r mounts cs =
    update (is_named r.container)
      (set_mounts (update (mounted_at r.destination) (set_options r) mounts)) cs

-- The mounts that match, of the mounts of the container of a row
unfoldable pub adjust_matching : Row → List Value → List Value → List Value → Result (List Value)
adjust_matching r cs mounts [] = if r.required then err mount_not_unique else ok cs
adjust_matching r cs mounts (m ∷ []) = do
  ensure (has_memory_shape r m) mount_shape_unexpected
  ok (corrected_containers r mounts cs)
adjust_matching r cs mounts (m ∷ (n ∷ ms)) = err mount_not_unique

unfoldable pub adjust_container : Row → List Value → List Value → Result (List Value)
unfolding adjust_matching
adjust_container r cs [] = err container_not_unique
adjust_container r cs (c ∷ []) = do
  mounts ← ok_or (mounts_of c) mounts_missing
  adjust_matching r cs mounts (select (mounted_at r.destination) mounts)
adjust_container r cs (c ∷ (d ∷ ds)) = err container_not_unique

-- The body of the loop for one row of the table, on the containers
unfoldable pub adjust_row : Row → List Value → Result (List Value)
unfolding adjust_container
adjust_row r cs = adjust_container r cs (select (is_named r.container) cs)

-- The loop over the table
unfoldable pub adjust_rows : List Row → List Value → Result (List Value)
unfolding adjust_row
adjust_rows [] cs = ok cs
adjust_rows (r ∷ rows) cs = adjust_row r cs >>= adjust_rows rows

unfoldable pub separator : Bytes
separator = text "\npolicy_data := "

module _ (printer : Printer) where
  unfoldable pub normalize_guest_memory_mount_propagation : Bytes → Result Bytes
  unfolding adjust_rows
  normalize_guest_memory_mount_propagation policy = do
    (rules, json_data) ← ok_or (rsplit_once separator policy) policy_data_missing
    parsed ← ok_or (printer.from_str json_data) policy_data_invalid
    containers ← ok_or (as_array (get (text "containers") parsed)) containers_missing
    adjusted ← adjust_rows platform_mounts containers
    printed ←
        ok_or (printer.to_string_pretty (set_key (text "containers") (json_array adjusted) parsed))
          policy_data_unprintable
    ok (rules ++ (separator ++ printed))
