-- ===== src/Genpolicy/Normalize/Correct.antt =====
-- The correction of the mounts of guest memory, on the whole text of a policy.
use policy_templates.Prelude.{
  ok_or-eq-ok, ◌≡◌, sym, ◌≤◌, Bytes, text, rsplit_once, some, List, ◌++◌, map, length, ok, ok_or,
  ok_inj, >>=-eq-ok, policy_data_missing, policy_data_invalid, containers_missing,
  policy_data_unprintable, rsplit_once-some, rsplit_once-last,
}
use policy_templates.Genpolicy.Value.{Value, get, as_array, json_array, set_key}
use policy_templates.Genpolicy.Normalize.Mounts.{
  Printer, adjust_rows, platform_mounts, separator, normalize_guest_memory_mount_propagation,
}
use policy_templates.Genpolicy.Normalize.Table.{
  mount_options, override_rows, Present, adjust_rows-Present,
}
use policy_templates.Genpolicy.Normalize.Placed.{placed_rows, adjust_rows-placed_rows}

-- A policy whose data is corrected: `cs` are the containers before, `cs'` after.
pub record Corrected (printer : Printer) (policy result : Bytes) : Type 0 where
  pub rules : Bytes
  pub json : Bytes
  pub printed : Bytes
  pub parsed : Value
  pub cs : List Value
  pub cs' : List Value
  pub parts : policy ≡ rules ++ (text "\npolicy_data := " ++ json)
  pub last :
      (before after : Bytes)
      → policy ≡ before ++ (text "\npolicy_data := " ++ after)
      → length before ≤ length rules
  pub read : printer.from_str json ≡ some parsed
  pub containers : as_array (get (text "containers") parsed) ≡ some cs
  pub written :
      printer.to_string_pretty (set_key (text "containers") (json_array cs') parsed) ≡ some printed
  pub joined : result ≡ rules ++ (text "\npolicy_data := " ++ printed)
  pub present : Present platform_mounts cs
  pub options :
      (name destination : Bytes)
      → mount_options cs' name destination
        ≡ override_rows platform_mounts name destination (mount_options cs name destination)
  pub placed : cs' ≡ map (placed_rows platform_mounts) cs

-- If the correction returns a text, then it is the policy with other data after its last separator,
-- the data with other containers. Every mount of the table that is required is the only one at its
-- destination in the only container of its name. Each container comes from the one before it in the
-- list by the table alone: the mounts of the table have as options `rbind`, the propagation of the
-- table and `rw`, and every other mount and all else in the containers is as it was.
pub normalize_guest_memory_mount_propagation-Corrected :
    (printer : Printer) (policy : Bytes) {result : Bytes}
    → normalize_guest_memory_mount_propagation printer policy ≡ ok result
    → Corrected printer policy result
unfolding normalize_guest_memory_mount_propagation separator
normalize_guest_memory_mount_propagation-Corrected printer policy h =
    let ((rules, json), e1, h1) =
      >>=-eq-ok (ok_or (rsplit_once separator policy) policy_data_missing) _ h in
    let (parsed, e2, h2) = >>=-eq-ok (ok_or (printer.from_str json) policy_data_invalid) _ h1 in
    let (cs, e3, h3) =
      >>=-eq-ok (ok_or (as_array (get (text "containers") parsed)) containers_missing) _ h2 in
    let (cs', e4, h4) = >>=-eq-ok (adjust_rows platform_mounts cs) _ h3 in
    let (printed, e5, h5) =
      >>=-eq-ok
        (ok_or (printer.to_string_pretty (set_key (text "containers") (json_array cs') parsed))
          policy_data_unprintable)
        _ h4 in
    let (options, present) = adjust_rows-Present platform_mounts cs e4 in
    record {
      rules = rules;
      json = json;
      printed = printed;
      parsed = parsed;
      cs = cs;
      cs' = cs';
      parts = rsplit_once-some separator policy rules json (ok_or-eq-ok _ _ e1);
      last = rsplit_once-last separator policy rules json (ok_or-eq-ok _ _ e1);
      read = ok_or-eq-ok _ _ e2;
      containers = ok_or-eq-ok _ _ e3;
      written = ok_or-eq-ok _ _ e5;
      joined = sym (ok_inj h5);
      present = present;
      options = options;
      placed = adjust_rows-placed_rows platform_mounts cs e4;
    }
