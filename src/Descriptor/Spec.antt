-- ===== src/Descriptor/Spec.antt =====
-- What the hash of a runtime specification says about it.
use policy_templates.Prelude.{
  ℕ, ◌+◌, ◌^◌, ◌<◌, ◌≡◌, refl, ap, ap₂, Bytes, Bool, true, false, List, [], ◌∷◌, All, ok, ◌⊎◌, inl,
  sort_by_key, arith,
}
use policy_templates.External.{External, Collision}
use policy_templates.Canonical.Binding.{ce_v1_hash_binds}
use policy_templates.Canonical.Binds.{◌>>=◌, Binds, nth, value_at}
use policy_templates.Descriptor.{EnvVar, Port, Mount, SecurityContext, Resources, OciRuntimeSpec}
use policy_templates.Descriptor.Canonical.{
  flag, port_records, canonical_env_bytes, canonical_ports_bytes, mount_hash, mount_entries,
  canonical_mounts_bytes, canonical_secctx_bytes, canonical_resources_bytes, oci_parts, mount_parts,
  resource_parts, canonical_oci_spec_bytes,
}
use policy_templates.Descriptor.Parts.{
  PortInRange, SameResults, env_records_inj, port_records_inj, be32_inj, hash_parts_binds,
  canonical_string_list_bytes-Binds,
}

-- The same variables, in the same order for each name.
abbrev pub SameEnv : List EnvVar → List EnvVar → Type 0
SameEnv a b = sort_by_key (λ (e : EnvVar). e.name) a ≡ sort_by_key (λ (e : EnvVar). e.name) b

abbrev pub SameResources : Resources → Resources → Type 0
SameResources r s = SameEnv r.requests s.requests × SameEnv r.limits s.limits

abbrev SecurityInRange : SecurityContext → Type 0
SecurityInRange s = (s.run_as_user < 2 ^ 32) × (s.run_as_group < 2 ^ 32)

-- The ranges of the Rust types of the specification.
pub record SpecInRange (o : OciRuntimeSpec) : Type 0 where
  pub ports : All PortInRange o.ports
  pub user : o.security_context.run_as_user < 2 ^ 32
  pub group : o.security_context.run_as_group < 2 ^ 32

-- Equal specifications, but that lists of variables agree up to their stable order by name.
pub record SameSpec (o p : OciRuntimeSpec) : Type 0 where
  pub command : o.command ≡ p.command
  pub args : o.args ≡ p.args
  pub env : SameEnv o.env p.env
  pub ports : o.ports ≡ p.ports
  pub mounts : o.mounts ≡ p.mounts
  pub capabilities : o.capabilities ≡ p.capabilities
  pub security_context : o.security_context ≡ p.security_context
  pub resources : SameResources o.resources p.resources

flag_inj : (a b : Bool) → flag a ≡ flag b → a ≡ b
flag_inj true true e = refl
flag_inj true false e = absurd (omega arith)
flag_inj false true e = absurd (omega arith)
flag_inj false false e = refl

-- Two values that were given as they are.
ok_same : {a b : Bytes} → (v : Bytes) × (ok a ≡ ok v) × (ok b ≡ ok v) → a ≡ b
ok_same (v, e, e') = cc

module _ (x : External) where
  canonical_env_bytes_binds :
      (a b : List EnvVar) {h : Bytes}
      → canonical_env_bytes x a ≡ ok h
      → canonical_env_bytes x b ≡ ok h
      → SameEnv a b ⊎ Collision x
  unfolding canonical_env_bytes
  canonical_env_bytes_binds a b e e' = do
    same ← ce_v1_hash_binds x _ _ e e'
    inl (env_records_inj _ _ same)

  canonical_ports_bytes_binds :
      (ps qs : List Port) {h : Bytes}
      → All PortInRange ps
      → All PortInRange qs
      → canonical_ports_bytes x ps ≡ ok h
      → canonical_ports_bytes x qs ≡ ok h
      → (ps ≡ qs) ⊎ Collision x
  unfolding canonical_ports_bytes
  canonical_ports_bytes_binds ps qs wp wq e e' = do
    same ← ce_v1_hash_binds x (port_records 0 ps) (port_records 0 qs) e e'
    inl (port_records_inj 0 ps qs wp wq same)

  mount_hash-Binds : Binds x (mount_hash x)
  unfolding mount_hash
  mount_hash-Binds m n h e e' = do
    same ← hash_parts_binds x (mount_parts x m) (mount_parts x n) e e'
    let (source, (destination, (kind, ((o, eo, eo'), _)))) = same
    options ← canonical_string_list_bytes-Binds x m.options n.options o eo eo'
    inl (λ i. record {
      source = ok_same source i;
      destination = ok_same destination i;
      mount_type = ok_same kind i;
      options = options i;
    })

  mount_entries_inj :
      (i : ℕ) (ms ns : List Mount)
      → SameResults (mount_entries x i ms) (mount_entries x i ns)
      → (ms ≡ ns) ⊎ Collision x
  unfolding mount_entries
  mount_entries_inj i [] [] same = inl refl
  mount_entries_inj i [] (n ∷ ns) same = absurd same
  mount_entries_inj i (m ∷ ms) [] same = absurd same
  mount_entries_inj i (m ∷ ms) (n ∷ ns) same = do
    let ((h, eh, eh'), rest) = same
    first ← mount_hash-Binds m n h eh eh'
    more ← mount_entries_inj (i + 1) ms ns rest
    inl (ap₂ ◌∷◌ first more)

  canonical_mounts_bytes-Binds : Binds x (canonical_mounts_bytes x)
  unfolding canonical_mounts_bytes
  canonical_mounts_bytes-Binds ms ns h e e' = do
    same ← hash_parts_binds x (mount_entries x 0 ms) (mount_entries x 0 ns) e e'
    mount_entries_inj 0 ms ns same

  canonical_secctx_bytes_binds :
      (s t : SecurityContext) {h : Bytes}
      → SecurityInRange s
      → SecurityInRange t
      → canonical_secctx_bytes x s ≡ ok h
      → canonical_secctx_bytes x t ≡ ok h
      → (s ≡ t) ⊎ Collision x
  unfolding canonical_secctx_bytes
  canonical_secctx_bytes_binds s t hs ht e e' = do
    same ← ce_v1_hash_binds x _ _ e e'
    let flags = ap (value_at 2) same
    inl (λ i. record {
      run_as_user = be32_inj s.run_as_user t.run_as_user hs.0 ht.0 (ap (value_at 0) same) i;
      run_as_group = be32_inj s.run_as_group t.run_as_group hs.1 ht.1 (ap (value_at 1) same) i;
      read_only_root_fs = flag_inj s.read_only_root_fs t.read_only_root_fs (ap (nth 0) flags) i;
      allow_privilege_escalation =
          flag_inj s.allow_privilege_escalation t.allow_privilege_escalation (ap (nth 1) flags) i;
      privileged = flag_inj s.privileged t.privileged (ap (nth 2) flags) i;
    })

  canonical_resources_bytes_binds :
      (r s : Resources) {h : Bytes}
      → canonical_resources_bytes x r ≡ ok h
      → canonical_resources_bytes x s ≡ ok h
      → SameResources r s ⊎ Collision x
  unfolding canonical_resources_bytes
  canonical_resources_bytes_binds r s e e' = do
    same ← hash_parts_binds x (resource_parts x r) (resource_parts x s) e e'
    let ((q, eq, eq'), ((l, el, el'), _)) = same
    requests ← canonical_env_bytes_binds r.requests s.requests eq eq'
    limits ← canonical_env_bytes_binds r.limits s.limits el el'
    inl (requests, limits)

  -- Specifications with values in the ranges of their types and one hash are the same, up to the
  -- order of variables of different names, unless SHA-256 has a collision.
  pub canonical_oci_spec_bytes_binds :
      (o p : OciRuntimeSpec) {h : Bytes}
      → SpecInRange o
      → SpecInRange p
      → canonical_oci_spec_bytes x o ≡ ok h
      → canonical_oci_spec_bytes x p ≡ ok h
      → SameSpec o p ⊎ Collision x
  unfolding canonical_oci_spec_bytes
  canonical_oci_spec_bytes_binds o p ro rp e e' = do
    same ← hash_parts_binds x (oci_parts x o) (oci_parts x p) e e'
    let (c, (a, (v, (q, (m, (add, (drop, (s, (r, _))))))))) = same
    command ← canonical_string_list_bytes-Binds x o.command p.command c.0 c.1 c.2
    args ← canonical_string_list_bytes-Binds x o.args p.args a.0 a.1 a.2
    env ← canonical_env_bytes_binds o.env p.env v.1 v.2
    ports ← canonical_ports_bytes_binds o.ports p.ports ro.ports rp.ports q.1 q.2
    mounts ← canonical_mounts_bytes-Binds o.mounts p.mounts m.0 m.1 m.2
    adds ←
        canonical_string_list_bytes-Binds x o.capabilities.add p.capabilities.add add.0 add.1 add.2
    drops ←
        canonical_string_list_bytes-Binds x o.capabilities.drop p.capabilities.drop drop.0 drop.1
          drop.2
    security ←
        canonical_secctx_bytes_binds o.security_context p.security_context (ro.user, ro.group)
          (rp.user, rp.group) s.1 s.2
    resources ← canonical_resources_bytes_binds o.resources p.resources r.1 r.2
    inl (record {
      command = command;
      args = args;
      env = env;
      ports = ports;
      mounts = mounts;
      capabilities = λ i. record { add = adds i; drop = drops i };
      security_context = security;
      resources = resources;
    })
