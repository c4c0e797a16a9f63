-- ===== src/Descriptor/Parts.antt =====
-- What the hashes of a descriptor's parts say about the parts.
use policy_templates.Prelude.{
  ℕ, ◌+◌, ◌^◌, ◌<◌, ◌≡◌, refl, ap, ap₂, Bytes, be32, List, [], ◌∷◌, ◌++◌, All, Result, ok,
  >>=-eq-ok, ◌⊎◌, inl, arith,
}
use policy_templates.External.{External, Collision}
use policy_templates.Canonical.{ce_v1_hash}
use policy_templates.Canonical.Binding.{ce_v1_hash_binds}
use policy_templates.Canonical.Binds.{◌>>=◌, Binds, nth, value_at, label_at, others}
use policy_templates.Descriptor.{EnvVar, Port}
use policy_templates.Descriptor.Canonical.{
  collect, hash_parts, string_records, env_records, port_records, canonical_signer_bytes,
  canonical_sidecar_map_bytes, canonical_string_list_bytes,
}

-- The two arrays have the same values, place by place.
abbrev pub SameResults : List (Bytes × Result Bytes) → List (Bytes × Result Bytes) → Type 0
SameResults [] [] = Unit
SameResults ((l, r) ∷ ls) ((m, s) ∷ ms) =
    ((v : Bytes) × (r ≡ ok v) × (s ≡ ok v)) × SameResults ls ms
SameResults _ _ = ⊥

collect_same :
    (ls ms : List (Bytes × Result Bytes)) {rs : List (Bytes × Bytes)}
    → collect ls ≡ ok rs
    → collect ms ≡ ok rs
    → SameResults ls ms
unfolding collect
collect_same [] [] e e' = tt
collect_same [] ((m, s) ∷ ms) e e' =
    let (v, ev, h) = >>=-eq-ok s _ e' in let (rs, ers, g) = >>=-eq-ok (collect ms) _ h in cc
collect_same ((l, r) ∷ ls) [] e e' =
    let (v, ev, h) = >>=-eq-ok r _ e in let (rs, ers, g) = >>=-eq-ok (collect ls) _ h in cc
collect_same ((l, r) ∷ ls) ((m, s) ∷ ms) e e' =
    let (v, ev, h) = >>=-eq-ok r _ e in
    let (vs, evs, g) = >>=-eq-ok (collect ls) _ h in
    let (w, ew, h') = >>=-eq-ok s _ e' in
    let (ws, ews, g') = >>=-eq-ok (collect ms) _ h' in ((v, ev, cc), collect_same ls ms evs (cc))

string_records_inj :
    (i : ℕ) (as' bs : List Bytes) → string_records i as' ≡ string_records i bs → as' ≡ bs
unfolding string_records
string_records_inj i [] [] e = refl
string_records_inj i [] (b ∷ bs) e = cc
string_records_inj i (a ∷ as') [] e = cc
string_records_inj i (a ∷ as') (b ∷ bs) e =
    cc (ap (value_at 0) e, string_records_inj (i + 1) as' bs (cc))

pub env_records_inj : (as' bs : List EnvVar) → env_records as' ≡ env_records bs → as' ≡ bs
unfolding env_records
env_records_inj [] [] e = refl
env_records_inj [] (b ∷ bs) e = cc
env_records_inj (a ∷ as') [] e = cc
env_records_inj (a ∷ as') (b ∷ bs) e =
    let first : a ≡ b = λ i. record { name = ap (label_at 0) e i; value = ap (value_at 0) e i } in
    ap₂ ◌∷◌ first (env_records_inj as' bs (ap others e))

be32_append_inj :
    (m n : ℕ)
    → m < 2 ^ 32
    → n < 2 ^ 32
    → (b c : Bytes) → be32 m ++ b ≡ be32 n ++ c
    → (m ≡ n) × (b ≡ c)
unfolding be32
be32_append_inj m n hm hn b c e =
    (let at = λ (i : ℕ). ap (nth i) e in omega (arith, at 0, at 1, at 2, at 3), cc)

pub be32_inj : (m n : ℕ) → m < 2 ^ 32 → n < 2 ^ 32 → be32 m ≡ be32 n → m ≡ n
unfolding be32
be32_inj m n hm hn e = let at = λ (i : ℕ). ap (nth i) e in omega (arith, at 0, at 1, at 2, at 3)

abbrev pub PortInRange : Port → Type 0
PortInRange p = p.container_port < 2 ^ 32

pub port_records_inj :
    (i : ℕ) (ps qs : List Port)
    → All PortInRange ps
    → All PortInRange qs
    → port_records i ps ≡ port_records i qs
    → ps ≡ qs
unfolding port_records
port_records_inj i [] [] h k e = refl
port_records_inj i [] (q ∷ qs) h k e = cc
port_records_inj i (p ∷ ps) [] h k e = cc
port_records_inj i (p ∷ ps) (q ∷ qs) h k e =
    let (port, protocol) =
      be32_append_inj p.container_port q.container_port h.0 k.0 p.protocol q.protocol
        (ap (value_at 0) e) in
    let first : p ≡ q = λ j. record { container_port = port j; protocol = protocol j } in
    ap₂ ◌∷◌ first (port_records_inj (i + 1) ps qs h.1 k.1 (ap others e))

module _ (x : External) where
  pub hash_parts_binds :
      (ls ms : List (Bytes × Result Bytes)) {h : Bytes}
      → hash_parts x ls ≡ ok h
      → hash_parts x ms ≡ ok h
      → SameResults ls ms ⊎ Collision x
  unfolding hash_parts
  hash_parts_binds ls ms e e' =
      let (rs, ers, h) = >>=-eq-ok (collect ls) (ce_v1_hash x) e in
      let (ss, ess, h') = >>=-eq-ok (collect ms) (ce_v1_hash x) e' in
      do same ← ce_v1_hash_binds x rs ss h h'; inl (collect_same ls ms ers (cc (ess, same)))

  pub canonical_signer_bytes-Binds : Binds x (canonical_signer_bytes x)
  unfolding canonical_signer_bytes
  canonical_signer_bytes-Binds s t h e e' = do
    same ← ce_v1_hash_binds x _ _ e e'
    inl (λ i. record { subject = ap (value_at 0) same i; issuer = ap (value_at 1) same i })

  pub canonical_sidecar_map_bytes-Binds : Binds x (canonical_sidecar_map_bytes x)
  unfolding canonical_sidecar_map_bytes
  canonical_sidecar_map_bytes-Binds s t h e e' = do
    same ← ce_v1_hash_binds x _ _ e e'
    inl (λ i. record {
      attestation_proxy_digest = ap (value_at 0) same i;
      caddy_digest = ap (value_at 1) same i;
    })

  pub canonical_string_list_bytes-Binds : Binds x (canonical_string_list_bytes x)
  unfolding canonical_string_list_bytes
  canonical_string_list_bytes-Binds as' bs h e e' = do
    same ← ce_v1_hash_binds x (string_records 0 as') (string_records 0 bs) e e'
    inl (string_records_inj 0 as' bs same)
