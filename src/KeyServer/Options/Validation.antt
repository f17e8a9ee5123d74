-- ===== src/KeyServer/Options/Validation.antt =====
-- What `validate` guarantees for the clients of a permissioned server.
use seal.Base.{
  ok-injective, ℕ, zero, suc, ◌+◌, ◌<◌, ◌≤◌, ◌≡◌, ◌⊎◌, inl, inr, refl, sym, subst, List, [], ◌∷◌,
  flat_map, length, range, Elem, All, Distinct, U8, bytes_eq, bytes_eq_iff, Bool, true, false, not,
  ||-false, ◌==◌, arith, >>=-ok, ok, reject_if, reject_if-ok,
}
use seal.KeyServer.Options.{
  ClientConfig, permissioned, holds, insert, Seen, nat_eq, insert_key, insert_packages,
  validate_client, validate_clients, any_missing, validate, duplicate_name, duplicate_key_server,
  no_package, not_incremental,
}
use seal.KeyServer.Options.Inserts.{
  Inserts, Inserts-append, Inserts-Distinct, Inserts-Elem, length-Inserts, holds-true,
  insert-Inserts, nat_eq_iff, client_indices, client_env_vars, client_names, client_ids, Grows,
  insert_packages-Inserts, insert_key-Grows,
}

abbrev HasPackage : ClientConfig → Type 0
HasPackage c = (length c.package_ids == 0) ≡ false

validate_client-Grows :
    (c : ClientConfig) (seen seen' : Seen)
    → validate_client c seen ≡ ok seen'
    → HasPackage c
      × Grows (client_names c) (client_indices c) (client_env_vars c) (client_ids c) seen seen'
unfolding validate_client Inserts
validate_client-Grows c seen seen' h =
    let (some_package, h1) = reject_if-ok (length c.package_ids == 0) no_package _ h in
    let (names, e_names, h2) = >>=-ok (insert bytes_eq seen.names c.name duplicate_name) _ h1 in
    let (keyed, e_keyed, h3) = >>=-ok (insert_key c.client_master_key seen) _ h2 in
    let (with_server, e_server, h4) =
      >>=-ok (insert bytes_eq keyed.obj_ids c.key_server_object_id duplicate_key_server) _ h3 in
    let (ids, e_ids, made) = >>=-ok (insert_packages c.package_ids with_server) _ h4 in
    let k = insert_key-Grows c.client_master_key seen keyed e_keyed in
    let server =
      insert-Inserts bytes_eq bytes_eq_iff keyed.obj_ids c.key_server_object_id duplicate_key_server
        with_server e_server in
    let pkgs = insert_packages-Inserts c.package_ids with_server ids e_ids in
    let all =
      Inserts-append keyed.obj_ids (c.key_server_object_id ∷ []) with_server c.package_ids ids
        server pkgs in
    (
      some_package,
      subst (Grows (client_names c) (client_indices c) (client_env_vars c) (client_ids c) seen)
          (ok-injective _ seen' made)
          (record {
            by_names =
                insert-Inserts bytes_eq bytes_eq_iff seen.names c.name duplicate_name names e_names;
            by_indices = k.by_indices;
            by_vars = k.by_vars;
            by_ids = subst (λ s. Inserts s (client_ids c) ids) (sym k.by_ids) all;
          }),
    )

validate_clients-Grows :
    (cs : List ClientConfig) (seen seen' : Seen)
    → validate_clients cs seen ≡ ok seen'
    → All HasPackage cs
      × Grows
          (flat_map client_names cs)
          (flat_map client_indices cs)
          (flat_map client_env_vars cs)
          (flat_map client_ids cs)
          seen
          seen'
unfolding validate_clients Inserts
validate_clients-Grows [] seen seen' h = (
  tt,
  subst (Grows [] [] [] [] seen) (ok-injective seen seen' h)
      (record { by_names = refl; by_indices = refl; by_vars = refl; by_ids = refl }),
)
validate_clients-Grows (c ∷ cs) seen seen' h =
    let (mid, first, rest) = >>=-ok (validate_client c seen) _ h in
    let (p, g) = validate_client-Grows c seen mid first in
    let (ps, gs) = validate_clients-Grows cs mid seen' rest in
    (
      (p, ps),
      record {
        by_names =
            Inserts-append seen.names (client_names c) mid.names (flat_map client_names cs)
              seen'.names g.by_names gs.by_names;
        by_indices =
            Inserts-append seen.derivation_indices (client_indices c) mid.derivation_indices
              (flat_map client_indices cs) seen'.derivation_indices g.by_indices gs.by_indices;
        by_vars =
            Inserts-append seen.env_vars (client_env_vars c) mid.env_vars
              (flat_map client_env_vars cs) seen'.env_vars g.by_vars gs.by_vars;
        by_ids =
            Inserts-append seen.obj_ids (client_ids c) mid.obj_ids (flat_map client_ids cs)
              seen'.obj_ids g.by_ids gs.by_ids;
      },
    )

none_missing :
    (set : List ℕ) (s n i : ℕ)
    → any_missing set (range s n) ≡ false
    → s ≤ i
    → i < s + n
    → Elem i set
unfolding any_missing
none_missing set s zero i h le lt = absurd (omega (arith, le, lt))
none_missing set s (suc n) i h le lt =
    let (here, later) = ||-false (not (holds nat_eq set s)) (any_missing set (range (suc s) n)) h in
    elim (at_start) [
      | inl e ↦
          holds-true nat_eq nat_eq_iff set i
            (subst (λ j. holds nat_eq set j ≡ true) (sym e) (held (holds nat_eq set s) here))
      | inr l ↦ none_missing set (suc s) n i later l (omega (arith, lt))
    ]
  where
    at_start : (i ≡ s) ⊎ (suc s ≤ i)
    at_start = omega (arith, le)

    held : (t : Bool) → not t ≡ false → t ≡ true
    held true e = refl
    held false e = cc

-- The six rules for the clients of a permissioned server.
pub record AreUnique (cs : List ClientConfig) : Type 0 where
  pub packages : All HasPackage cs
  pub names : Distinct (λ (n : List U8). n) (flat_map client_names cs)
  pub ids : Distinct (λ (i : List U8). i) (flat_map client_ids cs)
  pub env_vars : Distinct (λ (v : List U8). v) (flat_map client_env_vars cs)
  pub indices : Distinct (λ (i : ℕ). i) (flat_map client_indices cs)
  pub incremental :
      (i : ℕ) → i < length (flat_map client_indices cs) → Elem i (flat_map client_indices cs)

-- A configuration of clients that `validate` accepts has a package for each client; no two clients
-- share a name, an environment variable or a derivation index; no object id occurs twice among the
-- key servers and the packages; and the derivation indices are the numbers from 0 on.
pub validate-AreUnique :
    (cs : List ClientConfig) → validate (permissioned cs) ≡ ok tt → AreUnique cs
unfolding validate
validate-AreUnique cs h =
    let empty : Seen = record {
      names = [];
      derivation_indices = [];
      env_vars = [];
      obj_ids = [];
    } in
    let (seen, returns, last) = >>=-ok (validate_clients cs empty) _ h in
    let (packages, g) = validate_clients-Grows cs empty seen returns in
    let complete : any_missing seen.derivation_indices (range 0 (length seen.derivation_indices))
        ≡ false =
      passed (any_missing seen.derivation_indices (range 0 (length seen.derivation_indices)))
        last in
    let size =
      length-Inserts [] (flat_map client_indices cs) seen.derivation_indices g.by_indices in
    record {
      packages = packages;
      names = (Inserts-Distinct [] (flat_map client_names cs) seen.names g.by_names).0;
      ids = (Inserts-Distinct [] (flat_map client_ids cs) seen.obj_ids g.by_ids).0;
      env_vars = (Inserts-Distinct [] (flat_map client_env_vars cs) seen.env_vars g.by_vars).0;
      indices =
          (Inserts-Distinct [] (flat_map client_indices cs) seen.derivation_indices g.by_indices).0;
      incremental = λ i lt. from_empty i (
          Inserts-Elem [] (flat_map client_indices cs) seen.derivation_indices i g.by_indices (
            none_missing seen.derivation_indices 0 (length seen.derivation_indices) i complete
              (omega arith) (omega (arith, size, lt))));
    }
  where
    passed : (t : Bool) → reject_if t not_incremental ≡ ok tt → t ≡ false
    passed true e = cc
    passed false e = refl

    from_empty :
        (i : ℕ)
        → Elem i (flat_map client_indices cs) ⊎ Elem i []
        → Elem i (flat_map client_indices cs)
    from_empty i (inl m) = m
    from_empty i (inr m) = absurd m
