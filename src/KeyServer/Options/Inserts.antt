-- ===== src/KeyServer/Options/Inserts.antt =====
-- What the insertions of `validate` into its sets say of the inserted keys.
use seal.Base.{
  ok-injective, ℕ, ◌+◌, ◌≡◌, ◌↔◌, ◌⊎◌, inl, inr, refl, sym, ap, subst, List, [], ◌∷◌, ◌++◌, length,
  Elem, All, All-map, Distinct, U8, bytes_eq, bytes_eq_iff, ==_iff, Bool, true, false, ||-false,
  Bool-cases, arith, ok, reject_if-ok, >>=-ok,
}
use seal.KeyServer.Options.{
  ClientKeyType, derived, imported, exported, ClientConfig, ConfigError, holds, insert, Seen,
  nat_eq, insert_key, insert_packages, duplicate_derivation_index, duplicate_env_var,
  duplicate_package,
}

-- `set'` is `set` after the insertion of each of the keys, none of which was there.
unfoldable pub Inserts : {A : Type 0} → List A → List A → List A → Type 0
Inserts set [] set' = set ≡ set'
Inserts set (k ∷ ks) set' = (Elem k set → ⊥) × Inserts (k ∷ set) ks set'

module _ {A : Type 0} where
  pub Inserts-append :
      (set ks set' ls set'' : List A)
      → Inserts set ks set'
      → Inserts set' ls set''
      → Inserts set (ks ++ ls) set''
  unfolding Inserts
  Inserts-append set [] set' ls set'' h k = subst (λ s. Inserts s ls set'') (sym h) k
  Inserts-append set (x ∷ ks) set' ls set'' h k =
      (h.0, Inserts-append (x ∷ set) ks set' ls set'' h.1 k)

  pub Inserts-Distinct :
      (set ks set' : List A)
      → Inserts set ks set'
      → Distinct (λ (a : A). a) ks × All (λ a. Elem a set → ⊥) ks
  unfolding Inserts
  Inserts-Distinct set [] set' h = (tt, tt)
  Inserts-Distinct set (k ∷ ks) set' h =
      let (d, fresh) = Inserts-Distinct (k ∷ set) ks set' h.1 in
      ((All-map (λ a f e. f (inl e)) ks fresh, d), (h.0, All-map (λ a f m. f (inr m)) ks fresh))

  pub Inserts-Elem :
      (set ks set' : List A) (a : A) → Inserts set ks set' → Elem a set' → Elem a ks ⊎ Elem a set
  unfolding Inserts
  Inserts-Elem set [] set' a h m = inr (subst (Elem a) (sym h) m)
  Inserts-Elem set (k ∷ ks) set' a h m = elim (Inserts-Elem (k ∷ set) ks set' a h.1 m) [
    | inl n ↦ inl (inr n)
    | inr (inl e) ↦ inl (inl e)
    | inr (inr n) ↦ inr n
  ]

  pub length-Inserts :
      (set ks set' : List A) → Inserts set ks set' → length set' ≡ length ks + length set
  unfolding Inserts
  length-Inserts set [] set' h = omega (arith, ap length h)
  length-Inserts set (k ∷ ks) set' h = omega (arith, length-Inserts (k ∷ set) ks set' h.1)

  module _ (eq : A → A → Bool) (eq_iff : (a b : A) → (eq a b ≡ true) ↔ (a ≡ b)) where
    holds-false : (set : List A) (x : A) → holds eq set x ≡ false → Elem x set → ⊥
    unfolding holds
    holds-false [] x h m = absurd m
    holds-false (y ∷ set) x h (inl e) =
        differs ((eq_iff y x).1 (sym e)) (||-false (eq y x) (holds eq set x) h).0
      where
        differs : eq y x ≡ true → eq y x ≡ false → ⊥
        differs p q = cc
    holds-false (y ∷ set) x h (inr m) = holds-false set x (||-false (eq y x) (holds eq set x) h).1 m

    pub holds-true : (set : List A) (x : A) → holds eq set x ≡ true → Elem x set
    unfolding holds
    holds-true [] x h = cc
    holds-true (y ∷ set) x h = elim (Bool-cases (eq y x)) [
      | inl e ↦ inl (sym ((eq_iff y x).0 e))
      | inr e ↦ inr (holds-true set x (rw e at h))
    ]

    pub insert-Inserts :
        (set : List A) (x : A) (e : ConfigError) (set' : List A)
        → insert eq set x e ≡ ok set'
        → Inserts set (x ∷ []) set'
    unfolding insert Inserts
    insert-Inserts set x e set' h =
        let (new, made) = reject_if-ok (holds eq set x) e (ok (x ∷ set)) h in
        (holds-false set x new, ok-injective (x ∷ set) set' made)

-- What a client contributes to each set.
abbrev pub indices_of : ClientKeyType → List ℕ
indices_of (derived i) = i ∷ []
indices_of (exported i) = i ∷ []
indices_of (imported var) = []

abbrev pub env_vars_of : ClientKeyType → List (List U8)
env_vars_of (derived i) = []
env_vars_of (exported i) = []
env_vars_of (imported var) = var ∷ []

abbrev pub client_indices : ClientConfig → List ℕ
client_indices c = indices_of c.client_master_key

abbrev pub client_env_vars : ClientConfig → List (List U8)
client_env_vars c = env_vars_of c.client_master_key

abbrev pub client_names : ClientConfig → List (List U8)
client_names c = c.name ∷ []

abbrev pub client_ids : ClientConfig → List (List U8)
client_ids c = c.key_server_object_id ∷ c.package_ids

-- The four sets after some clients.
pub record Grows (names : List (List U8)) (indices : List ℕ) (vars ids : List (List U8))
    (seen seen' : Seen) : Type 0 where
  pub by_names : Inserts seen.names names seen'.names
  pub by_indices : Inserts seen.derivation_indices indices seen'.derivation_indices
  pub by_vars : Inserts seen.env_vars vars seen'.env_vars
  pub by_ids : Inserts seen.obj_ids ids seen'.obj_ids

pub insert_packages-Inserts :
    (pkgs set set' : List (List U8)) → insert_packages pkgs set ≡ ok set' → Inserts set pkgs set'
unfolding insert_packages Inserts
insert_packages-Inserts [] set set' h = ok-injective set set' h
insert_packages-Inserts (pkg ∷ pkgs) set set' h =
    let (s, e, rest) = >>=-ok (insert bytes_eq set pkg duplicate_package) _ h in
    let (new, same) = insert-Inserts bytes_eq bytes_eq_iff set pkg duplicate_package s e in
    (new, subst (λ z. Inserts z pkgs set') (sym same) (insert_packages-Inserts pkgs s set' rest))

pub nat_eq_iff : (a b : ℕ) → (nat_eq a b ≡ true) ↔ (a ≡ b)
nat_eq_iff a b = ==_iff a b

pub insert_key-Grows :
    (key : ClientKeyType) (seen seen' : Seen)
    → insert_key key seen ≡ ok seen'
    → Grows [] (indices_of key) (env_vars_of key) [] seen seen'
unfolding insert_key Inserts
insert_key-Grows (derived i) seen seen' h =
    let (s, e, made) =
      >>=-ok (insert nat_eq seen.derivation_indices i duplicate_derivation_index) _ h in
    subst (Grows [] (i ∷ []) [] [] seen) (ok-injective _ seen' made) (record {
      by_names = refl;
      by_indices =
          insert-Inserts nat_eq nat_eq_iff seen.derivation_indices i duplicate_derivation_index s e;
      by_vars = refl;
      by_ids = refl;
    })
insert_key-Grows (exported i) seen seen' h =
    let (s, e, made) =
      >>=-ok (insert nat_eq seen.derivation_indices i duplicate_derivation_index) _ h in
    subst (Grows [] (i ∷ []) [] [] seen) (ok-injective _ seen' made) (record {
      by_names = refl;
      by_indices =
          insert-Inserts nat_eq nat_eq_iff seen.derivation_indices i duplicate_derivation_index s e;
      by_vars = refl;
      by_ids = refl;
    })
insert_key-Grows (imported var) seen seen' h =
    let (s, e, made) = >>=-ok (insert bytes_eq seen.env_vars var duplicate_env_var) _ h in
    subst (Grows [] [] (var ∷ []) [] seen) (ok-injective _ seen' made) (record {
      by_names = refl;
      by_indices = refl;
      by_vars = insert-Inserts bytes_eq bytes_eq_iff seen.env_vars var duplicate_env_var s e;
      by_ids = refl;
    })
