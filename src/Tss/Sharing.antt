-- ===== src/Tss/Sharing.antt =====
-- Threshold sharing as a whole: enough genuine shares give the secret back.
use seal.Base.{
  ℕ, ◌+◌, ◌≤◌, ◌<◌, List, [], ◌∷◌, map, length, length-map, get_elem?, zip, All, All-get, All-of,
  All-map, Elem, Distinct, Elem-zip-map, Elem-get_elem?, Distinct-map_injective, U8, u8, some,
  false, ◌≡◌, ◌≢◌, refl, sym, ap, subst, ◌∙◌, arith, ok, ◌>>=◌, traverse-range, traverse-map,
  ok-injective, ◌⊎◌, inl, inr,
}
use seal.Gf256.{Gf256}
use seal.Polynomial.{Polynomial, evaluate}
use seal.Utils.{is_empty}
use seal.Utils.Transpose.{index-map}
use seal.Tss.{Share, SecretSharing, bytes_at, combine_byte, combine, split}
use seal.Tss.Checks.{All-map_iff}
use seal.Tss.Byte.{index_of}
use seal.Tss.Recovery.{IsValid, combine_byte-ok}
use seal.Tss.Splitting.{
  polynomials, length-polynomials, polynomials_size, polynomials_at_zero, split_lem, split_refused,
  indices_to, indices-nonzero, length-indices,
}

-- A share of the secret that the polynomials `fs` hide, one for each byte.
abbrev pub IsShareOf : List Polynomial → Share → Type 0
IsShareOf fs s = s.1 ≡ map (λ f. evaluate f s.0) fs

unfoldable pub byte_share : Polynomial → Share → U8 × U8
byte_share f s = (s.0, evaluate f s.0)

pub bytes_at-ok :
    (fs : List Polynomial) (shares : List Share) (j : ℕ) (f : Polynomial)
    → All (IsShareOf fs) shares
    → get_elem? fs j ≡ some f
    → bytes_at shares j ≡ ok (map (byte_share f) shares)
unfolding bytes_at byte_share
bytes_at-ok fs shares j f genuine at = traverse-map _ (byte_share f) shares (
    All-of _ shares (λ s m.
      rw (All-get (IsShareOf fs) shares s genuine m)
        (rw (index-map (λ g. evaluate g s.0) fs j f at) (unfold byte_share in refl))))

nonempty_map :
    {A B : Type 0} (f : A → B) (xs : List A) → 0 < length xs → is_empty (map f xs) ≡ false
nonempty_map f [] h = absurd (omega arith)
nonempty_map f (x ∷ xs) h = refl

-- A set of shares that `combine` accepts.
pub record IsShareSet (fs : List Polynomial) (shares : List Share) : Type 0 where
  pub nonempty : 0 < length shares
  pub distinct : Distinct (λ (s : Share). s.0) shares
  pub nonzero : All (λ s. s.0 ≢ u8 0) shares
  pub genuine : All (IsShareOf fs) shares
  pub enough : All (λ f. length f ≤ length shares) fs

byte_shares-IsValid :
    (fs : List Polynomial) (shares : List Share) (f : Polynomial)
    → IsShareSet fs shares
    → IsValid (map (byte_share f) shares)
unfolding byte_share
byte_shares-IsValid fs shares f set = record {
  nonempty = nonempty_map (byte_share f) shares set.nonempty;
  distinct =
      Distinct-map_injective (byte_share f) index_of (λ s. s.0) shares (λ a b e. e) set.distinct;
  nonzero = (All-map_iff (byte_share f) (λ s. s.0 ≢ u8 0) shares).1 set.nonzero;
}

pub on_polynomial :
    (f : Polynomial) (shares : List Share)
    → All (λ s. s.1 ≡ evaluate f s.0) (map (byte_share f) shares)
unfolding byte_share
on_polynomial f [] = tt
on_polynomial f (s ∷ shares) = (refl, on_polynomial f shares)

-- Distinct genuine shares, at least as many as each polynomial has coefficients, give the values
-- at zero.
pub combine-ok :
    (fs : List Polynomial) (shares : List Share)
    → IsShareSet fs shares
    → combine (length fs) shares ≡ ok (map (λ f. evaluate f (u8 0)) fs)
unfolding combine
combine-ok fs shares set =
    traverse-range _ (λ f. evaluate f (u8 0)) fs 0
      (λ j f at.
        ap (λ (i : ℕ). bytes_at shares i >>= combine_byte) {x = 0 + j} {y = j} (omega arith)
        ∙ rw (bytes_at-ok fs shares j f set.genuine at) (
            combine_byte-ok f (map (byte_share f) shares) (byte_shares-IsValid fs shares f set)
              (record {
                on_f = on_polynomial f shares;
                enough = omega (
                  arith,
                  length-map (byte_share f) shares,
                  All-get (λ g. length g ≤ length shares) fs f set.enough
                      (Elem-get_elem? fs j f at),
                );
              })))

threshold-cases : (t k : U8) → ((t.val ≡ 0) ⊎ (k.val < t.val)) ⊎ ((0 < t.val) × (t.val ≤ k.val))
threshold-cases t k = omega arith

-- The shares that belong to a sharing, with their indices.
abbrev pub all_shares : SecretSharing → List Share
all_shares s = zip s.indices s.shares

module _ {R : Type 0} (rand : R → Gf256 × R) where
  -- `split` returns, with as many shares as asked for, for a secret of `n` > 0 bytes and every
  -- threshold from 1 to the number of shares.
  pub split-ok :
      (n : ℕ) (rng : R) (secret : List U8) (t k : U8)
      → length secret ≡ n
      → 0 < n
      → 0 < t.val
      → t.val ≤ k.val
      → (result : SecretSharing × R) × (split rand n rng secret t k ≡ ok result)
        × (length result.0.shares ≡ k.val)
  split-ok n rng secret t k size some_bytes pos le = (
    _,
    split_lem rand n rng secret t k size some_bytes pos le,
    length-map (λ i. map (λ f. evaluate f i) (polynomials rand t rng secret)) (indices_to k.val)
        ∙ length-indices k.val,
  )

  -- what `picked` are, in terms of the polynomials
  picked-IsShareSet :
      (rng : R) (secret : List U8) (t k : U8) (picked : List Share)
      → 0 < t.val
      → All
          (λ s. Elem s (
            zip (indices_to k.val) (
              map
                (λ i. map (λ f. evaluate f i) (polynomials rand t rng secret))
                (indices_to k.val))))
          picked
      → Distinct (λ (s : Share). s.0) picked
      → t.val ≤ length picked
      → IsShareSet (polynomials rand t rng secret) picked
  picked-IsShareSet rng secret t k picked pos members distinct enough =
      let fs : List Polynomial = polynomials rand t rng secret in
      let place : (s : Share) → Elem s picked → Elem s.0 (indices_to k.val) × IsShareOf fs s =
        λ s m.
          Elem-zip-map (λ i. map (λ f. evaluate f i) fs) (indices_to k.val) s.0 s.1
            (All-get _ picked s members m) in
      record {
        nonempty = omega arith;
        distinct = distinct;
        nonzero = All-of _ picked (λ s m.
            All-get (λ j. j ≢ u8 0) (indices_to k.val) s.0 (indices-nonzero k) (place s m).0);
        genuine = All-of _ picked (λ s m. (place s m).1);
        enough =
            All-map (λ f (e : length f ≡ t.val). omega arith) fs
              (polynomials_size rand t rng secret pos);
      }

  -- Any set of at least `t` different shares of a secret that `split` made combines to the secret,
  -- whatever the random coefficients are.
  pub combine-split :
      (n : ℕ) (rng : R) (secret : List U8) (t k : U8) (sharing : SecretSharing) (rng' : R)
      (picked : List Share)
      → length secret ≡ n
      → 0 < n
      → split rand n rng secret t k ≡ ok (sharing, rng')
      → All (λ s. Elem s (all_shares sharing)) picked
      → Distinct (λ (s : Share). s.0) picked
      → t.val ≤ length picked
      → combine n picked ≡ ok secret
  combine-split n rng secret t k sharing rng' picked size some_bytes returns members distinct
        enough =
      elim (threshold-cases t k) [
        | inl bad ↦ cc (sym (split_refused rand n rng secret t k bad) ∙ returns)
        | inr fine ↦
            let same =
              ok-injective _ _
                (sym (split_lem rand n rng secret t k size some_bytes fine.0 fine.1) ∙ returns) in
            let set =
              picked-IsShareSet rng secret t k picked fine.0
                (subst (λ (r : SecretSharing × R). All (λ s. Elem s (all_shares r.0)) picked)
                  (sym same) members)
                distinct enough in
            ap (λ (m : ℕ). combine m picked) (sym (length-polynomials rand t rng secret ∙ size))
            ∙ combine-ok (polynomials rand t rng secret) picked set
            ∙ ap ok (polynomials_at_zero rand t rng secret)
      ]
