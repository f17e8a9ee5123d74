-- ===== src/Elgamal.antt =====
-- crates/crypto/src/elgamal.rs: ElGamal encryption of group elements and the aggregation of
-- encrypted shares. The group and `Poly::recover_c0` of `fastcrypto_tbls` are parameters.
pub mod Inverse
pub mod Aggregation
pub mod Refusal
use seal.Base.{
  ℕ, zero, suc, ◌+◌, ◌%◌, ◌^◌, List, [], ◌∷◌, map, length, Bool, true, false, ◌||◌, ltb, ◌==◌,
  Outcome, ok, invalid_input, reject_if, ◌>>=◌, ◌>>◌,
}
use seal.External.{Group}

-- `Encryption(pub G, pub G)`
pub record Encryption (E : Type 0) : Type 0 where
  pub first : E
  pub second : E

module _ {S : Type 0} (g : Group S) where
  open g use {Element, generator, plus, minus, times}

  -- The public key of a drawn secret key.
  unfoldable pub public_key : S → Element
  public_key sk = times generator sk

  -- `encrypt`, where `r` is drawn by the caller's generator.
  unfoldable pub encrypt : S → Element → Element → Encryption Element
  encrypt r msg pk = record { first = times generator r; second = plus (times pk r) msg }

  unfoldable pub decrypt : S → Encryption Element → Element
  decrypt sk e = minus e.second (times e.first sk)

-- `genkey`: the secret key that was drawn, its public key in one group and its verification key in the
-- other.
unfoldable pub genkey : {S : Type 0} (g vg : Group S) → S → S × Group.Element g × Group.Element vg
genkey g vg sk = (sk, public_key g sk, public_key vg sk)

-- `seen_ids.insert(id)` fails.
abbrev pub seen : ℕ → List ℕ → Bool
seen id [] = false
seen id (x ∷ xs) = (id == x) || seen id xs

module _ {E : Type 0} where
  -- The loop over the shares: the values of the two halves with their indices.
  unfoldable pub collect_shares :
      List ℕ → List (ℕ × Encryption E) → Outcome (List (ℕ × E) × List (ℕ × E))
  collect_shares seen_ids [] = ok ([], [])
  collect_shares seen_ids ((id, enc) ∷ shares) = do
    reject_if ((id == 65535) || seen id seen_ids) invalid_input
    let index = id + 1
    (c1_shares, c2_shares) ← collect_shares (id ∷ seen_ids) shares
    ok ((index, enc.first) ∷ c1_shares, (index, enc.second) ∷ c2_shares)

  unfoldable pub aggregate_encrypted :
      (ℕ → List (ℕ × E) → Outcome E) → ℕ → List (ℕ × Encryption E) → Outcome (Encryption E)
  aggregate_encrypted recover_c0 threshold encrypted_shares = do
    reject_if
        ((threshold == 0)
          || ltb 65535 (length encrypted_shares)
          || ltb (length encrypted_shares % 2 ^ 16) threshold)
        invalid_input
    (c1_shares, c2_shares) ← collect_shares [] encrypted_shares
    result_c1 ← recover_c0 threshold c1_shares
    result_c2 ← recover_c0 threshold c2_shares
    ok (record { first = result_c1; second = result_c2 })
