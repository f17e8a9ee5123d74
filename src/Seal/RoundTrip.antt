-- ===== src/Seal/RoundTrip.antt =====
-- An object that was encrypted for servers opens with user secret keys for enough of them.
use seal.Base.{
  ◌≤◌, ◌<◌, ◌≡◌, sym, ap, ◌∙◌, List, map, length, length-map, length-positions, filter, Elem,
  Option, some, none, U8, ok, arith, ltb, ==_iff, false, true, ◌==◌, ◌⊎◌, inl, inr,
}
use seal.External.{Group, Bls12381, Primitives}
use seal.Ibe.{Info, extract}
use seal.Dem.{EncryptionInput}
use seal.Dem.RoundTrip.{payload, decrypt_lem}
use seal.Seal.{
  Rng, EncryptedObject, create_full_id, contains_key, dem, seal_encrypt, seal_decrypt,
  service_indices, recover_base_key,
}
use seal.Seal.Rows.{
  Server, Sealing, sealed_object, key_for, ids_of, keys_of, cts, base_key, full_id, ids-rows,
  length-cts, derive_key-ok, seal_encrypt-ok,
}
use seal.Seal.Consistency.{combine_and_check_share_consistency-ok}
use seal.Seal.Opening.{
  Valid, services, share_for, known, shares-ok, length-known, combine_and_verify_nonce-ok,
}

module _ (b : Bls12381) (c : Primitives) where
  open b use {g1, g2}

  enough_known :
      (s : Sealing b c) (keys : List U8 → Option (Group.Element g1))
      → s.threshold.val
        ≤ length (filter (λ (v : Server b). contains_key keys v.object_id) s.servers)
      → s.threshold.val ≤ length (filter (known b c s keys) (services b c s))
  enough_known s keys h = omega (arith, h, length-known b c s keys)

  at_least :
      (s : Sealing b c) (keys : List U8 → Option (Group.Element g1))
      → s.threshold.val ≤ length (filter (known b c s keys) (services b c s))
      → ltb (length (service_indices b c keys (services b c s))) s.threshold.val ≡ false
  unfolding service_indices
  at_least s keys h =
      let count = length-positions (known b c s keys) 0 (services b c s) in rw count (ground arith)

  recover_base_key-ok :
      (s : Sealing b c) (keys : List U8 → Option (Group.Element g1))
      (pks : Option (List (Group.Element g2)))
      → (pks ≡ none) ⊎ (pks ≡ some (keys_of b c s.servers))
      → s.threshold.val ≤ length (filter (known b c s keys) (services b c s))
      → recover_base_key b c
          (sealed_object b c s)
          (full_id b c s)
          (map (share_for b c s) (filter (known b c s keys) (services b c s)))
          pks
        ≡ ok (base_key b c s)
  unfolding recover_base_key
  recover_base_key-ok s keys pks (inl e) enough =
      rw e (combine_and_verify_nonce-ok b c s keys enough)
  recover_base_key-ok s keys pks (inr e) enough =
      rw e (combine_and_check_share_consistency-ok b c s keys enough)

  pub seal_decrypt-sealed :
      (s : Sealing b c) (keys : List U8 → Option (Group.Element g1))
      (pks : Option (List (Group.Element g2)))
      → (pks ≡ none) ⊎ (pks ≡ some (keys_of b c s.servers))
      → Valid b c s keys
      → s.threshold.val
        ≤ length (filter (λ (v : Server b). contains_key keys v.object_id) s.servers)
      → seal_decrypt b c (sealed_object b c s) keys pks ≡ ok (payload s.input (key_for b c s dem))
  unfolding seal_decrypt
  seal_decrypt-sealed s keys pks known_pks valid enough =
      let sizes : (length (cts b c s) == length (services b c s)) ≡ true =
        (==_iff (length (cts b c s)) (length (services b c s))).1 (
          length-cts b c s
          ∙ sym (ap length (ids-rows b c s))
          ∙ length-map (λ (i : Info). i.0) (services b c s)) in
      let count : ltb (length (service_indices b c keys (services b c s))) s.threshold.val ≡ false =
        at_least s keys (enough_known s keys enough) in
      rw
        (
          sizes,
          count,
          shares-ok b c s keys valid,
          recover_base_key-ok s keys pks known_pks (enough_known s keys enough),
        )
        (rw
          (
            ids-rows b c s,
            derive_key-ok b c dem (base_key b c s) (cts b c s) s.threshold (ids_of b c s.servers)
                (length-cts b c s),
          )
          (decrypt_lem c s.input (key_for b c s dem)))

  -- For 1 to 255 servers and a threshold between 1 and their number, `seal_encrypt` returns an object
  -- and a key. If the user secret keys at hand are the extracted ones, and at least `threshold` of the
  -- servers have one, then `seal_decrypt` of that object, without public keys or with the servers',
  -- returns the message, or the key in plain mode.
  pub seal_decrypt-seal_encrypt :
      (g : Rng b) (rng : Rng.State g) (package_id id : List U8) (servers : List (Server b))
      (threshold : U8) (input : EncryptionInput) (keys : List U8 → Option (Group.Element g1))
      (pks : Option (List (Group.Element g2)))
      → length servers ≤ 255
      → 0 < threshold.val
      → threshold.val ≤ length servers
      → (pks ≡ none) ⊎ (pks ≡ some (keys_of b c servers))
      → ((v : Server b)
          → Elem v servers
          → (usk : Group.Element g1) → keys v.object_id ≡ some usk
          → usk ≡ extract b v.master_key (create_full_id package_id id))
      → threshold.val ≤ length (filter (λ (v : Server b). contains_key keys v.object_id) servers)
      → (object : EncryptedObject b) × (key : List U8) × (seal_encrypt b c g rng package_id id
            (ids_of b c servers)
            (keys_of b c servers)
            threshold
            input
          ≡ ok (object, key))
        × (seal_decrypt b c object keys pks ≡ ok (payload input key))
  seal_decrypt-seal_encrypt g rng package_id id servers threshold input keys pks few pos le
        known_pks valid enough =
      let s : Sealing b c = record {
        g = g;
        rng = rng;
        servers = servers;
        threshold = threshold;
        package_id = package_id;
        id = id;
        input = input;
        few = few;
        pos = pos;
        le = le;
      } in
      (
        sealed_object b c s,
        key_for b c s dem,
        seal_encrypt-ok b c s,
        seal_decrypt-sealed s keys pks known_pks valid enough,
      )
