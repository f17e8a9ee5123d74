-- ===== src/KeyServer/Requests/Certificates.antt =====
-- Which certificates and signatures the key server accepts.
use Prim.Native.String.{String}
use seal.Base.{
  ◌-◌, ℕ, ◌+◌, ◌*◌, ◌≤◌, ◌≡◌, ◌↔◌, List, some, Bool, true, false, not, Bytes, ok, >>=-ok, reject_if,
  U8, ok_or, refl, arith, ok_or-ok, reject_if-ok, ltb, ◌∙◌, ap,
}
use seal.KeyServer.Errors.{
  InternalError, failure, invalid_certificate, invalid_signature, invalid_session_signature,
}
use seal.KeyServer.Time.{from_mins, checked_duration_since}
use seal.KeyServer.Time.Bounds.{from_mins_iff, checked_duration_since_iff}
use seal.KeyServer.Requests.{Platform, Certificate, has_address_aliases, check_signature}

module _ (p : Platform) where
  open p use {
    Signature, derive_alias_id, object_exists, verify_personal_message, verify, signed_message,
  }

  -- The address has an alias object, or it is known to have none.
  has_address_aliases-ok :
      (user : Bytes) (aliased : Bool)
      → (has_address_aliases p user ≡ ok aliased)
        ↔ ((id : Bytes) × (derive_alias_id user ≡ some id) × (object_exists id ≡ some aliased))
  unfolding has_address_aliases
  has_address_aliases-ok user aliased = (
    λ h.
        let (id, derived, h1) = >>=-ok (ok_or (derive_alias_id user) invalid_signature) _ h in
        (
          id,
          ok_or-ok (derive_alias_id user) invalid_signature derived,
          ok_or-ok (object_exists id) (failure "Failed to check address aliases: {}") h1,
        ),
    λ (id, derived, exists). rw (derived, exists) refl,
  )

  passes_not : (t : Bool) (e : InternalError) → reject_if (not t) e ≡ ok tt → t ≡ true
  passes_not true e h = refl
  passes_not false e h = cc h

  -- For a time to live of at most 1092 minutes: the signatures are accepted exactly when the time to
  -- live is allowed, the certificate was made in the past and has not expired, the user has no
  -- address alias, the user signed the text for this package, session key and period, and the
  -- session key signed the request.
  pub check_signature_iff :
      (overflow_checks : Bool) (session_key_ttl_max now : ℕ) (signed_msg : List U8)
      (session_sig : Signature) (cert : Certificate p) (package_name : String)
      → cert.ttl_min ≤ 1092
      → (check_signature p overflow_checks session_key_ttl_max now signed_msg session_sig cert
            package_name
          ≡ ok tt)
        ↔ ((cert.ttl_min * 60 * 1000 ≤ session_key_ttl_max)
            × (cert.creation_time ≤ now)
            × (now ≤ cert.creation_time + cert.ttl_min * 60 * 1000)
            × ((id : Bytes) × (derive_alias_id cert.user ≡ some id)
                × (object_exists id ≡ some false))
            × (verify_personal_message cert.signature
                  (signed_message package_name cert.session_vk cert.creation_time cert.ttl_min)
                  cert.user
                ≡ true)
            × (verify cert.session_vk signed_msg session_sig ≡ true))
  unfolding check_signature
  check_signature_iff overflow_checks session_key_ttl_max now signed_msg session_sig cert
        package_name short =
      let ttl = cert.ttl_min * 60 * 1000 in
      let msg = signed_message package_name cert.session_vk cert.creation_time cert.ttl_min in
      let signed = verify_personal_message cert.signature msg cert.user in
      let requested = verify cert.session_vk signed_msg session_sig in
      let period : from_mins overflow_checks cert.ttl_min ≡ ok ttl =
        (from_mins_iff overflow_checks cert.ttl_min (omega (arith, short))).1 short in
      (
        λ h0.
            let h = rw period at h0 in
            let (allowed, h1) =
              reject_if-ok (ltb session_key_ttl_max ttl) invalid_certificate _ h in
            let (duration, past, h2) =
              >>=-ok (ok_or (checked_duration_since now cert.creation_time) invalid_certificate) _
                h1 in
            let since =
              (checked_duration_since_iff now cert.creation_time duration).0 (
                ok_or-ok (checked_duration_since now cert.creation_time) invalid_certificate
                  past) in
            let (valid, h3) = reject_if-ok (ltb ttl duration) invalid_certificate _ h2 in
            let (aliased, known, h4) = >>=-ok (has_address_aliases p cert.user) _ h3 in
            let (no_alias, h5) = reject_if-ok aliased invalid_signature _ h4 in
            let (by_user, h6) = reject_if-ok (not signed) invalid_signature _ h5 in
            (
              ground (arith, allowed),
              omega (arith, since),
              ground (arith, since, valid),
              (has_address_aliases-ok cert.user false).0 (known ∙ ap (λ t. ok t) no_alias),
              ground (arith, by_user),
              passes_not requested invalid_session_signature h6,
            ),
        λ (allowed, past, valid, none_there, by_user, by_session).
            let not_over : ltb session_key_ttl_max ttl ≡ false = ground (arith, allowed) in
            let duration = now - cert.creation_time in
            let since =
              (checked_duration_since_iff now cert.creation_time duration).1
                (omega (arith, past)) in
            let not_late : ltb ttl duration ≡ false = ground (arith, past, valid) in
            let alias = (has_address_aliases-ok cert.user false).1 none_there in
            rw (period, not_over, since, not_late, alias, by_user, by_session) refl,
      )
