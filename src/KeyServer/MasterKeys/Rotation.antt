-- ===== src/KeyServer/MasterKeys/Rotation.antt =====
-- A committee server serves the share of the current version, before and after a rotation.
use seal.Base.{
  ok-injective, ℕ, ◌+◌, ◌-◌, ◌^◌, ◌≡◌, ◌⊎◌, inl, inr, refl, ap, subst, ◌∙◌, List, U8, Option, none,
  some, ◌==◌, ==_iff, &&-elim, ltb, Bool-cases, arith, ok, ok_or-ok, ok_or,
}
use seal.KeyServer.Errors.{failure}
use seal.KeyServer.MasterKeys.{rotation_without_old_share}
use seal.KeyServer.Options.{CommitteeState}
use seal.KeyServer.MasterKeys.{
  CommitteeKeyState, active, rotation, ok, ◌>>=◌, checked_next, is_next, missing_variable,
  cannot_infer_next, Environment, load_active, load_rotation, load_committee, share_at,
}

module _ {Key : Type 0} (env : Environment Key) (derive : List U8 → ℕ → Key) where
  open env use {master_share}

  -- The shares that a state holds are those of the environment for its versions.
  Holds : CommitteeKeyState Key → ℕ → Type 0
  Holds (active share) version = master_share version ≡ some share
  Holds (rotation old next target) version =
      (version + 1 ≡ target)
      × (master_share target ≡ some next)
      × ((share : Key) → old ≡ some share → master_share version ≡ some share)

  one_share :
      (o : Option Key) (k : CommitteeKeyState Key)
      → (ok_or o missing_variable >>= λ share. ok (active share)) ≡ ok k
      → (share : Key) × (o ≡ some share) × (active share ≡ k)
  one_share none k h = cc
  one_share (some share) k h = (share, refl, cc)

  two_shares :
      (o old : Option Key) (target : ℕ) (k : CommitteeKeyState Key)
      → (ok_or o missing_variable >>= λ next. ok (rotation old next target)) ≡ ok k
      → (next : Key) × (o ≡ some next) × (rotation old next target ≡ k)
  two_shares none old target k h = cc
  two_shares (some next) old target k h = (next, refl, cc)

  load_rotation-Holds :
      (version target : ℕ) (k : CommitteeKeyState Key)
      → load_rotation env derive version target ≡ ok k
      → Holds k version
  unfolding load_rotation Holds
  load_rotation-Holds version target k h = elim (Bool-cases (target == 0)) [
    | inl z ↦ cc (rw z at h)
    | inr nz ↦
        let h1 = rw nz at h in
        elim (Bool-cases (version == target)) [
          | inl e ↦
              let (share, has, made) = one_share (master_share target) k (rw e at h1) in
              subst (λ s. Holds s version) made
                (ap master_share ((==_iff version target).0 e) ∙ has)
          | inr ne ↦
              let h2 = rw ne at h1 in
              elim (Bool-cases (version == target - 1)) [
                | inl e ↦
                    let (next, has, made) =
                      two_shares (master_share target) (master_share version) target k
                        (rw e at h2) in
                    let before : version + 1 ≡ target =
                      ground (arith, nz, (==_iff version (target - 1)).0 e) in
                    subst (λ s. Holds s version) made (before, has, λ share p. p)
                | inr ne' ↦ cc (rw ne' at h2)
              ]
        ]
  ]

  next_only :
      (version : ℕ) (k : CommitteeKeyState Key)
      → (ok_or (checked_next version) cannot_infer_next >>= λ target.
          ok_or (master_share target) missing_variable >>= λ next. ok (rotation none next target))
        ≡ ok k
      → Holds k version
  unfolding Holds
  next_only version k h = elim (Bool-cases (ltb (version + 1) (2 ^ 32))) [
    | inl fits ↦
        let (next, has, made) =
          two_shares (master_share (version + 1)) none (version + 1) k (rw fits at h) in
        subst (λ s. Holds s version) made (refl, has, λ share p. cc)
    | inr over ↦ cc (rw over at h)
  ]

  load_active-Holds :
      (version : ℕ) (k : CommitteeKeyState Key)
      → load_active env derive version ≡ ok k
      → Holds k version
  unfolding load_active Holds
  load_active-Holds version k h = from (master_share version) refl h
    where
      from :
          (o : Option Key)
          → master_share version ≡ o
          → (elim o [
            | some share ↦ ok (active share)
            | none ↦ ok_or (checked_next version) cannot_infer_next >>= λ target.
                ok_or (master_share target) missing_variable >>= λ next.
                ok (rotation none next target)
          ])
            ≡ ok k
          → Holds k version
      from none e h' = next_only version k h'
      from (some share) e h' = subst (λ s. Holds s version) (ok-injective (active share) k h') e

  load_committee-Holds :
      (mode : CommitteeState) (version : ℕ) (k : CommitteeKeyState Key)
      → load_committee env derive mode version ≡ ok k
      → Holds k version
  unfolding load_committee
  load_committee-Holds CommitteeState.active version k h = load_active-Holds version k h
  load_committee-Holds (CommitteeState.rotation target) version k h =
      load_rotation-Holds version target k h

  -- The state is one of a rotation.
  abbrev pub IsRotation : CommitteeKeyState Key → Type 0
  IsRotation (active share) = ⊥
  IsRotation (rotation old next target) = Unit {0}

  share_at-Holds :
      (k : CommitteeKeyState Key) (version current : ℕ) (share : Key)
      → Holds k version
      → (current ≡ version) ⊎ IsRotation k
      → share_at k current ≡ ok share
      → master_share current ≡ some share
  unfolding share_at Holds
  share_at-Holds (active s) version current share h (inl e) r =
      rw e (h ∙ ap some (ok-injective s share r))
  share_at-Holds (active s) version current share h (inr bad) r = absurd bad
  share_at-Holds (rotation old next target) version current share (before, has, olds) w r =
      elim (Bool-cases (current == target)) [
        | inl e ↦
            ap master_share ((==_iff current target).0 e)
            ∙ has
            ∙ ap some (ok-injective next share (rw e at r))
        | inr ne ↦
            let r1 = rw ne at r in
            elim (Bool-cases (is_next current target)) [
              | inl n ↦
                  let (p, q) = &&-elim (ltb (current + 1) (2 ^ 32)) (current + 1 == target) n in
                  let same : current ≡ version =
                    omega (arith, before, (==_iff (current + 1) target).0 q) in
                  ap master_share same
                  ∙ olds share (ok_or-ok old (failure rotation_without_old_share) (rw n at r1))
              | inr nn ↦ cc (rw nn at r1)
            ]
      ]

  -- After a committee server has ok its shares for a version, whatever version is current when a
  -- share is asked for: what `share_at` returns is the environment's share of the current version, if
  -- that is the version of the load, or the server was left in a rotation.
  pub share_at-load_committee :
      (mode : CommitteeState) (version current : ℕ) (k : CommitteeKeyState Key) (share : Key)
      → load_committee env derive mode version ≡ ok k
      → (current ≡ version) ⊎ IsRotation k
      → share_at k current ≡ ok share
      → master_share current ≡ some share
  share_at-load_committee mode version current k share h w r =
      share_at-Holds k version current share (load_committee-Holds mode version k h) w r
