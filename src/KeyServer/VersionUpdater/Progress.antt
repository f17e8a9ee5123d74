-- ===== src/KeyServer/VersionUpdater/Progress.antt =====
-- crates/key-server/src/server.rs: the version that requests read during a rotation, and the keys that
-- it selects.
use seal.Base.{
  ℕ, ◌+◌, ◌≡◌, ◌<◌, ◌^◌, ◌⊎◌, inl, inr, List, [], ◌∷◌, ◌++◌, true, false, Option, ok, All, sym,
  ==_iff, ◌∙◌, ap, ◌==◌, Bool-cases, refl, arith, Bool,
}
use seal.KeyServer.MasterKeys.{rotation, is_next, share_at}
use seal.KeyServer.VersionUpdater.{
  watching, finished, Updater, observe, Step, changed, closed, Reach, here, next, observe_all,
  Observation, version_changed, panicked, channel_closed,
}

-- The version one before the target is on the chain.
abbrev pub IsBefore : ℕ → Observation → Type 0
IsBefore target (version_changed version valid) = version + 1 ≡ target
IsBefore target channel_closed = ⊥

-- The target without the public key of the next share, any other version, or a closed channel.
abbrev pub IsUnexpected : ℕ → Observation → Type 0
IsUnexpected target (version_changed version valid) =
    ((version ≡ target) × (valid ≡ false))
    ⊎ (((version ≡ target) → ⊥) × ((version + 1 ≡ target) → ⊥))
IsUnexpected target channel_closed = Unit {0}

-- The state that a sequence of observations leads to.
abbrev pub IsOutcome : ℕ → ℕ → List Observation → Updater → Type 0
IsOutcome target start seen u =
    ((u.task ≡ watching) × (u.committee_version ≡ start) × All (IsBefore target) seen)
    ⊎ ((u.task ≡ finished)
        × (u.committee_version ≡ target)
        × (earlier : List Observation) × (seen ≡ version_changed target true ∷ earlier)
        × All (IsBefore target) earlier)
    ⊎ ((u.task ≡ panicked)
        × (u.committee_version ≡ start)
        × (o : Observation) × (earlier : List Observation) × (seen ≡ o ∷ earlier)
        × IsUnexpected target o
        × All (IsBefore target) earlier)

running_only :
    {target start : ℕ} {seen : List Observation} (u : Updater)
    → u.task ≡ watching
    → IsOutcome target start seen u
    → (u.committee_version ≡ start) × All (IsBefore target) seen
running_only u running (inl (w, at, all)) = (at, all)
running_only u running (inr (inl (f, moved, earlier, shown, all))) =
    absurd (clash (sym f ∙ running))
  where
    clash : finished ≡ watching → ⊥
    clash h = cc
running_only u running (inr (inr (p, at, o, earlier, shown, other, all))) =
    absurd (clash (sym p ∙ running))
  where
    clash : panicked ≡ watching → ⊥
    clash h = cc

is_next-before : (v target : ℕ) → is_next v target ≡ true → v + 1 ≡ target
is_next-before v target h = ground (arith, h)

not-is_next : (v target : ℕ) → target < 2 ^ 32 → is_next v target ≡ false → (v + 1 ≡ target) → ⊥
not-is_next v target fits h e = ground (arith, h, fits, e)

observe-IsOutcome :
    (target start version : ℕ) (valid : Bool) (seen : List Observation) (u : Updater)
    → target < 2 ^ 32
    → u.task ≡ watching
    → u.committee_version ≡ start
    → All (IsBefore target) seen
    → IsOutcome target start (version_changed version valid ∷ seen) (observe target valid version u)
unfolding observe
observe-IsOutcome target start version valid seen u fits running at all =
    elim (Bool-cases (version == target)) [
      | inl reached ↦
          let same = (==_iff version target).0 reached in
          elim (Bool-cases valid) [
            | inl good ↦
                rw (reached, good)
                  (inr (inl (refl, refl, seen, ap (λ n. version_changed n true ∷ seen) same, all)))
            | inr bad ↦
                rw (reached, bad)
                  (inr (
                    inr
                      (refl, at, version_changed version false, seen, refl, inl (same, refl), all)))
          ]
      | inr other ↦
          let differs : (version ≡ target) → ⊥ = λ e. ground (arith, other, e) in
          elim (Bool-cases (is_next version target)) [
            | inl before ↦
                rw (other, before) (inl (running, at, (is_next-before version target before, all)))
            | inr skipped ↦
                rw (other, skipped)
                  (inr (
                    inr (
                      refl,
                      at,
                      version_changed version valid,
                      seen,
                      refl,
                      inr (differs, not-is_next version target fits skipped),
                      all,
                    )))
          ]
    ]

Step-IsOutcome :
    {target start : ℕ} {seen : List Observation} {o : Observation} {u v : Updater}
    → target < 2 ^ 32
    → Step target o u v
    → IsOutcome target start seen u
    → IsOutcome target start (o ∷ seen) v
Step-IsOutcome {target} {start} {seen} fits (changed u valid version running) h =
    let (at, all) = running_only u running h in
    observe-IsOutcome target start version valid seen u fits running at all
Step-IsOutcome {target} {start} {seen} fits (closed u running) h =
    let (at, all) = running_only u running h in
    inr (inr (refl, at, channel_closed, seen, refl, tt, all))

Reach-IsOutcome :
    {target : ℕ} {u : Updater} {seen : List Observation} {v : Updater}
    → target < 2 ^ 32
    → u.task ≡ watching
    → Reach target u seen v
    → IsOutcome target u.committee_version seen v
Reach-IsOutcome fits watches here = inl (watches, refl, tt)
Reach-IsOutcome fits watches (next r step) =
    Step-IsOutcome fits step (Reach-IsOutcome fits watches r)

-- From the start of a rotation whose target is below 2^32, the state that the task reaches is one of
-- three, by what the chain has shown. While it was the version one before the target each time, the
-- task watches and the version is that of the start. If then the target came with the public key of
-- the next share, the task has finished and the version is the target. If then anything else came,
-- the task has panicked and the version is that of the start. A server that had a key at the start
-- has that key until the task has finished, and the next share once it has.
pub share_at-Reach :
    {Key : Type 0} (old : Option Key) (new key : Key) (target : ℕ) (seen : List Observation)
    (start reached : Updater)
    → target < 2 ^ 32
    → start.task ≡ watching
    → share_at (rotation old new target) start.committee_version ≡ ok key
    → Reach target start seen reached
    → IsOutcome target start.committee_version seen reached
      × ((reached.task ≡ finished → ⊥)
          → share_at (rotation old new target) reached.committee_version ≡ ok key)
      × (reached.task ≡ finished
          → share_at (rotation old new target) reached.committee_version ≡ ok new)
unfolding share_at
share_at-Reach old new key target seen start reached fits watches has r =
    let outcome = Reach-IsOutcome fits watches r in (outcome, before outcome, after outcome)
  where
    before :
        IsOutcome target start.committee_version seen reached
        → (reached.task ≡ finished → ⊥)
        → share_at (rotation old new target) reached.committee_version ≡ ok key
    before (inl (w, at, all)) going = ap (share_at (rotation old new target)) at ∙ has
    before (inr (inl (f, moved, earlier, shown, all))) going = absurd (going f)
    before (inr (inr (p, at, o, earlier, shown, other, all))) going =
        ap (share_at (rotation old new target)) at ∙ has

    at_target : share_at (rotation old new target) target ≡ ok new
    at_target = rw ((==_iff target target).1 refl) refl

    after :
        IsOutcome target start.committee_version seen reached
        → reached.task ≡ finished
        → share_at (rotation old new target) reached.committee_version ≡ ok new
    after (inl (w, at, all)) f = absurd (clash (sym w ∙ f))
      where
        clash : watching ≡ finished → ⊥
        clash h = cc
    after (inr (inl (f, at, earlier, shown, all))) e =
        ap (share_at (rotation old new target)) at ∙ at_target
    after (inr (inr (p, at, o, earlier, shown, other, all))) f = absurd (clash (sym p ∙ f))
      where
        clash : panicked ≡ finished → ⊥
        clash h = cc

observe_target :
    (target : ℕ) (u : Updater)
    → observe target true target u ≡ record { committee_version = target; task = finished }
unfolding observe
observe_target target u = rw ((==_iff target target).1 refl) refl

observe_all_ended :
    (target : ℕ) (later : List ℕ)
    → observe_all target true later (record { committee_version = target; task = finished })
      ≡ record { committee_version = target; task = finished }
unfolding observe_all
observe_all_ended target [] = refl
observe_all_ended target (v ∷ later) = refl

-- If the chain shows versions one before the target any number of times, and then the target with
-- the public key of the next share, the task finishes with the target as the version.
pub observe_all-finished :
    (target : ℕ) (versions later : List ℕ) (u : Updater)
    → u.task ≡ watching
    → target < 2 ^ 32
    → All (λ v. v + 1 ≡ target) versions
    → observe_all target true (versions ++ (target ∷ later)) u
      ≡ record { committee_version = target; task = finished }
unfolding observe_all observe
observe_all-finished target [] later u watches fits before =
    rw watches (
      ap (observe_all target true later) (observe_target target u) ∙ observe_all_ended target later)
observe_all-finished target (v ∷ versions) later u watches fits before =
    let not_yet : (v == target) ≡ false = ground (arith, before.0) in
    let is_before : is_next v target ≡ true = ground (arith, before.0, fits) in
    rw (watches, not_yet, is_before)
      (observe_all-finished target versions later u watches fits before.1)
