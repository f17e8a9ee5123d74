-- ===== src/Aggregator/Server/Versions.antt =====
-- The clients that the aggregator serves.
use Prim.Native.String.{String}
use seal.Base.{
  ◌≡◌, ◌↔◌, ◌⊎◌, inl, inr, refl, some, Bool, true, false, not, ok, >>=-ok, ok_or-ok, err,
}
use seal.KeyServer.Errors.{InternalError, invalid_sdk_version, deprecated_sdk_version}
use seal.KeyServer.Common.{Web, ClientSdkType, aggregator, type_script, rust, other}
use seal.Aggregator.Server.{validate_client_sdk_version, reject_if, ok_or, Result}

module _ (w : Web) where
  open w use {VersionReq, Version, parse, matches}

  passes_iff : (t : Bool) → (reject_if (not t) deprecated_sdk_version ≡ ok tt) ↔ (t ≡ true)
  passes_iff true = ((λ h. refl), λ h. refl)
  passes_iff false = ((λ h. cc h), λ h. cc h)

  -- A client's version is accepted exactly when it parses, and the client is the TypeScript SDK in a
  -- version that meets its requirement, or the Rust SDK in one that meets its own.
  pub validate_client_sdk_version_iff :
      (text : String) (sdk_type : ClientSdkType) (ts_requirement rust_requirement : VersionReq)
      → (validate_client_sdk_version w text sdk_type ts_requirement rust_requirement ≡ ok tt) ↔ (
          (version : Version) × (parse text ≡ some version)
          × (((sdk_type ≡ type_script) × (matches ts_requirement version ≡ true))
              ⊎ ((sdk_type ≡ rust) × (matches rust_requirement version ≡ true))))
  unfolding validate_client_sdk_version
  validate_client_sdk_version_iff text type_script ts_requirement rust_requirement = (
    λ h.
        let (version, parsed, h1) = >>=-ok (ok_or (parse text) invalid_sdk_version) _ h in
        (
          version,
          ok_or-ok (parse text) invalid_sdk_version parsed,
          inl (refl, (passes_iff (matches ts_requirement version)).0 h1),
        ),
    λ (version, parsed, which). elim which [
      | inl (same, good) ↦ rw (parsed, good) refl
      | inr (same, good) ↦ cc same
    ],
  )
  validate_client_sdk_version_iff text rust ts_requirement rust_requirement = (
    λ h.
        let (version, parsed, h1) = >>=-ok (ok_or (parse text) invalid_sdk_version) _ h in
        (
          version,
          ok_or-ok (parse text) invalid_sdk_version parsed,
          inr (refl, (passes_iff (matches rust_requirement version)).0 h1),
        ),
    λ (version, parsed, which). elim which [
      | inl (same, good) ↦ cc same
      | inr (same, good) ↦ rw (parsed, good) refl
    ],
  )
  validate_client_sdk_version_iff text aggregator ts_requirement rust_requirement = (
    λ h.
        let (version, parsed, h1) = >>=-ok (ok_or (parse text) invalid_sdk_version) _ h in
        absurd (never h1),
    λ (version, parsed, which). elim which [
      | inl (same, good) ↦ cc same
      | inr (same, good) ↦ cc same
    ],
  )
    where
      never : {e : InternalError} → ◌≡◌ {A = Result InternalError (Unit {0})} (err e) (ok tt) → ⊥
      never h = cc h
  validate_client_sdk_version_iff text other ts_requirement rust_requirement = (
    λ h.
        let (version, parsed, h1) = >>=-ok (ok_or (parse text) invalid_sdk_version) _ h in
        absurd (never h1),
    λ (version, parsed, which). elim which [
      | inl (same, good) ↦ cc same
      | inr (same, good) ↦ cc same
    ],
  )
    where
      never : {e : InternalError} → ◌≡◌ {A = Result InternalError (Unit {0})} (err e) (ok tt) → ⊥
      never h = cc h
