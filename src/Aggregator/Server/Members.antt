-- ===== src/Aggregator/Server/Members.antt =====
-- The tasks for all the members, in the order of completion: their successes are accepted replies of
-- different parties.
use seal.Base.{
  zero, suc, true, false, Bool, if◌then◌else◌, ℕ, ◌≡◌, ◌≢◌, List, [], ◌∷◌, Bytes, Result, ok, err,
  panic, All, Elem, Distinct, take, map, inl, All-get, suc, inr, sym, ◌∙◌, >>=-ok, refl,
  if◌then◌else◌, Bool-cases, ◌>>=◌, subst, ok-injective,
}
use seal.External.{Group, Bls12381}
use seal.Sdk.{FetchKeyResponse}
use seal.KeyServer.Errors.{error_response, failure}
use seal.KeyServer.Common.{Web}
use Prim.Native.String.{String}
use seal.Aggregator.{verify_decryption_keys, Option, reject_if, not}
use seal.Aggregator.Server.{Relayed, relay, Bool, ok_or}
use seal.Aggregator.Server.Collection.{successes, NoPanic}
use seal.Aggregator.Server.Requests.{
  Member, HttpReply, accept_reply, refused, fetch_from_member, member_task,
}
use seal.Aggregator.Server.Tasks.{
  Returns, Returns->>=, Returns-reject_if, Returns-map_err, Returns-ok_or, accept_reply-Returns,
  accept_reply-ok,
}

Returns-if :
    {E A : Type 0} (t : Bool) (a c : Result E A)
    → Returns a
    → Returns c
    → Returns (if t then a else c)
Returns-if true a c first second = first
Returns-if false a c first second = second

module _ {A B : Type 0} (f : A → Relayed B) where
  -- What every success has.
  pub All-successes {κ} :
      (P : B → Type κ) (xs : List A)
      → ((x : A) → Elem x xs → (y : B) → f x ≡ ok y → P y)
      → All P (successes (map f xs))
  All-successes P [] has = tt
  All-successes P (x ∷ xs) has =
      let rest = All-successes P xs (λ z m. has z (inr m)) in by_result (f x) refl rest
    where
      by_result :
          (r : Relayed B)
          → f x ≡ r
          → All P (successes (map f xs))
          → All P (successes (r ∷ map f xs))
      by_result (ok y) e rest = (has x (inl refl) y e, rest)
      by_result (err y) e rest = rest
      by_result panic e rest = rest

  -- Successes of different elements differ.
  pub Distinct-successes :
      (key : A → ℕ) (key' : B → ℕ) (xs : List A)
      → ((x : A) (y : B) → f x ≡ ok y → key' y ≡ key x)
      → Distinct key xs
      → Distinct key' (successes (map f xs))
  Distinct-successes key key' [] same d = tt
  Distinct-successes key key' (x ∷ xs) same d =
      let rest = Distinct-successes key key' xs same d.1 in by_result (f x) refl rest
    where
      by_result :
          (r : Relayed B)
          → f x ≡ r
          → Distinct key' (successes (map f xs))
          → Distinct key' (successes (r ∷ map f xs))
      by_result (ok y) e rest = (
        All-successes (λ z. key' z ≢ key' y) xs
            (λ z m v h clash.
              All-get (λ k. key k ≢ key x) xs z d.0 m (sym (same z v h) ∙ clash ∙ same x y e)),
        rest,
      )
      by_result (err y) e rest = rest
      by_result panic e rest = rest

  pub NoPanic-map : (xs : List A) → ((x : A) → Returns (f x)) → NoPanic (map f xs)
  NoPanic-map [] all = tt
  NoPanic-map (x ∷ xs) all = (all x, NoPanic-map xs all)

pub All-take {κ} :
    {A : Type 0} (P : A → Type κ) (n : ℕ) (xs : List A) → All P xs → All P (take n xs)
All-take P zero xs all = tt
All-take P (suc n) [] all = tt
All-take P (suc n) (x ∷ xs) all = (all.0, All-take P n xs all.1)

pub Distinct-take :
    {A : Type 0} (key : A → ℕ) (n : ℕ) (xs : List A) → Distinct key xs → Distinct key (take n xs)
Distinct-take key zero xs d = tt
Distinct-take key (suc n) [] d = tt
Distinct-take key (suc n) (x ∷ xs) d =
    (All-take (λ y. key y ≢ key x) n xs d.0, Distinct-take key n xs d.1)

module _ (w : Web) (b : Bls12381) where
  open w use {VersionReq}
  open b use {g1, g2}

  module _ (has_credentials : String → Bool) (send : Member w b → Option (HttpReply w b))
      (requirement : VersionReq) (vk : Group.Element g2) (expected : List Bytes) where
    fetch_from_member-Returns :
        (m : Member w b) → Returns (fetch_from_member w b send requirement vk expected m)
    unfolding fetch_from_member
    fetch_from_member-Returns m =
        Returns->>= (relay (ok_or (send m) (failure "Request failed (req_id: {}): {}")))
          (λ (response : HttpReply w b).
            if response.is_success
            then accept_reply w b requirement vk expected m response
            else err (refused w b response.error_body))
          (Returns-map_err error_response
            (ok_or (send m) (failure "Request failed (req_id: {}): {}"))
            (Returns-ok_or (send m) (failure "Request failed (req_id: {}): {}")))
          (λ response.
            Returns-if response.is_success (accept_reply w b requirement vk expected m response)
              (err (refused w b response.error_body))
              (accept_reply-Returns w b requirement vk expected m response) (λ h. cc h))

    -- Of a member, a reply comes back only with verified keys.
    fetch_from_member-ok :
        (m : Member w b) (reply : FetchKeyResponse (Group.Element g1))
        → fetch_from_member w b send requirement vk expected m ≡ ok reply
        → verify_decryption_keys b reply.decryption_keys m.partial_pk vk expected ≡ ok tt
    unfolding fetch_from_member
    fetch_from_member-ok m reply returns =
        let (response, sent, h1) =
          >>=-ok (relay (ok_or (send m) (failure "Request failed (req_id: {}): {}"))) _ returns in
        elim (Bool-cases response.is_success) [
          | inl p ↦ accept_reply-ok w b requirement vk expected m response reply (rw p at h1)
          | inr p ↦ cc (rw p at h1)
        ]

    pub member_task-Returns :
        (m : Member w b) → Returns (member_task w b has_credentials send requirement vk expected m)
    unfolding member_task
    member_task-Returns m =
        let missing = failure "Missing API credentials config for server '{}' ({})" in
        let fetched = fetch_from_member w b send requirement vk expected m in
        Returns->>= (relay (reject_if (not (has_credentials m.name)) missing))
          (λ u. fetched >>= λ response. ok (m.party_id, response))
          (Returns-map_err error_response (reject_if (not (has_credentials m.name)) missing)
            (Returns-reject_if (not (has_credentials m.name)) missing))
          (λ u.
            Returns->>= fetched (λ response. ok (m.party_id, response))
              (fetch_from_member-Returns m) (λ response h. cc h))

    pub member_task-ok :
        (m : Member w b) (r : ℕ × FetchKeyResponse (Group.Element g1))
        → member_task w b has_credentials send requirement vk expected m ≡ ok r
        → (r.0 ≡ m.party_id)
          × (verify_decryption_keys b r.1.decryption_keys m.partial_pk vk expected ≡ ok tt)
    unfolding member_task
    member_task-ok m r returns =
        let missing = failure "Missing API credentials config for server '{}' ({})" in
        let (u, known, h1) =
          >>=-ok (relay (reject_if (not (has_credentials m.name)) missing)) _ returns in
        let (response, fetched, h2) =
          >>=-ok (fetch_from_member w b send requirement vk expected m) _ h1 in
        subst
          (λ (p : ℕ × FetchKeyResponse (Group.Element g1)).
            (p.0 ≡ m.party_id)
            × (verify_decryption_keys b p.1.decryption_keys m.partial_pk vk expected ≡ ok tt))
          (ok-injective (m.party_id, response) r h2) (refl, fetch_from_member-ok m response fetched)
