-- ===== src/Base/Fallible.antt =====
-- How a Rust call ends: `FastCryptoResult`'s two cases, or a panic (an `unwrap`, an `expect`, an
-- index out of range).
use Prim.Native.Nat.{ℕ, suc, ◌+◌}
use mathlib.Core.Path.{◌≡◌, refl, ap, ◌∙◌}
use mathlib.Core.Option.{Option, none, some}
use native.Mathlib.Omega.{arith}
use mathlib.Core.List.{List, [], ◌∷◌, map}
use mathlib.Core.Logic.{inl, inr}
use mathlib.Core.Bool.{Bool, true, false}
use seal.Base.Lists.{Elem, All, All₂, length, range, get_elem?}

-- The variants of `FastCryptoError` that this code makes.
pub data FastCryptoError : Type 0 where
  invalid_input general_error : FastCryptoError
  invalid_mac invalid_randomness inconsistent_shares : FastCryptoError
  external : FastCryptoError

-- A result with errors `E`, or a panic.
pub data Result {ℓ} (E : Type 0) (A : Type ℓ) : Type ℓ where
  ok : A → Result E A
  err : E → Result E A
  panic : Result E A

-- `FastCryptoResult`
abbrev pub Outcome {ℓ} : Type ℓ → Type ℓ
Outcome A = Result FastCryptoError A

infixl 5 ◌>>=◌ ◌>>◌
abbrev pub ◌>>=◌ {ℓ κ} :
    {E : Type 0} {A : Type ℓ} {B : Type κ} → Result E A → (A → Result E B) → Result E B
ok value >>= next = next value
err reason >>= next = err reason
panic >>= next = panic

abbrev pub ◌>>◌ {ℓ} : {E : Type 0} {B : Type ℓ} → Result E (Unit {0}) → Result E B → Result E B
m >> k = m >>= λ _. k

-- `if b { return Err(e) }`
abbrev pub reject_if : {E : Type 0} → Bool → E → Result E (Unit {0})
reject_if true e = err e
reject_if false e = ok tt

-- `.expect(…)`, `.unwrap()`: an error becomes a panic.
abbrev pub expect {ℓ} : {E : Type 0} {A : Type ℓ} → Result E A → Result E A
expect (ok a) = ok a
expect (err e) = panic
expect panic = panic

-- `option.expect(…)`
abbrev pub expect_some {ℓ} : {E : Type 0} {A : Type ℓ} → Option A → Result E A
expect_some none = panic
expect_some (some a) = ok a

-- `option.ok_or(e)`
abbrev pub ok_or {ℓ} : {E : Type 0} {A : Type ℓ} → Option A → E → Result E A
ok_or none e = err e
ok_or (some a) e = ok a

-- `option.and_then(f)`
abbrev pub and_then {ℓ κ} : {A : Type ℓ} {B : Type κ} → Option A → (A → Option B) → Option B
and_then none f = none
and_then (some a) f = f a

-- `result.map_err(f)`
abbrev pub map_err {ℓ} : {E F : Type 0} {A : Type ℓ} → (E → F) → Result E A → Result F A
map_err f (ok a) = ok a
map_err f (err e) = err (f e)
map_err f panic = panic

-- `iter.map(f).collect()`, stopping at the first error.
unfoldable pub traverse {ℓ κ} :
    {E : Type 0} {A : Type ℓ} {B : Type κ} → (A → Result E B) → List A → Result E (List B)
traverse f [] = ok []
traverse f (x ∷ xs) = do y ← f x; ys ← traverse f xs; ok (y ∷ ys)

pub >>=-ok {ℓ κ} :
    {E : Type 0} {A : Type ℓ} {B : Type κ} (call : Result E A) (next : A → Result E B) {last : B}
    → (call >>= next) ≡ ok last
    → (first : A) × (call ≡ ok first) × (next first ≡ ok last)
>>=-ok (ok first) next returns = (first, refl, returns)
>>=-ok (err e) next returns = cc
>>=-ok panic next returns = cc

-- A call that returns got past its check.
pub reject_if-ok {ℓ} :
    {E : Type 0} {B : Type ℓ} (t : Bool) (e : E) (k : Result E B) {b : B}
    → (reject_if t e >> k) ≡ ok b
    → (t ≡ false) × (k ≡ ok b)
reject_if-ok true e k h = cc
reject_if-ok false e k h = (refl, h)

pub ok_or-ok {ℓ} :
    {E : Type 0} {A : Type ℓ} (o : Option A) (e : E) {a : A} → ok_or o e ≡ ok a → o ≡ some a
ok_or-ok none e h = cc
ok_or-ok (some x) e h = cc

pub map_err-ok {ℓ} :
    {E F : Type 0} {A : Type ℓ} (f : E → F) (call : Result E A) {a : A}
    → map_err f call ≡ ok a
    → call ≡ ok a
map_err-ok f (ok x) h = cc
map_err-ok f (err e) h = cc
map_err-ok f panic h = cc

-- If each call returns, so does the whole.
pub traverse-ok :
    {E A B : Type 0} (R : A → B → Type 0) (f : A → Result E B) (xs : List A)
    → ((a : A) → Elem a xs → (b : B) × (f a ≡ ok b) × R a b)
    → (ys : List B) × (traverse f xs ≡ ok ys) × All₂ R xs ys
unfolding traverse
traverse-ok R f [] h = ([], refl, tt)
traverse-ok R f (x ∷ xs) h =
    let (y, e, r) = h x (inl refl) in
    let (ys, es, rs) = traverse-ok R f xs (λ a m. h a (inr m)) in (y ∷ ys, rw (e, es), (r, rs))

-- A traversal of the positions of a list.
pub traverse-range :
    {E A B : Type 0} (g : ℕ → Result E B) (h : A → B) (xs : List A) (s : ℕ)
    → ((j : ℕ) (x : A) → get_elem? xs j ≡ some x → g (s + j) ≡ ok (h x))
    → traverse g (range s (length xs)) ≡ ok (map h xs)
unfolding traverse
traverse-range g h [] s each = refl
traverse-range g h (x ∷ xs) s each =
    rw
      (
        ap g {x = s} {y = s + 0} (omega arith) ∙ each 0 x refl,
        traverse-range g h xs (suc s)
            (λ j y e. ap g {x = suc s + j} {y = s + suc j} (omega arith) ∙ each (suc j) y e),
      )
      refl

-- A traversal whose every call returns what a function says.
pub traverse-map :
    {E A B : Type 0} (g : A → Result E B) (h : A → B) (xs : List A)
    → All (λ x. g x ≡ ok (h x)) xs
    → traverse g xs ≡ ok (map h xs)
unfolding traverse
traverse-map g h [] each = refl
traverse-map g h (x ∷ xs) each = rw (each.0, traverse-map g h xs each.1)

pub ok-injective {ℓ} :
    {E : Type 0} {A : Type ℓ} (a b : A) → ◌≡◌ {A = Result E A} (ok a) (ok b) → a ≡ b
ok-injective {E} {A} a b e = ap value_of e
  where
    value_of : Result E A → A
    value_of (ok c) = c
    value_of (err x) = a
    value_of panic = a

pub some-injective {ℓ} : {A : Type ℓ} (a b : A) → some a ≡ some b → a ≡ b
some-injective {A} a b e = ap value_of e
  where
    value_of : Option A → A
    value_of none = a
    value_of (some c) = c

pub nothing_found {ℓ} : {A : Type ℓ} (a : A) → none ≡ some a → ⊥
nothing_found a h = cc
