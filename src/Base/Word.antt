-- ===== src/Base/Word.antt =====
-- The `u8` of the source: a number with its bound. `val` is what computes.
use Prim.Native.Nat.{ℕ, ◌%◌, ◌<◌, bit_xor}
use mathlib.Core.Path.{◌≡◌, refl, ap, ap₂, subst, ◌≡⟨◌⟩◌, ◌∎}
use mathlib.Core.Logic.{◌↔◌}
use mathlib.Core.Bool.{Bool, true, false, ◌&&◌}
use mathlib.Core.List.{List, [], ◌∷◌}
use mathlib.Core.HLevel.{is_prop→PathP}
use native.Mathlib.Bridge.{le_prop}
use native.Mathlib.Omega.{arith}
use seal.Base.Tests.{◌==◌ as nat_eq, ==_iff, &&-elim}
use seal.Base.Xor.{xor_assoc, xor_comm, zero-xor, xor_self, xor-lt_pow}

pub record U8 : Type 0 where
  pub val : ℕ
  pub bound : val < 256

pub U8_ext : {a b : U8} → a.val ≡ b.val → a ≡ b
U8_ext {a} {b} e = λ i. record {
  val = e i;
  bound = is_prop→PathP (λ j. e j < 256) (λ j. le_prop) a.bound b.bound i;
}

pub mod-lt-256 : (n : ℕ) → n % 256 < 256
mod-lt-256 n = omega arith

-- `n as u8`, and the literals.
abbrev pub u8 : ℕ → U8
u8 n = record { val = n % 256; bound = mod-lt-256 n }

infix 50 ◌=8◌
abbrev pub ◌=8◌ : U8 → U8 → Bool
a =8 b = nat_eq a.val b.val

pub =8_iff : (a b : U8) → ((a =8 b) ≡ true) ↔ (a ≡ b)
=8_iff a b =
    (λ h. U8_ext ((==_iff a.val b.val).0 h), λ e. (==_iff a.val b.val).1 (ap (λ (x : U8). x.val) e))

pub xor-lt-256 : (a b : U8) → bit_xor a.val b.val < 256
xor-lt-256 a b = xor-lt_pow 8 a.val b.val a.bound b.bound

-- `a ^ b` on bytes.
infixl 65 ◌⊕◌
unfoldable pub ◌⊕◌ : U8 → U8 → U8
a ⊕ b = record { val = bit_xor a.val b.val; bound = xor-lt-256 a b }

pub ⊕_assoc : (a b c : U8) → a ⊕ b ⊕ c ≡ a ⊕ (b ⊕ c)
unfolding ◌⊕◌
⊕_assoc a b c = U8_ext (xor_assoc a.val b.val c.val)

pub ⊕_comm : (a b : U8) → a ⊕ b ≡ b ⊕ a
unfolding ◌⊕◌
⊕_comm a b = U8_ext (xor_comm a.val b.val)

pub zero-⊕ : (a : U8) → u8 0 ⊕ a ≡ a
unfolding ◌⊕◌
zero-⊕ a = U8_ext (zero-xor a.val)

pub ⊕-self : (a : U8) → a ⊕ a ≡ u8 0
unfolding ◌⊕◌
⊕-self a = U8_ext (xor_self a.val)

pub ⊕_interchange : (a b c d : U8) → a ⊕ b ⊕ (c ⊕ d) ≡ a ⊕ c ⊕ (b ⊕ d)
⊕_interchange a b c d =
    a ⊕ b ⊕ (c ⊕ d)
    ≡⟨ (simp ⊕_assoc) ⟩ a ⊕ (b ⊕ (c ⊕ d))
    ≡⟨ (rw (← ⊕_assoc b c d, ⊕_comm b c)) ⟩ a ⊕ (c ⊕ b ⊕ d)
    ≡⟨ (simp ⊕_assoc) ⟩ a ⊕ c ⊕ (b ⊕ d) ∎

-- `==` on byte arrays and vectors.
unfoldable pub bytes_eq : List U8 → List U8 → Bool
bytes_eq [] [] = true
bytes_eq [] (y ∷ ys) = false
bytes_eq (x ∷ xs) [] = false
bytes_eq (x ∷ xs) (y ∷ ys) = (x =8 y) && bytes_eq xs ys

bytes_eq_sound : (xs ys : List U8) → bytes_eq xs ys ≡ true → xs ≡ ys
unfolding bytes_eq
bytes_eq_sound [] [] h = refl
bytes_eq_sound [] (y ∷ ys) h = cc
bytes_eq_sound (x ∷ xs) [] h = cc
bytes_eq_sound (x ∷ xs) (y ∷ ys) h =
    let (p, q) = &&-elim (x =8 y) (bytes_eq xs ys) h in
    ap₂ ◌∷◌ ((=8_iff x y).0 p) (bytes_eq_sound xs ys q)

bytes_eq_refl : (xs : List U8) → bytes_eq xs xs ≡ true
unfolding bytes_eq
bytes_eq_refl [] = refl
bytes_eq_refl (x ∷ xs) = rw ((=8_iff x x).1 refl, bytes_eq_refl xs)

pub bytes_eq_iff : (xs ys : List U8) → (bytes_eq xs ys ≡ true) ↔ (xs ≡ ys)
bytes_eq_iff xs ys =
    (bytes_eq_sound xs ys, λ e. subst (λ zs. bytes_eq xs zs ≡ true) e (bytes_eq_refl xs))
