-- ===== src/Utils/Involution.antt =====
-- `xor` with the same bytes twice.
use seal.Base.{
  ◌≤◌, ◌≡◌, refl, ap₂, List, [], ◌∷◌, length, U8, ◌⊕◌, ⊕_assoc, ⊕_comm, ⊕-self, zero-⊕, u8, arith,
}
use seal.Utils.{xor_unchecked}

⊕_twice : (x k : U8) → (x ⊕ k) ⊕ k ≡ x
⊕_twice x k = rw (⊕_assoc x k k, ⊕-self k, ⊕_comm x (u8 0), zero-⊕ x) refl

-- A key at least as long as the message is taken off by a second use.
pub xor_twice :
    (xs ks : List U8) → length xs ≤ length ks → xor_unchecked (xor_unchecked xs ks) ks ≡ xs
unfolding xor_unchecked
xor_twice [] ks h = refl
xor_twice (x ∷ xs) [] h = absurd (omega (arith, h))
xor_twice (x ∷ xs) (k ∷ ks) h = ap₂ ◌∷◌ (⊕_twice x k) (xor_twice xs ks (omega (arith, h)))

pub xor_comm : (xs ys : List U8) → xor_unchecked xs ys ≡ xor_unchecked ys xs
unfolding xor_unchecked
xor_comm [] [] = refl
xor_comm [] (y ∷ ys) = refl
xor_comm (x ∷ xs) [] = refl
xor_comm (x ∷ xs) (y ∷ ys) = ap₂ ◌∷◌ (⊕_comm x y) (xor_comm xs ys)

pub length-xor :
    (xs ks : List U8) → length xs ≤ length ks → length (xor_unchecked xs ks) ≡ length xs
unfolding xor_unchecked
length-xor [] ks h = refl
length-xor (x ∷ xs) [] h = absurd (omega (arith, h))
length-xor (x ∷ xs) (k ∷ ks) h = omega (arith, length-xor xs ks (omega (arith, h)))
