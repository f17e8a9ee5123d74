-- ===== src/Gf256/Powers.antt =====
-- What the two tables hold, checked entry by entry, and the map that both step through:
-- multiplication by 0x03 as a shift and an exclusive or.
use Prim.Native.Nat.{bit_xor}
use seal.Base.{
  ℕ, ◌+◌, ◌-◌, ◌*◌, ◌%◌, ◌<◌, ◌≡◌, ◌≢◌, refl, ap, ◌∙◌, ◌≡⟨◌⟩◌, ◌∎, U8_ext, u8, ◌⊕◌, ⊕_interchange,
  true, arith, ltb, ltb→lt, ◌==◌, ==_iff, ◌&&◌, &&-elim, if◌then◌else◌, get_or, all_below,
  all_below_sound,
}
use seal.Gf256.{Gf256, zero, log, exp}
use seal.Gf256.Tables.{exp_table, log_table}

-- Multiplication by x in F₂[x] / (x⁸ + x⁴ + x³ + x + 1).
abbrev pub double_val : ℕ → ℕ
double_val n = bit_xor (n * 2 % 256) (if ltb n 128 then 0 else 0x1b)

pub double_lt : (n : ℕ) → double_val n % 256 < 256
double_lt n = omega arith

unfoldable pub double : Gf256 → Gf256
double b = u8 (double_val b.val)

double_table :
    all_below 256 (λ a.
      all_below 256
        (λ b. double_val (bit_xor a b) % 256 == bit_xor (double_val a % 256) (double_val b % 256)))
    ≡ true
unfolding all_below
double_table = refl

pub double-add : (a b : Gf256) → double (a ⊕ b) ≡ double a ⊕ double b
unfolding double ◌⊕◌
double-add a b = U8_ext (
    (==_iff _ _).0 (
      all_below_sound 256
        (λ y.
          double_val (bit_xor a.val y) % 256
          == bit_xor (double_val a.val % 256) (double_val y % 256))
        b.val (all_below_sound 256 _ a.val double_table a.bound) b.bound))

pub double-zero : double zero ≡ zero
unfolding double
double-zero = refl

-- Multiplication by 0x03 = x + 1.
unfoldable pub triple : Gf256 → Gf256
triple b = b ⊕ double b

pub triple-add : (a b : Gf256) → triple (a ⊕ b) ≡ triple a ⊕ triple b
unfolding triple
triple-add a b = rw double-add (⊕_interchange a b (double a) (double b))

pub triple-zero : triple zero ≡ zero
unfolding triple double ◌⊕◌
triple-zero = U8_ext refl

pub exp_congr : (m n : ℕ) → m % 255 ≡ n % 255 → exp m ≡ exp n
unfolding exp
exp_congr m n e = ap (λ (i : ℕ). get_or exp_table i zero) e

step_table : all_below 255 (λ n. (exp (n + 1)).val == (triple (exp n)).val) ≡ true
unfolding all_below exp triple double ◌⊕◌
step_table = refl

-- Each power is 0x03 times the one before it, round the table's end too.
pub exp-suc : (n : ℕ) → exp (n + 1) ≡ triple (exp n)
exp-suc n =
    exp (n + 1)
    ≡⟨ exp_congr (n + 1) (n % 255 + 1) (omega arith) ⟩ exp (n % 255 + 1)
    ≡⟨ U8_ext (
        (==_iff _ _).0 (
          all_below_sound 255 (λ k. (exp (k + 1)).val == (triple (exp k)).val) (n % 255) step_table
            (omega arith))) ⟩
      triple (exp (n % 255))
    ≡⟨ ap triple (exp_congr (n % 255) n (omega arith)) ⟩ triple (exp n) ∎

exp-log_table : all_below 255 (λ n. (exp (get_or log_table n zero).val).val == n + 1) ≡ true
unfolding all_below exp
exp-log_table = refl

pub exp-log : (a : Gf256) (p : a.val ≢ 0) → exp (log a p) ≡ a
unfolding log
exp-log a p =
    let pos : 0 < a.val = omega arith in
    let entry =
      all_below_sound 255 (λ n. (exp (get_or log_table n zero).val).val == n + 1) (a.val - 1)
        exp-log_table (omega (arith, a.bound)) in
    U8_ext ((==_iff _ _).0 entry ∙ omega arith)

log-exp_table :
    all_below 255 (λ n. ltb 0 (exp n).val && ((get_or log_table ((exp n).val - 1) zero).val == n))
    ≡ true
unfolding all_below exp
log-exp_table = refl

log-exp_entry :
    (n : ℕ)
    → (ltb 0 (exp (n % 255)).val
        && ((get_or log_table ((exp (n % 255)).val - 1) zero).val == n % 255))
      ≡ true
log-exp_entry n =
    all_below_sound 255
      (λ n. ltb 0 (exp n).val && ((get_or log_table ((exp n).val - 1) zero).val == n)) (n % 255)
      log-exp_table (omega arith)

-- No power of 0x03 is zero.
pub exp-ne-zero : (n : ℕ) → (exp n).val ≢ 0
exp-ne-zero n = rw (exp_congr n (n % 255) (omega arith)) (
    let pos : 0 < (exp (n % 255)).val = ltb→lt 0 _ (&&-elim _ _ (log-exp_entry n)).0 in omega arith)

pub log-exp : (n : ℕ) (p : (exp n).val ≢ 0) → log (exp n) p ≡ n % 255
unfolding log
log-exp n p =
    ap (λ (e : Gf256). (get_or log_table (e.val - 1) zero).val)
      (exp_congr n (n % 255) (omega arith))
    ∙ (==_iff _ _).0 (&&-elim _ _ (log-exp_entry n)).1

pub log_lt : (a : Gf256) (p : a.val ≢ 0) → log a p < 256
unfolding log
log_lt a p = (get_or log_table (a.val - 1) zero).bound
