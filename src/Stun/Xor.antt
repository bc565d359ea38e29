-- ===== src/Stun/Xor.antt =====
-- The exclusive or of two numbers, by their binary digits.
use Prim.Native.Nat.{bit_xor, bit_xor-bitwise, digits, differ}
use oxlens_sfu_server.Prelude.{
  ℕ, zero, suc, ◌+◌, ◌*◌, ◌/◌, ◌%◌, ◌^◌, ◌≤◌, ◌<◌, ◌≡◌, refl, ◌∙◌, sym, ap, arith,
}

-- Any count of digits is enough that is not below the first number.
digits-enough :
    (n m a b : ℕ) → a ≤ n → a ≤ m → digits (λ y. y) differ n a b ≡ digits (λ y. y) differ m a b
digits-enough zero zero a b hn hm = refl
digits-enough zero (suc m) zero b hn hm = refl
digits-enough zero (suc m) (suc a) b hn hm = absurd (omega arith)
digits-enough (suc n) zero zero b hn hm = refl
digits-enough (suc n) zero (suc a) b hn hm = absurd (omega arith)
digits-enough (suc n) (suc m) zero b hn hm = refl
digits-enough (suc n) (suc m) (suc a) b hn hm =
    ap (λ x. x * 2 + differ (suc a % 2) (b % 2))
      (digits-enough n m (suc a / 2) (b / 2) (omega arith) (omega arith))

differ_lem : (p q : ℕ) → p < 2 → q < 2 → differ p q ≡ (p + q) % 2
differ_lem zero q hp hq = omega arith
differ_lem (suc zero) zero hp hq = refl
differ_lem (suc zero) (suc zero) hp hq = refl
differ_lem (suc zero) (suc (suc q)) hp hq = absurd (omega arith)
differ_lem (suc (suc p)) q hp hq = absurd (omega arith)

-- The lowest digit, and the digits above it.
bit_xor_step : (a b : ℕ) → bit_xor a b ≡ bit_xor (a / 2) (b / 2) * 2 + (a + b) % 2
bit_xor_step zero b =
    let digit : b ≡ b / 2 * 2 + (0 + b) % 2 = omega arith in
    bit_xor-bitwise 0 b ∙ digit ∙ ap (λ x. x * 2 + (0 + b) % 2) (sym (bit_xor-bitwise 0 (b / 2)))
bit_xor_step (suc a) b =
    let low = differ_lem (suc a % 2) (b % 2) (omega arith) (omega arith) in
    bit_xor-bitwise (suc a) b
    ∙ ap (λ x. x * 2 + differ (suc a % 2) (b % 2))
        (digits-enough a (suc a / 2) (suc a / 2) (b / 2) (omega arith) (omega arith)
          ∙ sym (bit_xor-bitwise (suc a / 2) (b / 2)))
    ∙ omega (arith, low)

bit_xor-bit_xor_below : (n a b : ℕ) → a ≤ n → b ≤ n → bit_xor (bit_xor a b) b ≡ a
bit_xor-bit_xor_below zero zero zero ha hb = refl
bit_xor-bit_xor_below zero zero (suc b) ha hb = absurd (omega arith)
bit_xor-bit_xor_below zero (suc a) b ha hb = absurd (omega arith)
bit_xor-bit_xor_below (suc n) a b ha hb =
    let x = bit_xor a b in
    let once = bit_xor_step a b in
    let twice = bit_xor_step x b in
    let half : x / 2 ≡ bit_xor (a / 2) (b / 2) = omega (arith, once) in
    let above =
      ap (λ y. bit_xor y (b / 2)) half
      ∙ bit_xor-bit_xor_below n (a / 2) (b / 2) (omega arith) (omega arith) in
    omega (arith, once, twice, above)

-- Done twice with the same number, it gives back what was there.
pub bit_xor-bit_xor : (a b : ℕ) → bit_xor (bit_xor a b) b ≡ a
bit_xor-bit_xor a b = bit_xor-bit_xor_below (a + b) a b (omega arith) (omega arith)

-- It has no more digits than the numbers.
pub bit_xor-bounded : (k a b : ℕ) → a < 2 ^ k → b < 2 ^ k → bit_xor a b < 2 ^ k
bit_xor-bounded zero zero zero ha hb = omega arith
bit_xor-bounded zero zero (suc b) ha hb = absurd (omega arith)
bit_xor-bounded zero (suc a) b ha hb = absurd (omega arith)
bit_xor-bounded (suc k) a b ha hb =
    let once = bit_xor_step a b in
    let above = bit_xor-bounded k (a / 2) (b / 2) (omega arith) (omega arith) in
    omega (arith, once, above)
