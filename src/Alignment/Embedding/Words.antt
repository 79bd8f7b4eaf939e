-- ===== src/Alignment/Embedding/Words.antt =====
-- src/alignment.rs, the fold in `text_to_embedding`: the word that a chunk of a digest makes.
use Prim.Native.Nat.{bit_or, digits, bit_or-bitwise, max}
use native.Mathlib.Nat.{pow-suc}
use researcher_agent_kube_en.Base.{
  ℕ, zero, suc, ◌+◌, ◌*◌, ◌/◌, ◌%◌, ◌^◌, ◌≤◌, ◌<◌, ◌≡◌, refl, ap, [], ◌∷◌, arith,
}
use researcher_agent_kube_en.Alignment.Embedding.{chunk_word, u32_mod}

abbrev or_digits : ℕ → ℕ → ℕ → ℕ
or_digits n a b = digits (λ b. b) max n a b

or_digits_fuel : (n m a b : ℕ) → a ≤ n → a ≤ m → or_digits n a b ≡ or_digits m a b
or_digits_fuel zero zero a b p q = refl
or_digits_fuel zero (suc m) zero b p q = refl
or_digits_fuel zero (suc m) (suc a) b p q = absurd (omega arith)
or_digits_fuel (suc n) zero zero b p q = refl
or_digits_fuel (suc n) zero (suc a) b p q = absurd (omega arith)
or_digits_fuel (suc n) (suc m) zero b p q = refl
or_digits_fuel (suc n) (suc m) (suc a) b p q =
    omega (arith, or_digits_fuel n m (suc a / 2) (b / 2) (omega arith) (omega arith))

zero-bit_or : (b : ℕ) → bit_or 0 b ≡ b
zero-bit_or b = bit_or-bitwise 0 b

-- The last digit of a disjunction, and the rest.
bit_or_step : (a b : ℕ) → bit_or a b ≡ bit_or (a / 2) (b / 2) * 2 + max (a % 2) (b % 2)
bit_or_step zero b = omega (arith, zero-bit_or b, zero-bit_or (b / 2))
bit_or_step (suc a) b = omega (
  arith,
  bit_or-bitwise (suc a) b,
  bit_or-bitwise (suc a / 2) (b / 2),
  or_digits_fuel a (suc a / 2) (suc a / 2) (b / 2) (omega arith) (omega arith),
)

bit_or-zero_fuel : (n a : ℕ) → a ≤ n → bit_or a 0 ≡ a
bit_or-zero_fuel n zero h = zero-bit_or 0
bit_or-zero_fuel zero (suc a) h = absurd (omega arith)
bit_or-zero_fuel (suc n) (suc a) h =
    omega (arith, bit_or_step (suc a) 0, bit_or-zero_fuel n (suc a / 2) (omega arith))

bit_or-zero : (a : ℕ) → bit_or a 0 ≡ a
bit_or-zero a = bit_or-zero_fuel a a (omega arith)

bit_or_double : (a b : ℕ) → bit_or (2 * a) b ≡ bit_or a (b / 2) * 2 + b % 2
bit_or_double a b =
    let half : 2 * a / 2 ≡ a = omega arith in
    omega (arith, bit_or_step (2 * a) b, ap (λ t. bit_or t (b / 2)) half)

-- Below a shifted number there is room for the next digits.
bit_or_shifted : (k a b : ℕ) → b < 2 ^ k → bit_or (2 ^ k * a) b ≡ 2 ^ k * a + b
bit_or_shifted zero a zero h =
    let one : 1 * a ≡ a = omega arith in omega (arith, bit_or-zero a, ap (λ t. bit_or t 0) one)
bit_or_shifted zero a (suc b) h = absurd (omega arith)
bit_or_shifted (suc k) a b h =
    let double : 2 ^ suc k * a ≡ 2 * (2 ^ k * a) =
      omega (arith, ap (λ (t : ℕ). t * a) (pow-suc 2 k)) in
    omega (
      arith,
      double,
      pow-suc 2 k,
      ap (λ t. bit_or t b) double,
      bit_or_double (2 ^ k * a) b,
      bit_or_shifted k a (b / 2) (omega (arith, pow-suc 2 k)),
    )

push_byte : (x b : ℕ) → x < 2 ^ 24 → b < 256 → bit_or (x * 256 % u32_mod) b ≡ x * 256 + b
push_byte x b hx hb =
    let whole : x * 256 % u32_mod ≡ 256 * x = omega arith in
    omega (arith, ap (λ t. bit_or t b) whole, bit_or_shifted 8 x b hb)

-- Four bytes make their big-endian number, which is a `u32`: no shift drops a bit.
pub chunk_word_big_endian :
    (a b c d : ℕ)
    → a < 256
    → b < 256
    → c < 256
    → d < 256
    → (chunk_word (a ∷ b ∷ c ∷ d ∷ []) ≡ a * 2 ^ 24 + b * 2 ^ 16 + c * 2 ^ 8 + d)
      × (chunk_word (a ∷ b ∷ c ∷ d ∷ []) < u32_mod)
unfolding chunk_word
chunk_word_big_endian a b c d ha hb hc hd =
    rw
      (
        zero-bit_or a,
        push_byte a b (omega arith) hb,
        push_byte (a * 256 + b) c (omega arith) hc,
        push_byte ((a * 256 + b) * 256 + c) d (omega arith) hd,
      )
      (omega arith, omega arith)
