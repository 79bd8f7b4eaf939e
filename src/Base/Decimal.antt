-- ===== src/Base/Decimal.antt =====
-- `Display` of `u64`: the decimal digits. A `u64` has at most twenty of them, so twenty rounds of
-- fuel are enough.
use Prim.Native.Nat.{ℕ, zero, suc, ◌+◌, ◌-◌, ◌*◌, ◌/◌, ◌%◌, ◌^◌, ◌≤◌, ◌<◌}
use mathlib.Core.Path.{◌≡◌, refl, ap, sym, ◌∙◌}
use mathlib.Core.Logic.{◌⊎◌}
use mathlib.Core.List.{[], ◌∷◌}
use native.Mathlib.Omega.{arith}
use native.Mathlib.Nat.{pow-suc}
use researcher_agent_kube_en.Base.Tests.{◌==◌, if◌then◌else◌}
use researcher_agent_kube_en.Base.Strings.{Text, lit}
use researcher_agent_kube_en.Base.Strings.Laws.{Lacks}

abbrev pub u64_mod : ℕ
u64_mod = 2 ^ 64

-- The digits of `n`, least significant first, pushed onto `out`.
unfoldable pub digits_from : ℕ → ℕ → Text → Text
digits_from zero n out = out
digits_from (suc f) n out =
    let rest = digits_from f (n / 10) ((b'0' + n % 10) ∷ out) in if n == 0 then out else rest

unfoldable pub decimal : ℕ → Text
unfolding digits_from
decimal n = if n == 0 then b'0' ∷ [] else digits_from 20 n []

-- The number that digits spell behind `n`.
abbrev pub value : ℕ → Text → ℕ
value n [] = n
value n (c ∷ s) = value (n * 10 + (c - b'0')) s

-- Every character is a decimal digit.
abbrev pub AllDigits : Text → Type 0
AllDigits [] = Unit
AllDigits (c ∷ s) = (b'0' ≤ c) × (c ≤ b'9') × AllDigits s

value-digits_from :
    (f n : ℕ) (out : Text) → n < 10 ^ f → value 0 (digits_from f n out) ≡ value n out
unfolding digits_from
value-digits_from zero n out h = ground (arith)
value-digits_from (suc f) n out h =
    ground (arith, pow-suc 10 f, value-digits_from f (n / 10) ((b'0' + n % 10) ∷ out))

digits_from-AllDigits : (f n : ℕ) (out : Text) → AllDigits out → AllDigits (digits_from f n out)
unfolding digits_from
digits_from-AllDigits zero n out h = h
digits_from-AllDigits (suc f) n out h =
    ground (arith, digits_from-AllDigits f (n / 10) ((b'0' + n % 10) ∷ out))

pub value-decimal : (n : ℕ) → n < u64_mod → value 0 (decimal n) ≡ n
unfolding decimal
value-decimal n h = ground (arith, value-digits_from 20 n [])

pub decimal-AllDigits : (n : ℕ) → AllDigits (decimal n)
unfolding decimal
decimal-AllDigits n = ground (arith, digits_from-AllDigits 20 n [])

-- Two `u64` with the same print are the same.
pub decimal-injective : (m n : ℕ) → m < u64_mod → n < u64_mod → decimal m ≡ decimal n → m ≡ n
decimal-injective m n hm hn e = sym (value-decimal m hm) ∙ (ap (value 0) e ∙ value-decimal n hn)

-- Digits hold no character from outside of their range.
AllDigits-Lacks : (c : ℕ) (s : Text) → (c < b'0') ⊎ (b'9' < c) → AllDigits s → Lacks c s
AllDigits-Lacks c [] out h = tt
AllDigits-Lacks c (x ∷ s) out h = (ground arith, AllDigits-Lacks c s out h.2)

pub decimal-Lacks : (c n : ℕ) → (c < b'0') ⊎ (b'9' < c) → Lacks c (decimal n)
decimal-Lacks c n out = AllDigits-Lacks c (decimal n) out (decimal-AllDigits n)

decimal-max_u64 : decimal (u64_mod - 1) ≡ lit "18446744073709551615"
unfolding decimal lit
decimal-max_u64 = refl
