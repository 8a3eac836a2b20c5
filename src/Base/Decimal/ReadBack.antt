-- ===== src/Base/Decimal/ReadBack.antt =====
-- The number after the last dash of a text can be read back, so texts that end in different numbers
-- differ.
use Prim.Native.Nat.{ℕ, zero, suc, ◌+◌, ◌-◌, ◌*◌, ◌/◌, ◌%◌, ◌<◌}
use Prim.Native.Char.{code}
use Prim.Native.String
use Prim.Native.String.{String}
use Prim.Native.String.append
use mathlib.Core.Path.{◌≡◌, refl, ap, ◌∙◌}
use mathlib.Core.List.{List, [], ◌∷◌, ◌++◌}
use mathlib.Core.Logic.{inl, inr}
use native.Mathlib.Omega.{arith}
use advanced_roleplaying_fra.Base.Tests.{ltb, nat_eq, if◌then◌else◌, Bool-cases}
use advanced_roleplaying_fra.Base.Text.{codes}
use advanced_roleplaying_fra.Base.Decimal.{digit, decimal_digits, decimal}

-- Reads decimal digits, and starts again after a dash.
unfoldable pub last_number : ℕ → List ℕ → ℕ
last_number acc [] = acc
last_number acc (c ∷ cs) = last_number (if nat_eq c 45 then 0 else acc * 10 + (c - 48)) cs

pub codes-append : (s t : String) → codes (String.◌++◌ s t) ≡ codes s ++ codes t
codes-append String.[] t = ap codes (append.nil t)
codes-append (String.◌∷◌ c s) t =
    ap codes (append.cons c s t) ∙ ap (λ r. code c ∷ r) (codes-append s t)

pub last_number-append :
    (acc : ℕ) (xs ys : List ℕ) → last_number acc (xs ++ ys) ≡ last_number (last_number acc xs) ys
unfolding last_number
last_number-append acc [] ys = refl
last_number-append acc (x ∷ xs) ys =
    last_number-append (if nat_eq x 45 then 0 else acc * 10 + (x - 48)) xs ys

last_number-digit : (acc d : ℕ) → d < 10 → last_number acc (codes (digit d)) ≡ acc * 10 + d
unfolding last_number
last_number-digit acc zero h = omega arith
last_number-digit acc (suc zero) h = omega arith
last_number-digit acc (suc (suc zero)) h = omega arith
last_number-digit acc (suc (suc (suc zero))) h = omega arith
last_number-digit acc (suc (suc (suc (suc zero)))) h = omega arith
last_number-digit acc (suc (suc (suc (suc (suc zero))))) h = omega arith
last_number-digit acc (suc (suc (suc (suc (suc (suc zero)))))) h = omega arith
last_number-digit acc (suc (suc (suc (suc (suc (suc (suc zero))))))) h = omega arith
last_number-digit acc (suc (suc (suc (suc (suc (suc (suc (suc zero)))))))) h = omega arith
last_number-digit acc (suc (suc (suc (suc (suc (suc (suc (suc (suc zero))))))))) h = omega arith
last_number-digit acc (suc (suc (suc (suc (suc (suc (suc (suc (suc (suc n)))))))))) h =
    absurd (omega arith)

last_number-decimal_digits :
    (fuel n : ℕ) → n < fuel → last_number 0 (codes (decimal_digits fuel n)) ≡ n
unfolding decimal_digits
last_number-decimal_digits zero n h = elim h [ ]
last_number-decimal_digits (suc fuel) n h = elim (Bool-cases (ltb n 10)) [
  | inl small ↦ rw (small, last_number-digit 0 n (ground arith)) (omega arith)
  | inr large ↦
      rw
        (
          large,
          codes-append (decimal_digits fuel (n / 10)) (digit (n % 10)),
          last_number-append 0 (codes (decimal_digits fuel (n / 10))) (codes (digit (n % 10))),
          last_number-decimal_digits fuel (n / 10) (ground arith),
          last_number-digit (n / 10) (n % 10) (omega arith),
        )
        (omega arith)
]

pub last_number-decimal : (n : ℕ) → last_number 0 (codes (decimal n)) ≡ n
unfolding decimal
last_number-decimal n = last_number-decimal_digits (suc n) n (omega arith)

-- Whatever stands before the dash.
pub last_number-after_dash :
    (s : String) (n acc : ℕ)
    → last_number acc (codes (String.◌++◌ s (String.◌++◌ "-" (decimal n)))) ≡ n
last_number-after_dash s n acc =
    rw
      (
        codes-append s (String.◌++◌ "-" (decimal n)),
        last_number-append acc (codes s) (codes (String.◌++◌ "-" (decimal n))),
        codes-append "-" (decimal n),
      )
      (unfold last_number in last_number-decimal n)

-- What stands in front of a text that starts with a dash does not matter.
pub last_number-behind :
    (s t : String) (n : ℕ)
    → ((acc : ℕ) → last_number acc (codes t) ≡ n)
    → (acc : ℕ) → last_number acc (codes (String.◌++◌ s t)) ≡ n
last_number-behind s t n reads acc =
    rw (codes-append s t, last_number-append acc (codes s) (codes t))
      (reads (last_number acc (codes s)))
