-- ===== src/Prelude/Decimal.antt =====
-- Decimal digits: strconv.Itoa for the natural numbers, and that it is injective.
use Prim.Native.Nat.{ℕ, zero, suc, ◌+◌, ◌-◌, ◌*◌, ◌/◌, ◌%◌, ◌<◌}
use mathlib.Core.Path.{◌≡◌, refl, sym, ◌∙◌, ap}
use mathlib.Core.Logic.{inl, inr}
use mathlib.Core.List.{[], ◌∷◌, ◌++◌}
use mathlib.Core.Bool.{false}
use native.Mathlib.Omega.{arith}
use codescan.Prelude.Tests.{ltb, if◌then◌else◌, Bool-cases}
use codescan.Prelude.Lists.{length, length-append}
use codescan.Prelude.Texts.{Text, has_code, has_code-append}

itoa_on : ℕ → ℕ → Text
itoa_on zero n = []
itoa_on (suc fuel) n =
    let high = itoa_on fuel (n / 10) in
    if ltb n 10 then (48 + n) ∷ [] else high ++ (48 + n % 10) ∷ []

unfoldable pub itoa : ℕ → Text
unfolding itoa_on
itoa n = itoa_on (suc n) n

value_from : ℕ → Text → ℕ
value_from v [] = v
value_from v (c ∷ s) = value_from (v * 10 + (c - 48)) s

value_from-append : (v : ℕ) (s t : Text) → value_from v (s ++ t) ≡ value_from (value_from v s) t
unfolding value_from
value_from-append v [] t = refl
value_from-append v (c ∷ s) t = value_from-append (v * 10 + (c - 48)) s t

value_from-itoa_on : (fuel n : ℕ) → n < fuel → value_from 0 (itoa_on fuel n) ≡ n
unfolding itoa_on value_from
value_from-itoa_on zero n h = elim h [ ]
value_from-itoa_on (suc fuel) n h = ground (
  arith,
  value_from-append 0 (itoa_on fuel (n / 10)) ((48 + n % 10) ∷ []),
  value_from-itoa_on fuel (n / 10),
)

-- Reading the digits back gives the number.
pub itoa-injective : (i j : ℕ) → itoa i ≡ itoa j → i ≡ j
unfolding itoa
itoa-injective i j e =
    sym (value_from-itoa_on (suc i) i (omega arith))
    ∙ ap (value_from 0) e
    ∙ value_from-itoa_on (suc j) j (omega arith)

pub length-itoa : (i : ℕ) → 0 < length (itoa i)
unfolding itoa
length-itoa i = elim (Bool-cases (ltb i 10)) [
  | inl small ↦ rw small (omega arith)
  | inr big ↦ rw big (omega (arith, length-append {0} (itoa_on i (i / 10)) ((48 + i % 10) ∷ [])))
]

has_code-itoa_on : (c fuel n : ℕ) → c < 48 → has_code c (itoa_on fuel n) ≡ false
unfolding itoa_on has_code
has_code-itoa_on c zero n h = refl
has_code-itoa_on c (suc fuel) n h = ground (
  arith,
  has_code-itoa_on c fuel (n / 10),
  has_code-append c (itoa_on fuel (n / 10)) ((48 + n % 10) ∷ []),
)

-- A number has no character below the digits.
pub has_code-itoa : (c n : ℕ) → c < 48 → has_code c (itoa n) ≡ false
unfolding itoa
has_code-itoa c n h = has_code-itoa_on c (suc n) n h
