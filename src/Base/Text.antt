-- ===== src/Base/Text.antt =====
-- Text as the program builds it: `strings.Split`, `strings.Join`, and decimal numbers for `%d`.
use Prim.Native.Nat.{ℕ, zero, suc, ◌≤◌, ◌/◌, ◌%◌}
use Prim.Native.String.{String, ◌++◌ as ◌<>◌}
use mathlib.Core.Path.{◌≡◌, refl, ap}
use mathlib.Core.Logic.{inl, inr}
use native.Mathlib.Omega.{arith}
use mathlib.Core.List.{List, [], ◌∷◌}
use cluster_stack_provider_o.Base.Int.{ℤ, pos, negsuc}
use cluster_stack_provider_o.Base.Tests.{ltb, if◌then◌else◌, Bool-cases}

abbrev digit : ℕ → String
digit zero = "0"
digit (suc zero) = "1"
digit (suc (suc zero)) = "2"
digit (suc (suc (suc zero))) = "3"
digit (suc (suc (suc (suc zero)))) = "4"
digit (suc (suc (suc (suc (suc zero))))) = "5"
digit (suc (suc (suc (suc (suc (suc zero)))))) = "6"
digit (suc (suc (suc (suc (suc (suc (suc zero))))))) = "7"
digit (suc (suc (suc (suc (suc (suc (suc (suc zero)))))))) = "8"
digit _ = "9"

-- The fuel bounds the digits: `n` has at most `n + 1` of them.
decimal_from : ℕ → ℕ → String
decimal_from zero n = digit n
decimal_from (suc fuel) n =
    let front = decimal_from fuel (n / 10) in
    if ltb n 10 then digit n else (front <> digit (n % 10))

-- As much fuel as the number is enough: more changes nothing.
decimal_from_enough : (f g n : ℕ) → n ≤ f → n ≤ g → decimal_from f n ≡ decimal_from g n
unfolding decimal_from
decimal_from_enough zero zero n h k = refl
decimal_from_enough zero (suc g) n h k = ground arith
decimal_from_enough (suc f) zero n h k = ground arith
decimal_from_enough (suc f) (suc g) n h k = elim (Bool-cases (ltb n 10)) [
  | inl small ↦ rw small refl
  | inr large ↦ rw large (
      ap (λ front. front <> digit (n % 10))
        (decimal_from_enough f g (n / 10) (omega arith) (omega arith)))
]

-- `%d` of a number that is not negative
unfoldable pub decimal : ℕ → String
unfolding decimal_from
decimal n = decimal_from n n

module _ (sep : String) where
  joined : String → List String → String
  joined s [] = s
  joined s (t ∷ ts) = s <> (sep <> joined t ts)

-- `strings.Join(parts, sep)`
unfoldable pub join : List String → String → String
unfolding joined
join [] sep = ""
join (p ∷ ps) sep = joined sep p ps

-- `%s` of a `[]string`
unfoldable pub bracketed : List String → String
unfolding join
bracketed texts = "[" <> (join texts " " <> "]")

-- `%d`
unfoldable pub decimal_ℤ : ℤ → String
unfolding decimal
decimal_ℤ (pos n) = decimal n
decimal_ℤ (negsuc n) = "-" <> decimal (suc n)
