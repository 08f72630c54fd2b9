-- ===== src/Prelude/Decimal.antt =====
-- A number in a template text, `${n}`, and the length of a text in UTF-16 units.
use Prim.Native.Nat.{ℕ, zero, suc, ◌+◌, ◌/◌, ◌%◌}
use Prim.Native.Char.{code}
use Prim.Native.String
use Prim.Native.String.{String, [], ◌∷◌}
use agentlayer.Prelude.Tests.{ltb, if◌then◌else◌}

digit : ℕ → String
digit zero = "0"
digit (suc zero) = "1"
digit (suc (suc zero)) = "2"
digit (suc (suc (suc zero))) = "3"
digit (suc (suc (suc (suc zero)))) = "4"
digit (suc (suc (suc (suc (suc zero))))) = "5"
digit (suc (suc (suc (suc (suc (suc zero)))))) = "6"
digit (suc (suc (suc (suc (suc (suc (suc zero))))))) = "7"
digit (suc (suc (suc (suc (suc (suc (suc (suc zero)))))))) = "8"
digit _ = "9"

-- The digits of `n`; `n + 1` rounds are enough, since each round divides by ten.
decimal_from : ℕ → ℕ → String
decimal_from zero n = ""
decimal_from (suc fuel) n =
    let longer = String.◌++◌ (decimal_from fuel (n / 10)) (digit (n % 10)) in
    if ltb n 10 then digit n else longer

unfoldable pub decimal : ℕ → String
unfolding decimal_from digit
decimal n = decimal_from (suc n) n

-- s.length: a character above the basic plane counts twice.
unfoldable pub utf16_length : String → ℕ
utf16_length [] = 0
utf16_length (c ∷ s) = (if ltb (code c) 65536 then 1 else 2) + utf16_length s
