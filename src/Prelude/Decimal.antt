-- ===== src/Prelude/Decimal.antt =====
-- `%d` of Go's fmt, for an `int32`.
use Prim.Native.Nat.{ℕ, zero, suc, ◌/◌, ◌%◌}
use Prim.Native.String.{String, ◌++◌}
use shippy.Prelude.Tests.{ltb, if◌then◌else◌}
use shippy.Prelude.Int.{ℤ, pos, negsuc}

digit : ℕ → String
digit zero = "0"
digit (suc zero) = "1"
digit (suc (suc zero)) = "2"
digit (suc (suc (suc zero))) = "3"
digit (suc (suc (suc (suc zero)))) = "4"
digit (suc (suc (suc (suc (suc zero))))) = "5"
digit (suc (suc (suc (suc (suc (suc zero)))))) = "6"
digit (suc (suc (suc (suc (suc (suc (suc zero))))))) = "7"
digit (suc (suc (suc (suc (suc (suc (suc (suc zero)))))))) = "8"
digit _ = "9"

-- The last `f` digits of `n`; ten are enough for an `int32`.
digits : ℕ → ℕ → String
unfolding digit
digits zero n = ""
digits (suc f) n =
    let more = digits f (n / 10) in if ltb n 10 then digit n else more ++ digit (n % 10)

unfoldable pub decimal : ℤ → String
unfolding digits
decimal (pos n) = digits 10 n
decimal (negsuc n) = "-" ++ digits 10 (suc n)
