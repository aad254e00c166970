-- ===== src/Text/Digits.antt =====
-- Decimal numbers, as `fmt` and `strconv.Itoa` write them.
use codex_pat.Base.{Bytes, if◌then◌else◌, ltb, suc, zero, ℕ, ◌%◌, ◌+◌, ◌/◌, ◌∷◌}

-- The digits of a number in front of a text, as `%d` writes them; the fuel is the digits at most.
unfoldable pub decimal : ℕ → ℕ → Bytes → Bytes
decimal zero n rest = rest
decimal (suc fuel) n rest =
    let digit = b'0' + n % 10 in
    if ltb n 10 then digit ∷ rest else decimal fuel (n / 10) (digit ∷ rest)
