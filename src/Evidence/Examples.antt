-- ===== src/Evidence/Examples.antt =====
-- A balance above the reservation, and the theorem at it.
use percentes.Base.{ℕ, ◌≡◌, true, none, some, bytes}
use percentes.Base.Int.{pos}
use percentes.Evidence.Balance.{Decoder, StatusRecord, usd, check_balance, blocks}
use percentes.Evidence.Start.{is_none, may_start, check_balance-may_start}

-- An output is the amount itself.
abbrev bare : Decoder
bare = record { decode = λ s. some (some s, none); at_end = λ s. true; trim_space = λ s. s }

abbrev printed : StatusRecord
printed = record { exit_code = some (pos 0); stdout = bytes "12.50"; error_text = bytes "" }

check_balance-may_start_example :
    is_none (blocks (check_balance {R = ℕ} bare printed (bytes "12.05") none))
    ≡ may_start ℕ bare printed (usd (bytes "12.05")) none
check_balance-may_start_example = check_balance-may_start ℕ bare printed (bytes "12.05") none
