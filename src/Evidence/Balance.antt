-- ===== src/Evidence/Balance.antt =====
-- internal/evidence/balance.go: `CheckBalance` and `Blocks`. The texts of reasons are left out, but the
-- one that the command gives.
use percentes.Base.{
  ℕ, ◌-◌, ◌^◌, Bool, true, false, not, ◌&&◌, Option, none, some, List, [], ◌∷◌, ◌++◌, ◌==◌, nat_eq,
  bytes_eq, if◌then◌else◌, length,
}
use percentes.Base.Int.{ℤ, pos, negsuc, int_eq, ◌*ℤ◌}
use percentes.Base.Rat.{Rat, gtb_rat}
use percentes.Admission.Decimal.{all_digits, cut_point, is_frac, frac_digits, digits_value}

-- encoding/json's decoder on the command's output: the two members that it fills in, or an error; and
-- whether nothing follows the object. strings.TrimSpace.
pub record Decoder : Type 0 where
  pub decode : List ℕ → Option (Option (List ℕ) × Option (List ℕ))
  pub at_end : List ℕ → Bool
  pub trim_space : List ℕ → List ℕ

pub data BalanceStatus : Type 0 where
  sufficient insufficient unavailable check_failed : BalanceStatus

-- StatusRecord, as far as it is read.
pub record StatusRecord : Type 0 where
  pub exit_code : Option ℤ
  pub stdout : List ℕ
  pub error_text : List ℕ

-- `R` is the ruling of config.BalanceUnavailable, which is only kept.
pub record BalanceCheck (R : Type 0) : Type 0 where
  pub status : BalanceStatus
  pub amount_usd : List ℕ
  pub required_usd : List ℕ
  pub reason : List ℕ
  pub ruling : Option R

pub data Block : Type 0 where
  below_reservation no_ruling failed : Block

-- [0-9]+(\.[0-9]+)?, and the digits and the number behind the point
abbrev pub unsigned : List ℕ → Option (ℕ × ℕ)
unsigned s =
    let (whole, frac) = cut_point s in
    if not (whole == []) && (all_digits whole && is_frac frac)
    then some (digits_value 0 (whole ++ frac_digits frac), 10 ^ length (frac_digits frac) - 1)
    else none

abbrev pub signed : Bool → Option (ℕ × ℕ) → Option Rat
signed minus none = none
signed true (some (n, below)) = some (record { num = negsuc 0 *ℤ pos n; below = below })
signed false (some (n, below)) = some (record { num = pos n; below = below })

-- usdRe, and SetString on what it matches.
unfoldable pub usd : List ℕ → Option Rat
unfolding all_digits cut_point is_frac digits_value
usd [] = none
usd (c ∷ s) = if c == b'-' then signed true (unsigned s) else signed false (unsigned (c ∷ s))

abbrev pub exited_0 : Option ℤ → Bool
exited_0 none = false
exited_0 (some code) = code == pos 0

abbrev pub clean_exit : StatusRecord → Bool
clean_exit rec = rec.error_text == [] && exited_0 rec.exit_code

module _ {R : Type 0} where
  abbrev pub failed_check : List ℕ → List ℕ → BalanceCheck R
  failed_check required amount = record {
    status = check_failed;
    amount_usd = amount;
    required_usd = required;
    reason = [];
    ruling = none;
  }

  -- The amount that the command printed against the reservation.
  abbrev pub check_amount : List ℕ → Rat → List ℕ → Option Rat → BalanceCheck R
  check_amount required need amount none = failed_check required amount
  check_amount required need amount (some have) = record {
    status = if gtb_rat need have then insufficient else sufficient;
    amount_usd = amount;
    required_usd = required;
    reason = [];
    ruling = none;
  }

  -- The members that the command printed.
  abbrev pub check_output :
      Decoder
      → List ℕ
      → Rat
      → Option R
      → Option (Option (List ℕ) × Option (List ℕ))
      → Bool
      → BalanceCheck R
  check_output dec required need ruling none at_end = failed_check required []
  check_output dec required need ruling (some out) false = failed_check required []
  check_output dec required need ruling (some (none, none)) true = failed_check required []
  check_output dec required need ruling (some (some amount, some reason)) true =
      failed_check required []
  check_output dec required need ruling (some (none, some reason)) true =
      if dec.trim_space reason == [] then failed_check required [] else record {
        status = unavailable;
        amount_usd = [];
        required_usd = required;
        reason = reason;
        ruling = ruling;
      }
  check_output dec required need ruling (some (some amount, none)) true =
      check_amount required need amount (usd amount)

  abbrev pub check_required :
      Decoder → StatusRecord → List ℕ → Option R → Option Rat → BalanceCheck R
  check_required dec rec required ruling none = failed_check required []
  check_required dec rec required ruling (some need) =
      if clean_exit rec
      then check_output dec required need ruling (dec.decode rec.stdout) (dec.at_end rec.stdout)
      else failed_check required []

  -- CheckBalance
  unfoldable pub check_balance : Decoder → StatusRecord → List ℕ → Option R → BalanceCheck R
  unfolding usd
  check_balance dec rec required ruling = check_required dec rec required ruling (usd required)

  abbrev pub block_of : BalanceStatus → Option R → Option Block
  block_of sufficient ruling = none
  block_of insufficient ruling = some below_reservation
  block_of unavailable (some r) = none
  block_of unavailable none = some no_ruling
  block_of check_failed ruling = some failed

  -- Blocks
  unfoldable pub blocks : BalanceCheck R → Option Block
  blocks c = block_of c.status c.ruling
