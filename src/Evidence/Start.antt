-- ===== src/Evidence/Start.antt =====
-- When a cell may start on its balance.
use percentes.Base.{
  ℕ, ◌≡◌, refl, sym, ◌∙◌, Bool, true, false, not, ◌&&◌, Option, none, some, List, [], ◌==◌,
  bytes_eq, if◌then◌else◌, arith,
}
use percentes.Base.Rat.{Rat, gtb_rat, leb_rat}
use percentes.Evidence.Balance.{
  Decoder, StatusRecord, BalanceCheck, usd, insufficient, sufficient, block_of, failed_check,
  clean_exit, check_amount, check_output, check_required, check_balance, blocks,
}

abbrev pub is_none {ℓ} : {A : Type ℓ} → Option A → Bool
is_none none = true
is_none (some a) = false

-- An amount covers the reservation.
abbrev pub covers : Rat → Option Rat → Bool
covers need none = false
covers need (some have) = leb_rat need have

leb_rat-gtb_rat : (a b : Rat) → leb_rat a b ≡ not (gtb_rat a b)
unfolding leb_rat gtb_rat
leb_rat-gtb_rat a b = ground arith

module _ (R : Type 0) where
  -- The output is one object with an amount that covers the reservation, or with a reason for none
  -- where the route has a ruling.
  abbrev pub grants : Decoder → Rat → Option R → Option (Option (List ℕ) × Option (List ℕ)) → Bool
  grants dec need ruling none = false
  grants dec need ruling (some (none, none)) = false
  grants dec need ruling (some (some amount, some reason)) = false
  grants dec need ruling (some (none, some reason)) =
      not (dec.trim_space reason == []) && not (is_none ruling)
  grants dec need ruling (some (some amount, none)) = covers need (usd amount)

  abbrev pub may_start : Decoder → StatusRecord → Option Rat → Option R → Bool
  may_start dec rec none ruling = false
  may_start dec rec (some need) ruling =
      clean_exit rec && (dec.at_end rec.stdout && grants dec need ruling (dec.decode rec.stdout))

  block_of-lower :
      (low : Bool)
      → is_none (block_of {R = R} (if low then insufficient else sufficient) none) ≡ not low
  block_of-lower true = refl
  block_of-lower false = refl

  blocks-if :
      (clean : Bool) (required : List ℕ) (c : BalanceCheck R) (g : Bool)
      → is_none (blocks c) ≡ g
      → is_none (blocks (if clean then c else failed_check required [])) ≡ (clean && g)
  unfolding blocks
  blocks-if true required c g e = ground (arith, e)
  blocks-if false required c g e = refl

  blocks-check_amount :
      (required : List ℕ) (need : Rat) (amount : List ℕ) (o : Option Rat)
      → is_none (blocks (check_amount {R = R} required need amount o)) ≡ covers need o
  unfolding blocks
  blocks-check_amount required need amount none = refl
  blocks-check_amount required need amount (some have) =
      block_of-lower (gtb_rat need have) ∙ sym (leb_rat-gtb_rat need have)

  blocks-check_output :
      (dec : Decoder) (required : List ℕ) (need : Rat) (ruling : Option R)
      (out : Option (Option (List ℕ) × Option (List ℕ))) (at_end : Bool)
      → is_none (blocks (check_output dec required need ruling out at_end))
        ≡ (at_end && grants dec need ruling out)
  unfolding blocks
  blocks-check_output dec required need ruling none at_end = ground arith
  blocks-check_output dec required need ruling (some out) false = refl
  blocks-check_output dec required need ruling (some (none, none)) true = refl
  blocks-check_output dec required need ruling (some (some amount, some reason)) true = refl
  blocks-check_output dec required need none (some (none, some reason)) true = ground arith
  blocks-check_output dec required need (some r) (some (none, some reason)) true = ground arith
  blocks-check_output dec required need ruling (some (some amount, none)) true =
      blocks-check_amount required need amount (usd amount)

  blocks-check_required :
      (dec : Decoder) (rec : StatusRecord) (required : List ℕ) (ruling : Option R) (o : Option Rat)
      → is_none (blocks (check_required dec rec required ruling o)) ≡ may_start dec rec o ruling
  blocks-check_required dec rec required ruling none = unfold blocks in refl
  blocks-check_required dec rec required ruling (some need) =
      blocks-if (clean_exit rec) required _ _ (
        blocks-check_output dec required need ruling (dec.decode rec.stdout)
          (dec.at_end rec.stdout))

-- A balance check does not block the cell exactly when the reservation is a decimal number, the
-- command exited 0 without an error, and its output is one JSON object and nothing else, with an amount
-- that is a decimal number no lower than the reservation, or with a reason that is not blank for a
-- balance that is not to be had, where the route has a ruling for that.
pub check_balance-may_start :
    (R : Type 0) (dec : Decoder) (rec : StatusRecord) (required : List ℕ) (ruling : Option R)
    → is_none (blocks (check_balance dec rec required ruling))
      ≡ may_start R dec rec (usd required) ruling
unfolding check_balance
check_balance-may_start R dec rec required ruling =
    blocks-check_required R dec rec required ruling (usd required)
