-- ===== src/Tests/Amounts.antt =====
-- Amounts with two decimal places.
use gitbounty.Base.{◌≡◌, refl, none, some, length, arith}
use gitbounty.Text.{text, ascii, before_first}
use gitbounty.Text.Decimal.{decimal}
use gitbounty.Regex.{full_match, runs}
use gitbounty.Amounts.{
  amount_to_units, units_to_amount, up_to, after_first, zeros, transfer_data, hex, reward_fields,
  asset,
}
use gitbounty.Amounts.RoundTrip.{amount_to_units-units_to_amount}

one_and_a_half : amount_to_units ascii (text "1.5") 2 ≡ some 150
unfolding amount_to_units full_match runs up_to after_first zeros before_first
one_and_a_half = refl

leading_zero : amount_to_units ascii (text "01") 2 ≡ none
unfolding amount_to_units full_match runs up_to
leading_zero = refl

printed : units_to_amount 150 2 ≡ text "1.5"
unfolding units_to_amount decimal zeros
printed = refl

transferred : length (transfer_data (text "0x5425890298aed601595a70ab815c96711a31bc65") 255) ≡ 138
unfolding transfer_data hex zeros
transferred = refl

as_usdc :
    reward_fields (some 1500000) 43113
    ≡ some (record {
      reward_avax = none;
      reward_usdc = some (text "1.5");
      reward_chain_id = some 43113;
    })
unfolding reward_fields asset units_to_amount decimal zeros
as_usdc = refl

amount_to_units-units_to_amount_example :
    amount_to_units ascii (units_to_amount 1500000 6) 6 ≡ some 1500000
amount_to_units-units_to_amount_example =
    amount_to_units-units_to_amount 1500000 5 ascii (ground arith) (ground arith)
