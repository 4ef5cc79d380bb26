-- ===== src/Validators/Cbu/Tests.antt =====
-- Tests of the CBU component, and its theorems at concrete texts.
use insyta_api.Prelude.{
  ◌≤◌, ◌≡◌, refl, Bool, true, false, some, [], ◌∷◌, ◌++◌, length, arith, Text, txt, ascii, strip,
}
use insyta_api.Validators.Cbu.{validate_cbu, check_digit, weighted_sum, find_cbus, validate_alias}
use insyta_api.Validators.Cbu.Detection.{validate_cbu-change, validate_cbu_total}
use insyta_api.Validators.Cbu.Alias.{Alias, validate_alias_iff}

abbrev accepted : Text
accepted = txt "2850590940090418135201"

accepted_valid : validate_cbu ascii accepted ≡ some true
unfolding validate_cbu weighted_sum check_digit
accepted_valid = refl

found :
    find_cbus ascii (txt "CBU 2850590940090418135201, o 28505909400904181352012") ≡ accepted ∷ []
unfolding find_cbus
found = refl

validate_cbu-change_example :
    validate_cbu ascii (txt "285059094009" ++ b'7' ∷ txt "418135201") ≡ some false
validate_cbu-change_example =
    validate_cbu-change ascii (txt "285059094009") b'0' b'7' 0 7 (txt "418135201") refl refl
      (omega arith) accepted_valid

validate_cbu_total_example : (b : Bool) × (validate_cbu ascii (txt "12-3") ≡ some b)
validate_cbu_total_example = validate_cbu_total ascii (txt "12-3")

alias_valid : validate_alias ascii (txt " mi.alias-01 ") ≡ true
unfolding validate_alias strip
alias_valid = refl

validate_alias_iff_example :
    (6 ≤ length (strip ascii (txt " mi.alias-01 ")))
    × (length (strip ascii (txt " mi.alias-01 ")) ≤ 20)
    × Alias (strip ascii (txt " mi.alias-01 "))
validate_alias_iff_example = (validate_alias_iff ascii (txt " mi.alias-01 ")).0 alias_valid
