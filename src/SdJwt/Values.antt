-- ===== src/SdJwt/Values.antt =====
-- `getValueFromDisclosures` (src/sd-jwt/converters.ts).
use io_react_native_wallet_i.Base.{String, none, some, List, ◌==◌, find?, if◌then◌else◌}
use io_react_native_wallet_i.Value.{Value, truthy}
use io_react_native_wallet_i.Host.{Host}
use io_react_native_wallet_i.Errors.Result.{ok, err}
use io_react_native_wallet_i.SdJwt.Types.{Disclosure}

module _ (H : Host) where
  -- A text is parsed as JSON, and stands for itself where that fails.
  parsed_text : Value → Value
  parsed_text (Value.string s) = elim (H.json_parse s) [ ok v ↦ v | err _ ↦ Value.string s ]
  parsed_text v = v

  unfoldable pub get_value_from_disclosures : List Disclosure → String → Value
  unfolding parsed_text
  get_value_from_disclosures disclosures claim_name =
      elim (find? (λ (d : Disclosure). d.name == claim_name) disclosures) [
        | none ↦ Value.undefined
        | some d ↦ if truthy d.value then parsed_text d.value else Value.undefined
      ]
