-- ===== src/Control/Receipt.antt =====
-- src/control.rs: the receipt of a profile change, as text and back.
use asense.Result.{Result, ok, err, ◌>>=◌, ◌>>◌}
use asense.Base.{
  ℕ, Bool, Option, List, [], ◌∷◌, ◌==◌, if◌then◌else◌, is_some, true, false, not, ◌&&◌, none, some,
  ◌++◌,
}
use asense.Base.Text.{Bytes, codes, text_eq, strip_prefix}
use asense.Base.Hex.{parse_hex, hexadecimal}
use asense.Base.Decimal.{decimal, parse_uint}
use asense.Tuning.{
  GpuOffsetState, offset_state_eq, unavailable, is_reset, is_oem_turbo, custom_or_partial,
}
use asense.Base.Keyed.{tokens, spaced}
use asense.Control.{
  ControlError, validate_profile_token, required, parse_exact_fields, protocol_error,
}

pub record ProfilePowerReceipt : Type 0 where
  pub enforced_limit_mw : ℕ
  pub maximum_limit_mw : ℕ
  pub clock_event_reasons : ℕ

pub record ProfileApplyReceipt : Type 0 where
  pub firmware_profile : Bytes
  pub gpu_offsets : GpuOffsetState
  pub gpu_pstate_count : ℕ
  pub gpu_capability_available : Bool
  pub power : Option ProfilePowerReceipt

abbrev pub receipt_names : List Bytes
receipt_names =
    codes "profile"
    ∷ codes "gpu"
    ∷ codes "pstates"
    ∷ codes "gpu_capability"
    ∷ codes "power_capability"
    ∷ codes "enforced_mw"
    ∷ codes "max_mw"
    ∷ codes "reasons"
    ∷ []

abbrev pub u32_max : ℕ
u32_max = 4294967295

abbrev pub u64_max : ℕ
u64_max = 18446744073709551615

unfoldable pub offsets_text : GpuOffsetState → Bytes
offsets_text unavailable = codes "unavailable"
offsets_text is_reset = codes "reset"
offsets_text is_oem_turbo = codes "oem-turbo"
offsets_text custom_or_partial = codes "custom-or-partial"

unfoldable pub parse_offsets : Bytes → Result ControlError GpuOffsetState
parse_offsets text =
    if text_eq text (codes "unavailable")
    then ok unavailable
    else if text_eq text (codes "reset")
    then ok is_reset
    else if text_eq text (codes "oem-turbo")
    then ok is_oem_turbo
    else if text_eq text (codes "custom-or-partial")
    then ok custom_or_partial
    else err protocol_error

unfoldable pub capability_text : Bool → Bytes
capability_text available = if available then codes "available" else codes "unavailable"

unfoldable pub parse_capability : Bytes → Result ControlError Bool
parse_capability text =
    if text_eq text (codes "available")
    then ok true
    else if text_eq text (codes "unavailable")
    then ok false
    else err protocol_error

-- the bits of the clock event reasons after their prefix
unfoldable pub parse_reasons : Bytes → Result ControlError ℕ
parse_reasons text =
    required (strip_prefix (codes "0x") text) >>= λ bits. required (parse_hex u64_max bits)

-- the four values of the power
unfoldable pub power_values : Option ProfilePowerReceipt → List Bytes
power_values none =
    codes "unavailable" ∷ codes "unavailable" ∷ codes "unavailable" ∷ codes "unavailable" ∷ []
power_values (some power) =
    codes "available"
    ∷ decimal power.enforced_limit_mw
    ∷ decimal power.maximum_limit_mw
    ∷ (codes "0x" ++ hexadecimal power.clock_event_reasons)
    ∷ []

abbrev is_unavailable : Bytes → Bool
is_unavailable text = text_eq text (codes "unavailable")

-- the power that is read from its values, after the capability
unfoldable pub parse_power :
    Bool → Bytes → Bytes → Bytes → Result ControlError (Option ProfilePowerReceipt)
unfolding parse_reasons
parse_power true enforced maximum reasons = required (parse_uint u32_max enforced) >>= λ e.
    required (parse_uint u32_max maximum) >>= λ m. parse_reasons reasons >>= λ r.
    ok (some (record { enforced_limit_mw = e; maximum_limit_mw = m; clock_event_reasons = r }))
parse_power false enforced maximum reasons =
    if is_unavailable enforced && is_unavailable maximum && is_unavailable reasons
    then ok none
    else err protocol_error

-- whether the parts of a receipt agree on whether there is a GPU
unfoldable pub consistent : Bool → GpuOffsetState → ℕ → Option ProfilePowerReceipt → Bool
consistent true offsets count power = not (offset_state_eq offsets unavailable)
consistent false offsets count power =
    offset_state_eq offsets unavailable && count == 0 && not (is_some power)

unfoldable pub receipt_fields : List Bytes → Result ControlError ProfileApplyReceipt
unfolding validate_profile_token parse_offsets parse_capability parse_power consistent
receipt_fields
      (profile ∷ gpu ∷ pstates ∷ gpu_capability ∷ capability ∷ enforced ∷ maximum ∷ reasons ∷ []) =
    validate_profile_token profile true >> parse_offsets gpu >>= λ offsets.
    required (parse_uint u64_max pstates) >>= λ count.
    parse_capability gpu_capability >>= λ available. parse_capability capability >>= λ powered.
    parse_power powered enforced maximum reasons >>= λ power.
    if consistent available offsets count power
    then ok (record {
      firmware_profile = profile;
      gpu_offsets = offsets;
      gpu_pstate_count = count;
      gpu_capability_available = available;
      power = power;
    })
    else err protocol_error
receipt_fields _ = err protocol_error

unfoldable pub parse_profile_apply_receipt : Bytes → Result ControlError ProfileApplyReceipt
unfolding parse_exact_fields receipt_fields
parse_profile_apply_receipt value = parse_exact_fields value receipt_names >>= receipt_fields

unfoldable pub receipt_values : ProfileApplyReceipt → List Bytes
unfolding offsets_text capability_text power_values
receipt_values receipt =
    receipt.firmware_profile
    ∷ offsets_text receipt.gpu_offsets
    ∷ decimal receipt.gpu_pstate_count
    ∷ capability_text receipt.gpu_capability_available
    ∷ power_values receipt.power

unfoldable pub encode_profile_apply_receipt : ProfileApplyReceipt → Bytes
unfolding tokens receipt_values
encode_profile_apply_receipt receipt = spaced (tokens receipt_names (receipt_values receipt))
