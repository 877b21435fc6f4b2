-- ===== src/Control/RoundTrip.antt =====
-- src/control.rs: the receipt of a profile change is read back from its text.
use asense.Result.{ok, ◌>>=◌}
use asense.Base.{
  ℕ, ◌≤◌, ◌≡◌, refl, Bool, true, false, Option, none, some, List, [], ◌∷◌, ◌++◌, is_some, ap, ◌∙◌,
  ◌↔◌, arith, all, All-mono, ◌||◌,
}
use asense.Base.Text.{Bytes, codes, text_eq_refl, is_whitespace}
use asense.Base.Split.{Solid}
use asense.Base.Fields.{
  Word, is_word_sound, free_of_sound, Word-append, split_once-piece, strip_prefix-append,
}
use asense.Base.Hex.{hexadecimal, parse_hex-hexadecimal, IsHexDigit, hexadecimal-IsHexDigit}
use asense.Base.Decimal.{decimal, parse_uint-decimal}
use asense.Tuning.{GpuOffsetState, unavailable, is_reset, is_oem_turbo, custom_or_partial}
use asense.Base.Keyed.{decimal-Word, tokens, spaced, Pairs, tokens-Word, fields-spaced}
use asense.Control.{
  nonempty, profile_token, exact_values, parse_exact_fields, required, is_lower, is_digit, is_dash,
  validate_profile_token,
}
use asense.Control.Receipt.{
  ProfilePowerReceipt, ProfileApplyReceipt, receipt_names, u32_max, u64_max, offsets_text,
  parse_offsets, capability_text, parse_capability, parse_reasons, power_values, parse_power,
  consistent, receipt_fields, parse_profile_apply_receipt, receipt_values,
  encode_profile_apply_receipt,
}

pub nonempty-Word : (s : Bytes) → Word s → nonempty s ≡ true
nonempty-Word [] h = absurd h
nonempty-Word (c ∷ s) h = refl

exact_values-tokens :
    (names values : List Bytes)
    → Pairs names values
    → exact_values names (tokens names values) ≡ some values
unfolding exact_values tokens
exact_values-tokens [] [] h = refl
exact_values-tokens [] (value ∷ values) h = absurd h
exact_values-tokens (name ∷ names) [] h = absurd h
exact_values-tokens (name ∷ names) (value ∷ values) (n, v, rest) =
    rw (split_once-piece 61 name value (free_of_sound 61 name (ground (arith, n))), exact_values)
      (rw (text_eq_refl name, nonempty-Word value v, exact_values-tokens names values rest) refl)

-- the fields of a spaced text are the values
pub parse_exact_fields-spaced :
    (names values : List Bytes)
    → Pairs names values
    → parse_exact_fields (spaced (tokens names values)) names ≡ ok values
unfolding parse_exact_fields
parse_exact_fields-spaced names values h =
    ap (λ pieces. required (exact_values names pieces))
      (fields-spaced (tokens names values) (tokens-Word names values h))
    ∙ ap required (exact_values-tokens names values h)

parse_offsets-offsets_text :
    (state : GpuOffsetState) → parse_offsets (offsets_text state) ≡ ok state
unfolding parse_offsets offsets_text
parse_offsets-offsets_text unavailable = refl
parse_offsets-offsets_text is_reset = refl
parse_offsets-offsets_text is_oem_turbo = refl
parse_offsets-offsets_text custom_or_partial = refl

parse_capability-capability_text :
    (available : Bool) → parse_capability (capability_text available) ≡ ok available
unfolding parse_capability capability_text
parse_capability-capability_text true = refl
parse_capability-capability_text false = refl

-- the numbers of the power are within their types
abbrev pub IsPower : Option ProfilePowerReceipt → Type 0
IsPower none = Unit
IsPower (some power) =
    (power.enforced_limit_mw ≤ u32_max)
    × (power.maximum_limit_mw ≤ u32_max)
    × (power.clock_event_reasons ≤ u64_max)

-- the parts agree: without a GPU neither offsets nor performance states nor a power, and with one
-- some state of the offsets
abbrev pub IsCoherent : Bool → GpuOffsetState → ℕ → Option ProfilePowerReceipt → Type 0
IsCoherent true offsets count power = ¬ (offsets ≡ unavailable)
IsCoherent false offsets count power = (offsets ≡ unavailable) × (count ≡ 0) × (power ≡ none)

abbrev pub IsReceipt : ProfileApplyReceipt → Type 0
IsReceipt receipt =
    (profile_token receipt.firmware_profile ≡ true)
    × (receipt.gpu_pstate_count ≤ u64_max)
    × IsPower receipt.power
    × IsCoherent receipt.gpu_capability_available receipt.gpu_offsets receipt.gpu_pstate_count
        receipt.power

pub consistent-IsCoherent :
    (available : Bool) (offsets : GpuOffsetState) (count : ℕ) (power : Option ProfilePowerReceipt)
    → (consistent available offsets count power ≡ true) ↔ IsCoherent available offsets count power
unfolding consistent
consistent-IsCoherent true offsets count power = ground arith
consistent-IsCoherent false offsets count power = ground arith

token-Word : (s : Bytes) → profile_token s ≡ true → Word s
unfolding profile_token
token-Word [] h = ground (arith, h)
token-Word (c ∷ s) h = letters (c ∷ s) (ground (arith, h))
  where
    letters : (s : Bytes) → all (λ c. is_lower c || is_digit c || is_dash c) s ≡ true → Solid s
    letters [] h = tt
    letters (c ∷ s) h = (ground (arith, h), letters s (ground (arith, h)))

reasons-text :
    (bits : ℕ) → bits ≤ u64_max → parse_reasons (codes "0x" ++ hexadecimal bits) ≡ ok bits
unfolding parse_reasons
reasons-text bits h =
    rw (strip_prefix-append (codes "0x") (hexadecimal bits))
      (rw (parse_hex-hexadecimal u64_max bits h) refl)

parse_power-power_values :
    (power : Option ProfilePowerReceipt)
    → IsPower power
    → (capability : Bytes) × (enforced : Bytes) × (maximum : Bytes) × (reasons : Bytes)
      × (power_values power ≡ capability ∷ enforced ∷ maximum ∷ reasons ∷ [])
      × (parse_capability capability ≡ ok (is_some power))
      × (parse_power (is_some power) enforced maximum reasons ≡ ok power)
unfolding power_values parse_capability parse_power
parse_power-power_values none h = (_, _, _, _, refl, refl, refl)
parse_power-power_values (some power) (e, m, r) = (
  codes "available",
  decimal power.enforced_limit_mw,
  decimal power.maximum_limit_mw,
  codes "0x" ++ hexadecimal power.clock_event_reasons,
  refl,
  refl,
  rw
      (
        parse_uint-decimal u32_max power.enforced_limit_mw e,
        parse_uint-decimal u32_max power.maximum_limit_mw m,
        reasons-text power.clock_event_reasons r,
      )
      refl,
)

hexadecimal-Solid : (n : ℕ) → Solid (hexadecimal n)
hexadecimal-Solid n =
    All-mono IsHexDigit (λ c. is_whitespace c ≡ false) (hexadecimal n) (λ c h. ground (arith, h))
      (hexadecimal-IsHexDigit n)

offsets_text-Word : (state : GpuOffsetState) → Word (offsets_text state)
unfolding offsets_text
offsets_text-Word unavailable = is_word_sound (codes "unavailable") refl
offsets_text-Word is_reset = is_word_sound (codes "reset") refl
offsets_text-Word is_oem_turbo = is_word_sound (codes "oem-turbo") refl
offsets_text-Word custom_or_partial = is_word_sound (codes "custom-or-partial") refl

capability_text-Word : (available : Bool) → Word (capability_text available)
unfolding capability_text
capability_text-Word true = is_word_sound (codes "available") refl
capability_text-Word false = is_word_sound (codes "unavailable") refl

power_names : List Bytes
power_names = codes "power_capability" ∷ codes "enforced_mw" ∷ codes "max_mw" ∷ codes "reasons" ∷ []

power_values-Pairs : (power : Option ProfilePowerReceipt) → Pairs power_names (power_values power)
unfolding power_values power_names
power_values-Pairs none =
    let absent = is_word_sound (codes "unavailable") refl in
    (refl, absent, (refl, absent, (refl, absent, (refl, absent, tt))))
power_values-Pairs (some power) = (
  refl,
  is_word_sound (codes "available") refl,
  (
    refl,
    decimal-Word power.enforced_limit_mw,
    (
      refl,
      decimal-Word power.maximum_limit_mw,
      (
        refl,
        Word-append (codes "0x") (hexadecimal power.clock_event_reasons)
            (is_word_sound (codes "0x") refl) (hexadecimal-Solid power.clock_event_reasons),
        tt,
      ),
    ),
  ),
)

receipt_values-Pairs :
    (receipt : ProfileApplyReceipt)
    → profile_token receipt.firmware_profile ≡ true
    → Pairs receipt_names (receipt_values receipt)
unfolding receipt_values power_names
receipt_values-Pairs receipt h = (
  refl,
  token-Word receipt.firmware_profile h,
  (
    refl,
    offsets_text-Word receipt.gpu_offsets,
    (
      refl,
      decimal-Word receipt.gpu_pstate_count,
      (
        refl,
        capability_text-Word receipt.gpu_capability_available,
        power_values-Pairs receipt.power,
      ),
    ),
  ),
)

receipt_fields-receipt_values :
    (receipt : ProfileApplyReceipt)
    → IsReceipt receipt
    → receipt_fields (receipt_values receipt) ≡ ok receipt
unfolding receipt_fields receipt_values validate_profile_token
receipt_fields-receipt_values receipt (token, count, power, coherent) =
    let (c, e, m, r, values, capability, parsed) = parse_power-power_values receipt.power power in
    let agree =
      (consistent-IsCoherent receipt.gpu_capability_available receipt.gpu_offsets
          receipt.gpu_pstate_count receipt.power).1
        coherent in
    rw (values, token, parse_offsets-offsets_text receipt.gpu_offsets)
      (rw
        (
          parse_uint-decimal u64_max receipt.gpu_pstate_count count,
          parse_capability-capability_text receipt.gpu_capability_available,
          capability,
          parsed,
          agree,
        )
        refl)

-- A receipt is read back from its text: a token of a profile, numbers within their types, and parts
-- that agree on whether there is a GPU.
pub parse_profile_apply_receipt-encode_profile_apply_receipt :
    (receipt : ProfileApplyReceipt)
    → IsReceipt receipt
    → parse_profile_apply_receipt (encode_profile_apply_receipt receipt) ≡ ok receipt
unfolding parse_profile_apply_receipt encode_profile_apply_receipt
parse_profile_apply_receipt-encode_profile_apply_receipt receipt h =
    ap (λ values. values >>= receipt_fields)
      (parse_exact_fields-spaced receipt_names (receipt_values receipt)
        (receipt_values-Pairs receipt h.0))
    ∙ receipt_fields-receipt_values receipt h
