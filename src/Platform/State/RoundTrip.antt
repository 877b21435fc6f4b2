-- ===== src/Platform/State/RoundTrip.antt =====
-- src/platform.rs: the state that the daemon sends is the state that the client reads.
use asense.Result.{Result, ok, err, ◌>>=◌}
use asense.Base.{
  All-append, length, ◌==◌, ltb, ℕ, ◌≤◌, ◌≡◌, refl, ap, ◌∙◌, Bool, true, false, Option, none, some,
  List, [], ◌∷◌, ◌++◌, if◌then◌else◌, arith,
}
use asense.Base.Text.{fields, is_whitespace, Bytes, codes, text_eq}
use asense.Base.Split.{Lacks, Solid, decimal-Solid}
use asense.Base.Fields.{Word, is_word_sound, free_of, free_of_sound, split_once-piece}
use asense.Base.Hex.{IsByteColor, hex_color, hex_color-Solid}
use asense.Base.Keyed.{decimal-Word, tokens, Pairs, tokens-Word, fields-spaced}
use asense.Base.Decimal.{decimal, parse_uint, parse_uint-decimal}
use asense.Platform.{
  PlatformError, UsbCharging, from_threshold, RearLogoState, parse_bool, encode_bool, encode_logo,
  parse_logo, invalid_field, threshold, disabled, stop_at_10, stop_at_20, stop_at_30,
}
use asense.Platform.Controls.{PlatformState}
use asense.Platform.Logo.{parse_logo-encode_logo}
use asense.Platform.State.{
  state_names, state_values, encode_state, no_slots, complete, parse_state, limit_field,
  calibration_field, timeout_field, sound_field, lcd_field, usb_field, logo_field, mask_field,
  number_or, unsupported_text, encode_optional_bool, encode_optional_usb, encode_optional_logo,
  Field, Slots, supported, parse_optional_bool, parse_optional_usb, parse_read_error_mask,
  parse_field, store_field, read_field, read_fields,
}

-- fields that parse, one for each name and value
abbrev Parses : List Bytes → List Bytes → List Field → Type 0
Parses [] [] [] = Unit
Parses (name ∷ names) (value ∷ values) (field ∷ more) =
    (free_of 61 name ≡ true) × (parse_field name value ≡ ok field) × Parses names values more
Parses _ _ _ = ⊥

abbrev store_fields : List Field → Slots → Result PlatformError Slots
store_fields [] slots = ok slots
store_fields (field ∷ more) slots = store_field field slots >>= store_fields more

read_field-token :
    (name value : Bytes) (field : Field) (slots : Slots)
    → free_of 61 name ≡ true
    → parse_field name value ≡ ok field
    → read_field (name ++ 61 ∷ value) slots ≡ store_field field slots
unfolding read_field
read_field-token name value field slots free parsed =
    rw (split_once-piece 61 name value (free_of_sound 61 name free), read_field) (rw parsed refl)

read_fields-tokens :
    (names values : List Bytes) (found : List Field) (slots : Slots)
    → Parses names values found
    → read_fields (tokens names values) slots ≡ store_fields found slots
unfolding read_fields tokens
read_fields-tokens [] [] [] slots h = refl
read_fields-tokens [] [] (field ∷ more) slots h = absurd h
read_fields-tokens [] (value ∷ values) found slots h = absurd h
read_fields-tokens (name ∷ names) [] found slots h = absurd h
read_fields-tokens (name ∷ names) (value ∷ values) [] slots h = absurd h
read_fields-tokens (name ∷ names) (value ∷ values) (field ∷ more) slots (free, parsed, rest) =
    ap (λ r. r >>= read_fields (tokens names values))
      (read_field-token name value field slots free parsed)
    ∙ onward (λ next. read_fields-tokens names values more next rest) (store_field field slots)
  where
    onward :
        ((next : Slots) → read_fields (tokens names values) next ≡ store_fields more next)
        → (r : Result PlatformError Slots)
        → (r >>= read_fields (tokens names values)) ≡ (r >>= store_fields more)
    onward step (ok next) = step next
    onward step (err e) = refl

parse_optional_bool-encode_optional_bool :
    (o : Option Bool) → parse_optional_bool (encode_optional_bool o) ≡ ok o
unfolding parse_optional_bool encode_optional_bool parse_bool
parse_optional_bool-encode_optional_bool none = refl
parse_optional_bool-encode_optional_bool (some true) = refl
parse_optional_bool-encode_optional_bool (some false) = refl

parse_optional_usb-encode_optional_usb :
    (o : Option UsbCharging) → parse_optional_usb (encode_optional_usb o) ≡ ok o
unfolding parse_optional_usb encode_optional_usb decimal parse_uint from_threshold
parse_optional_usb-encode_optional_usb none = refl
parse_optional_usb-encode_optional_usb (some disabled) = refl
parse_optional_usb-encode_optional_usb (some stop_at_10) = refl
parse_optional_usb-encode_optional_usb (some stop_at_20) = refl
parse_optional_usb-encode_optional_usb (some stop_at_30) = refl

-- the logo's numbers are within their ranges
abbrev pub IsLogo : Option RearLogoState → Type 0
IsLogo none = Unit
IsLogo (some logo) = IsByteColor (logo.red, logo.green, logo.blue) × (logo.brightness ≤ 100)

encode_bool-plain :
    (b : Bool)
    → Lacks 44 (encode_bool b) × (parse_bool (encode_bool b) ≡ ok b) × Solid (encode_bool b)
unfolding parse_bool
encode_bool-plain true = (free_of_sound 44 (codes "on") refl, refl, is_word_sound (codes "on") refl)
encode_bool-plain false =
    (free_of_sound 44 (codes "off") refl, refl, is_word_sound (codes "off") refl)

logo_is_supported :
    (logo : RearLogoState)
    → logo.red ≤ 255
    → text_eq (encode_logo (encode_bool logo.enabled) logo) unsupported_text ≡ false
unfolding encode_logo
logo_is_supported logo h = ground (arith, h)

parse_logo-optional :
    (o : Option RearLogoState) → IsLogo o → supported parse_logo (encode_optional_logo o) ≡ ok o
unfolding encode_optional_logo
parse_logo-optional none h = refl
parse_logo-optional (some logo) ((r, g, b), dim) =
    let (free, on, solid) = encode_bool-plain logo.enabled in
    rw
      (
        logo_is_supported logo r,
        parse_logo-encode_logo logo (encode_bool logo.enabled) r g b dim free on,
      )
      refl

number_or-decimal : (n : ℕ) (e : PlatformError) → n ≤ 255 → number_or 255 e (decimal n) ≡ ok n
number_or-decimal n e h =
    ap (λ o. elim o [ none ↦ err e | some m ↦ ok m ]) (parse_uint-decimal 255 n h)

parse_read_error_mask-decimal :
    (mask : ℕ) → mask ≤ 127 → parse_read_error_mask (decimal mask) ≡ ok mask
unfolding parse_read_error_mask
parse_read_error_mask-decimal mask h =
    let known : ltb 127 mask ≡ false = ground (arith, h) in
    ap (λ r. r >>= λ m. if ltb 127 m then err invalid_field else ok m)
      (number_or-decimal mask invalid_field (omega arith))
    ∙ rw known refl

encode_optional_bool-Word : (o : Option Bool) → Word (encode_optional_bool o)
unfolding encode_optional_bool
encode_optional_bool-Word none = is_word_sound (codes "unsupported") refl
encode_optional_bool-Word (some true) = is_word_sound (codes "on") refl
encode_optional_bool-Word (some false) = is_word_sound (codes "off") refl

encode_optional_usb-Word : (o : Option UsbCharging) → Word (encode_optional_usb o)
unfolding encode_optional_usb
encode_optional_usb-Word none = is_word_sound (codes "unsupported") refl
encode_optional_usb-Word (some mode) = decimal-Word (threshold mode)

encode_optional_logo-Word : (o : Option RearLogoState) → IsLogo o → Word (encode_optional_logo o)
unfolding encode_optional_logo encode_logo
encode_optional_logo-Word none h = is_word_sound (codes "unsupported") refl
encode_optional_logo-Word (some logo) (color, dim) =
    let (_, _, switch) = encode_bool-plain logo.enabled in
    All-append (λ c. is_whitespace c ≡ false) (hex_color (logo.red, logo.green, logo.blue))
      (44 ∷ decimal logo.brightness ++ 44 ∷ encode_bool logo.enabled)
      (hex_color-Solid (logo.red, logo.green, logo.blue) color)
      (
        refl,
        All-append (λ c. is_whitespace c ≡ false) (decimal logo.brightness)
            (44 ∷ encode_bool logo.enabled) (decimal-Solid logo.brightness) (refl, switch),
      )

state_values-Pairs :
    (state : PlatformState) → IsLogo state.rear_logo → Pairs state_names (state_values state)
unfolding state_values
state_values-Pairs state h = (
  refl,
  encode_optional_bool-Word state.battery_limit,
  (
    refl,
    encode_optional_bool-Word state.battery_calibration,
    (
      refl,
      encode_optional_usb-Word state.usb_charging,
      (
        refl,
        encode_optional_bool-Word state.keyboard_timeout,
        (
          refl,
          encode_optional_bool-Word state.boot_sound,
          (
            refl,
            encode_optional_bool-Word state.lcd_override,
            (
              refl,
              encode_optional_logo-Word state.rear_logo h,
              (refl, decimal-Word state.read_error_mask, tt),
            ),
          ),
        ),
      ),
    ),
  ),
)

abbrev state_fields : PlatformState → List Field
state_fields state =
    limit_field state.battery_limit
    ∷ calibration_field state.battery_calibration
    ∷ usb_field state.usb_charging
    ∷ timeout_field state.keyboard_timeout
    ∷ sound_field state.boot_sound
    ∷ lcd_field state.lcd_override
    ∷ logo_field state.rear_logo
    ∷ mask_field state.read_error_mask
    ∷ []

bool_field :
    (field : Option Bool → Field) (o : Option Bool)
    → (parse_optional_bool (encode_optional_bool o) >>= λ v. ok (field v)) ≡ ok (field o)
bool_field field o = ap (λ r. r >>= λ v. ok (field v)) (parse_optional_bool-encode_optional_bool o)

state_values-Parses :
    (state : PlatformState)
    → IsLogo state.rear_logo
    → state.read_error_mask ≤ 127
    → Parses state_names (state_values state) (state_fields state)
unfolding state_values parse_field
state_values-Parses state h k = (
  refl,
  bool_field limit_field state.battery_limit,
  (
    refl,
    bool_field calibration_field state.battery_calibration,
    (
      refl,
      ap (λ r. r >>= λ v. ok (usb_field v))
          (parse_optional_usb-encode_optional_usb state.usb_charging),
      (
        refl,
        bool_field timeout_field state.keyboard_timeout,
        (
          refl,
          bool_field sound_field state.boot_sound,
          (
            refl,
            bool_field lcd_field state.lcd_override,
            (
              refl,
              ap (λ r. r >>= λ v. ok (logo_field v)) (parse_logo-optional state.rear_logo h),
              (
                refl,
                ap (λ r. r >>= λ v. ok (mask_field v))
                    (parse_read_error_mask-decimal state.read_error_mask k),
                tt,
              ),
            ),
          ),
        ),
      ),
    ),
  ),
)

eight_tokens : (state : PlatformState) → length (tokens state_names (state_values state)) ≡ 8
unfolding tokens state_values
eight_tokens state = refl

fields-encode_state :
    (state : PlatformState)
    → IsLogo state.rear_logo
    → fields (encode_state state) ≡ tokens state_names (state_values state)
unfolding encode_state
fields-encode_state state h =
    fields-spaced (tokens state_names (state_values state))
      (tokens-Word state_names (state_values state) (state_values-Pairs state h))

read_fields-state :
    (state : PlatformState)
    → IsLogo state.rear_logo
    → state.read_error_mask ≤ 127
    → (read_fields (tokens state_names (state_values state)) no_slots >>= complete) ≡ ok state
unfolding store_field complete
read_fields-state state h k =
    ap (λ r. r >>= complete)
      (read_fields-tokens state_names (state_values state) (state_fields state) no_slots
        (state_values-Parses state h k))

-- The text that encodes a state of the platform is parsed as that state, whatever is unsupported
-- in it, when the logo's channels are bytes and its brightness is at most 100, and the mask has
-- the seven known bits at most.
pub parse_state-encode_state :
    (state : PlatformState)
    → IsLogo state.rear_logo
    → state.read_error_mask ≤ 127
    → parse_state (encode_state state) ≡ ok state
unfolding parse_state
parse_state-encode_state state h k =
    let eight : length (tokens state_names (state_values state)) ≡ 8 = eight_tokens state in
    ap
      (λ pieces.
        if length pieces == 8
        then (read_fields pieces no_slots >>= complete)
        else err invalid_field)
      (fields-encode_state state h)
    ∙ (rw eight (read_fields-state state h k))
