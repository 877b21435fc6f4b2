-- ===== src/Control.antt =====
-- src/control.rs: the client of the control socket. An error keeps its kind and, where the daemon
-- refused a command, the daemon's text.
pub mod Response
pub mod Commands
pub mod Carried
pub mod Words
pub mod Plain
pub mod Trimmed
pub mod Delivered
pub mod Handshake
mod Examples
pub mod Answers
pub mod Lines
pub mod Receipt
pub mod Coherent
pub mod RoundTrip
use asense.Result.{Result, ok, err}
use asense.Base.{
  leb, ◌==◌, if◌then◌else◌, within, length, all, ℕ, Bool, true, false, not, ◌&&◌, ◌||◌, Option,
  none, some, List, [], ◌∷◌,
}
use asense.Base.Text.{Bytes, text_eq, split_once, fields}

pub data ControlError : Type 0 where
  command_rejected : Bytes → ControlError
  invalid_request transport timed_out protocol_error : ControlError

unfoldable pub invalidates_session : ControlError → Bool
invalidates_session transport = true
invalidates_session timed_out = true
invalidates_session protocol_error = true
invalidates_session _ = false

-- `require_capability`
abbrev pub require_capability : Bool → Bool → Result ControlError Unit
require_capability valid protocol =
    if valid then ok tt else if protocol then err protocol_error else err invalid_request

-- a byte of `is_ascii_lowercase`, `is_ascii_uppercase`, `is_ascii_digit`
abbrev pub is_lower : ℕ → Bool
is_lower c = within 97 122 c

abbrev pub is_upper : ℕ → Bool
is_upper c = within 65 90 c

abbrev pub is_digit : ℕ → Bool
is_digit c = within 48 57 c

abbrev pub is_dash : ℕ → Bool
is_dash c = c == 45 || c == 95

abbrev pub max_capability_token_bytes : ℕ
max_capability_token_bytes = 48

abbrev pub max_control_command_bytes : ℕ
max_control_command_bytes = 192

abbrev pub nonempty : Bytes → Bool
nonempty [] = false
nonempty (c ∷ s) = true

unfoldable pub profile_token : Bytes → Bool
profile_token value =
    nonempty value
    && leb (length value) max_capability_token_bytes
    && all (λ c. is_lower c || is_digit c || is_dash c) value

unfoldable pub validate_profile_token : Bytes → Bool → Result ControlError Unit
unfolding profile_token
validate_profile_token value protocol = require_capability (profile_token value) protocol

unfoldable pub valid_lighting_device_id : Bytes → Bool
valid_lighting_device_id value =
    nonempty value
    && leb (length value) max_capability_token_bytes
    && all (λ c. is_lower c || is_upper c || is_digit c || is_dash c) value

-- the pairing of names and tokens of `parse_exact_fields`
unfoldable pub exact_values : List Bytes → List Bytes → Option (List Bytes)
exact_values [] [] = some []
exact_values (expected ∷ names) (token ∷ tokens) = elim (split_once 61 token) [
  | none ↦ none
  | some (name, value) ↦
      let rest = exact_values names tokens in
      if not (text_eq name expected) || not (nonempty value)
      then none
      else elim rest [ none ↦ none | some values ↦ some (value ∷ values) ]
]
exact_values _ _ = none

-- `ok_or` with an error of the protocol
abbrev pub required : {A : Type 0} → Option A → Result ControlError A
required none = err protocol_error
required (some a) = ok a

unfoldable pub parse_exact_fields : Bytes → List Bytes → Result ControlError (List Bytes)
unfolding exact_values
parse_exact_fields value names = required (exact_values names (fields value))
