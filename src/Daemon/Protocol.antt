-- ===== src/Daemon/Protocol.antt =====
-- src/daemon.rs: the handshake that precedes every command, and the response that follows one.
pub mod Sanitize
use asense.Base.{
  ltb, ◌==◌, if◌then◌else◌, within, ==_iff, Bool-cases, Option-cases, length, all, All, ℕ, ◌+◌, ◌≤◌,
  ◌<◌, ◌≡◌, refl, ap, ◌∙◌, inl, inr, Bool, true, false, not, ◌||◌, Option, none, some, List, [],
  ◌∷◌, ◌++◌, arith,
}
use asense.Base.Text.{Bytes, codes, text_eq, fields, text_eq_sound}
use asense.Base.Utf8.{trim_utf8}
use asense.Daemon.Decoder.{Frame, end_of_stream, not_utf8, command_line}
use asense.Base.Decimal.{decimal, parse_uint}
use asense.Result.{Result, ok, err}

-- control.rs: `CONTROL_PROTOCOL_VERSION`, and the limits of a response
abbrev pub protocol_version : ℕ
protocol_version = 2

abbrev pub max_response_line_bytes : ℕ
max_response_line_bytes = 32768

abbrev pub max_response_payload_bytes : ℕ
max_response_payload_bytes = 32764

pub data ProtocolAction : Type 0 where
  handshake_accepted handshake_rejected : Bytes → ProtocolAction
  dispatch : ProtocolAction

-- `none` where the fields are no handshake; `package_version` is set by the build
unfoldable pub protocol_handshake : Bytes → List Bytes → Option (Result Bytes Bytes)
protocol_handshake package_version (hello ∷ version ∷ []) =
    if text_eq hello (codes "HELLO")
    then elim (parse_uint 65535 version) [
      | none ↦ some (err (codes "protocol version must be an integer"))
      | some v ↦
          if v == protocol_version
          then some (ok (codes "protocol=2 daemon=" ++ package_version))
          else some
              (err (codes "unsupported protocol version " ++ decimal v ++ codes "; expected 2"))
    ]
    else none
protocol_handshake package_version _ = none

abbrev pub answer : Option (Result Bytes Bytes) → Bool × ProtocolAction
answer (some (ok response)) = (true, handshake_accepted response)
answer (some (err error)) = (false, handshake_rejected error)
answer none = (false, handshake_rejected (codes "protocol negotiation required; expected HELLO 2"))

-- `ProtocolSession::accept`: whether the session is negotiated afterwards, and the action
unfoldable pub accept : Bytes → Bool → Bytes → Bool × ProtocolAction
accept package_version negotiated command =
    if negotiated
    then (true, dispatch)
    else answer (protocol_handshake package_version (fields command))

-- The commands that a connection dispatches, from the frames that it reads. A line that is not UTF-8 is
-- answered and passed over; a rejected handshake ends the connection, and so does the end of the stream.
unfoldable pub dispatched : Bytes → Bool → List Frame → List Bytes
dispatched package_version negotiated [] = []
dispatched package_version negotiated (end_of_stream ∷ rest) = []
dispatched package_version negotiated (not_utf8 ∷ rest) = dispatched package_version negotiated rest
dispatched package_version negotiated (command_line line ∷ rest) =
    let go_on = dispatched package_version true rest in
    let command = trim_utf8 line in
    elim (accept package_version negotiated command).1 [
      | handshake_accepted response ↦ go_on
      | handshake_rejected error ↦ []
      | dispatch ↦ command ∷ go_on
    ]

-- a handshake of the version that the daemon speaks
abbrev pub IsHandshake : List Bytes → Type 0
IsHandshake (hello ∷ version ∷ []) =
    (hello ≡ codes "HELLO") × (parse_uint 65535 version ≡ some protocol_version)
IsHandshake _ = ⊥

-- the first line that is UTF-8, trimmed, is a handshake
abbrev pub IsNegotiated : List Frame → Type 0
IsNegotiated [] = ⊥
IsNegotiated (end_of_stream ∷ rest) = ⊥
IsNegotiated (not_utf8 ∷ rest) = IsNegotiated rest
IsNegotiated (command_line line ∷ rest) = IsHandshake (fields (trim_utf8 line))

-- `char::len_utf8` of a code point
abbrev pub len_utf8 : ℕ → ℕ
len_utf8 c = if ltb c 128 then 1 else if ltb c 2048 then 2 else if ltb c 65536 then 3 else 4

-- `char::is_control`
abbrev pub is_control : ℕ → Bool
is_control c = ltb c 32 || within 127 159 c

-- the bytes of a text of code points
abbrev pub utf8_length : List ℕ → ℕ
utf8_length [] = 0
utf8_length (c ∷ s) = len_utf8 c + utf8_length s

unfoldable pub sanitize_character : ℕ → ℕ
sanitize_character c = if c == 13 || c == 10 then 32 else if is_control c then 63 else c

-- The loop of `sanitize_response_payload` over code points; `used` bytes are written already.
sanitize_from : ℕ → List ℕ → List ℕ
unfolding sanitize_character
sanitize_from used [] = []
sanitize_from used (c ∷ s) =
    let character = sanitize_character c in
    let rest = sanitize_from (used + len_utf8 character) s in
    if ltb max_response_payload_bytes (used + len_utf8 character) then [] else character ∷ rest

unfoldable pub sanitize_response_payload : List ℕ → List ℕ
unfolding sanitize_from
sanitize_response_payload value = sanitize_from 0 value

-- what `write_response` writes before the newline
unfoldable pub response_text : Result (List ℕ) (List ℕ) → List ℕ
response_text (ok value) = codes "OK " ++ sanitize_response_payload value
response_text (err error) = codes "ERR " ++ sanitize_response_payload error

unfoldable pub response_line : Result (List ℕ) (List ℕ) → List ℕ
response_line r = response_text r ++ 10 ∷ []

protocol_handshake-IsHandshake :
    (package_version : Bytes) (fs : List Bytes) (response : Bytes)
    → protocol_handshake package_version fs ≡ some (ok response)
    → IsHandshake fs
unfolding protocol_handshake
protocol_handshake-IsHandshake package_version [] response h = cc
protocol_handshake-IsHandshake package_version (a ∷ []) response h = cc
protocol_handshake-IsHandshake package_version (a ∷ b ∷ c ∷ rest) response h = cc
protocol_handshake-IsHandshake package_version (hello ∷ version ∷ []) response h =
    elim (Bool-cases (text_eq hello (codes "HELLO"))) [
      | inr e ↦ ground (arith, h, e)
      | inl e ↦ elim (Option-cases (parse_uint 65535 version)) [
        | inl f ↦ ground (arith, h, e, f)
        | inr (v, f) ↦ elim (Bool-cases (v == protocol_version)) [
          | inr g ↦ ground (arith, h, e, f, g)
          | inl g ↦
              (text_eq_sound hello (codes "HELLO") e, f ∙ ap some ((==_iff v protocol_version).0 g))
        ]
      ]
    ]

-- Nothing is dispatched on a connection unless its first line that is UTF-8 is a handshake of version 2;
-- lines that are not UTF-8 may stand before it.
pub dispatched-IsNegotiated :
    (package_version : Bytes) (frames : List Frame)
    → ¬ (dispatched package_version false frames ≡ [])
    → IsNegotiated frames
unfolding dispatched accept
dispatched-IsNegotiated package_version [] h = h refl
dispatched-IsNegotiated package_version (end_of_stream ∷ rest) h = h refl
dispatched-IsNegotiated package_version (not_utf8 ∷ rest) h =
    dispatched-IsNegotiated package_version rest h
dispatched-IsNegotiated package_version (command_line line ∷ rest) h =
    elim (Option-cases (protocol_handshake package_version (fields (trim_utf8 line)))) [
      | inl e ↦ elim (h (rw (e, dispatched) refl)) [ ]
      | inr (r, e) ↦ settled r e
    ]
  where
    settled :
        (r : Result Bytes Bytes)
        → protocol_handshake package_version (fields (trim_utf8 line)) ≡ some r
        → IsHandshake (fields (trim_utf8 line))
    settled (ok response) e =
        protocol_handshake-IsHandshake package_version (fields (trim_utf8 line)) response e
    settled (err error) e = elim (h (rw (e, dispatched) refl)) [ ]

sanitize_from-bounded :
    (used : ℕ) (s : List ℕ)
    → used ≤ max_response_payload_bytes
    → used + utf8_length (sanitize_from used s) ≤ max_response_payload_bytes
unfolding sanitize_from
sanitize_from-bounded used [] h = ground (arith, h)
sanitize_from-bounded used (c ∷ s) h =
    let next = used + len_utf8 (sanitize_character c) in
    elim (Bool-cases (ltb max_response_payload_bytes next)) [
      | inl e ↦ rw e (ground (arith, h))
      | inr e ↦ rw e (ground (arith, sanitize_from-bounded next s (ground (arith, e))))
    ]

sanitize_character-clean : (c : ℕ) → is_control (sanitize_character c) ≡ false
unfolding sanitize_character
sanitize_character-clean c = ground arith

sanitize_from-clean :
    (used : ℕ) (s : List ℕ) → all (λ c. not (is_control c)) (sanitize_from used s) ≡ true
unfolding sanitize_from
sanitize_from-clean used [] = refl
sanitize_from-clean used (c ∷ s) =
    let next = used + len_utf8 (sanitize_character c) in
    elim (Bool-cases (ltb max_response_payload_bytes next)) [
      | inl e ↦ rw e refl
      | inr e ↦ rw (e, sanitize_character-clean c) (sanitize_from-clean next s)
    ]

-- A response is one line: its text before the newline has no control character, and it is within
-- the limit that the client accepts.
pub response_text-bounded :
    (r : Result (List ℕ) (List ℕ))
    → (all (λ c. not (is_control c)) (response_text r) ≡ true)
      × (utf8_length (response_text r) ≤ max_response_line_bytes)
unfolding response_text sanitize_response_payload
response_text-bounded (ok value) =
    (sanitize_from-clean 0 value, ground (arith, sanitize_from-bounded 0 value (omega arith)))
response_text-bounded (err error) =
    (sanitize_from-clean 0 error, ground (arith, sanitize_from-bounded 0 error (omega arith)))
