-- ===== src/Control/Handshake.antt =====
-- src/control.rs: the handshake of a new client, and the daemon's side of it.
use asense.Result.{Result, ok, err, ◌>>=◌, >>=-succeeds}
use asense.Base.{
  ◌==◌, if◌then◌else◌, length, all, All, ℕ, ◌≤◌, ◌≡◌, refl, ap, ◌∙◌, Bool, true, false, not, List,
  [], ◌∷◌, ◌++◌, arith, ltb, All-append,
}
use asense.Base.Text.{Bytes, codes, trim, fields}
use asense.Base.Fields.{Word, is_word_sound, Word-Solid, Word-append, trim-words}
use asense.Base.Decimal.{parse_uint}
use asense.Daemon.Protocol.Sanitize.{IsAscii, sanitize_response_payload-same}
use asense.Daemon.Protocol.{
  protocol_version, protocol_handshake, answer, accept, is_control, sanitize_response_payload,
  handshake_accepted,
}
use asense.Base.Keyed.{tokens, spaced}
use asense.Control.{
  ControlError, command_rejected, nonempty, required, parse_exact_fields, protocol_error,
}
use asense.Control.RoundTrip.{nonempty-Word, parse_exact_fields-spaced}
use asense.Control.Answers.{understood}

pub record HandshakeReceipt : Type 0 where
  pub protocol : ℕ
  pub daemon_version : Bytes

abbrev pub handshake_names : List Bytes
handshake_names = codes "protocol" ∷ codes "daemon" ∷ []

unfoldable pub handshake_fields : List Bytes → Result ControlError HandshakeReceipt
handshake_fields (protocol ∷ daemon ∷ []) = required (parse_uint 65535 protocol) >>= λ version.
    if nonempty daemon
    then ok (record { protocol = version; daemon_version = daemon })
    else err protocol_error
handshake_fields _ = err protocol_error

unfoldable pub parse_handshake : Bytes → Result ControlError HandshakeReceipt
unfolding parse_exact_fields handshake_fields
parse_handshake value = parse_exact_fields value handshake_names >>= handshake_fields

-- a refusal of the negotiation is an error of the protocol
abbrev pub refused_as_protocol : {A : Type 0} → Result ControlError A → Result ControlError A
refused_as_protocol (err (command_rejected e)) = err protocol_error
refused_as_protocol r = r

-- what `from_stream` makes of the response to its `HELLO`
unfoldable pub negotiate : Result ControlError Bytes → Result ControlError HandshakeReceipt
unfolding parse_handshake
negotiate response = refused_as_protocol response >>= parse_handshake >>= λ handshake.
    if handshake.protocol == protocol_version then ok handshake else err protocol_error

abbrev pub hello : Bytes
hello = codes "HELLO 2"

-- a version that the build sets: printable ASCII without a space, and not long
abbrev pub IsVersion : Bytes → Type 0
IsVersion version =
    Word version
    × All IsAscii version
    × (all (λ c. not (is_control c)) version ≡ true)
    × (length version ≤ 1000)

receipt_text : Bytes → Bytes
receipt_text version = spaced (tokens handshake_names (codes "2" ∷ version ∷ []))

parse_handshake-version :
    (version : Bytes)
    → Word version
    → parse_handshake (codes "protocol=2 daemon=" ++ version)
      ≡ ok (record { protocol = 2; daemon_version = version })
unfolding parse_handshake tokens handshake_fields parse_uint
parse_handshake-version version h =
    ap (λ values. values >>= handshake_fields)
      (parse_exact_fields-spaced handshake_names (codes "2" ∷ version ∷ [])
        (refl, is_word_sound (codes "2") refl, (refl, h, tt)))
    ∙ given (nonempty version) (nonempty-Word version h)
  where
    given :
        (some_byte : Bool)
        → some_byte ≡ true
        → ◌≡◌ {A = Result ControlError HandshakeReceipt}
            (if some_byte
              then ok (record { protocol = 2; daemon_version = version })
              else err protocol_error)
            (ok (record { protocol = 2; daemon_version = version }))
    given true e = refl
    given false e = ground (arith, e)

fields-hello : fields hello ≡ codes "HELLO" ∷ codes "2" ∷ []
unfolding fields
fields-hello = refl

accept-hello :
    (version : Bytes)
    → accept version false hello
      ≡ (true, handshake_accepted (codes "protocol=2 daemon=" ++ version))
unfolding accept protocol_handshake parse_uint
accept-hello version = ap (λ words. answer (protocol_handshake version words)) fields-hello

clean-version :
    (version : Bytes)
    → IsVersion version
    → sanitize_response_payload (codes "protocol=2 daemon=" ++ version)
      ≡ codes "protocol=2 daemon=" ++ version
clean-version version (word, ascii, clean, short) =
    sanitize_response_payload-same (codes "protocol=2 daemon=" ++ version)
      (All-append IsAscii (codes "protocol=2 daemon=") version
        (all_sound_ascii (codes "protocol=2 daemon=") refl) ascii)
      clean (omega (arith, short))
  where
    all_sound_ascii : (s : Bytes) → all (λ c. ltb c 128) s ≡ true → All IsAscii s
    all_sound_ascii [] h = tt
    all_sound_ascii (c ∷ s) h = (ground (arith, h), all_sound_ascii s (ground (arith, h)))

-- A client that says HELLO to a daemon with a version of printable ASCII is accepted, and the answer, as
-- the client understands it, names protocol 2 and that version; and whatever is answered, a client
-- that has negotiated speaks protocol 2.
pub negotiate-accept :
    (version : Bytes)
    → IsVersion version
    → (accept version false hello
        ≡ (true, handshake_accepted (codes "protocol=2 daemon=" ++ version)))
      × (negotiate (understood (ok (codes "protocol=2 daemon=" ++ version)))
          ≡ ok (record { protocol = 2; daemon_version = version }))
      × ((response : Result ControlError Bytes) (receipt : HandshakeReceipt)
          → negotiate response ≡ ok receipt
          → receipt.protocol ≡ 2)
unfolding understood negotiate
negotiate-accept version valid = (accept-hello version, agreed, spoken)
  where
    trimmed :
        trim (sanitize_response_payload (codes "protocol=2 daemon=" ++ version))
        ≡ codes "protocol=2 daemon=" ++ version
    trimmed =
        ap trim (clean-version version valid)
        ∙ trim-words (codes "protocol=2") (codes "daemon=" ++ version)
            (is_word_sound (codes "protocol=2") refl)
            (Word-append (codes "daemon=") version (is_word_sound (codes "daemon=") refl)
              (Word-Solid version valid.0))

    agreed :
        negotiate (understood (ok (codes "protocol=2 daemon=" ++ version)))
        ≡ ok (record { protocol = 2; daemon_version = version })
    agreed = rw (trimmed, parse_handshake-version version valid.0) refl

    spoken :
        (response : Result ControlError Bytes) (receipt : HandshakeReceipt)
        → negotiate response ≡ ok receipt
        → receipt.protocol ≡ 2
    spoken response receipt h =
        let (handshake, parsed, kept) =
          >>=-succeeds (refused_as_protocol response >>= parse_handshake) _ h in
        ground (arith, kept)
