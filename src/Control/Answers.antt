-- ===== src/Control/Answers.antt =====
-- src/control.rs and src/daemon.rs together: the client takes the daemon's answer for what it was.
use asense.Result.{Result, ok, err}
use asense.Base.{
  ltb, length, all, All, All-append, ◌≡◌, refl, sym, ap, ◌∙◌, inl, inr, true, false, not, some,
  List, [], ◌∷◌, ◌++◌, arith, take, map,
}
use asense.Base.Text.{Bytes, codes, trim, strip_prefix}
use asense.Base.Utf8.{is_utf8-ascii}
use asense.Base.Split.{Lacks}
use asense.Base.Fields.{is_word_sound, trim-Word, trim_end-space}
use asense.Daemon.Protocol.Sanitize.{
  shown, sanitize_response_payload-take, IsAscii, sanitize_response_payload-IsAscii,
  length-utf8_length,
}
use asense.Daemon.Protocol.{
  max_response_line_bytes, is_control, sanitize_response_payload, response_text, response_line,
  response_text-bounded,
}
use asense.Control.{ControlError, command_rejected}
use asense.Control.Response.{ReadEvent, parse_trimmed, parse_response, answered, receive}
use asense.Control.Lines.{Harmless, bytes_of, Delivers, read_response_line-Delivers}
use mathlib.Core.List.{append_assoc}

-- what the client makes of the line, by the functions of the daemon
unfoldable pub understood : Result Bytes Bytes → Result ControlError Bytes
understood (ok value) = ok (trim (sanitize_response_payload value))
understood (err error) = err (command_rejected (trim (sanitize_response_payload error)))

parse_response-ok : (s : Bytes) → parse_response (codes "OK" ++ 32 ∷ s) ≡ ok (trim s)
unfolding parse_response parse_trimmed strip_prefix
parse_response-ok s =
    let word = trim-Word (codes "OK") (32 ∷ s) (is_word_sound (codes "OK") refl) in
    elim (trim_end-space s) [
      | inl (e, blank) ↦ ap parse_trimmed (word ∙ ap (λ t. codes "OK" ++ t) e) ∙ ap ok (sym blank)
      | inr (c, t, e, same) ↦ ap parse_trimmed (word ∙ ap (λ t. codes "OK" ++ t) e) ∙ ap ok same
    ]

parse_response-err :
    (s : Bytes) → parse_response (codes "ERR" ++ 32 ∷ s) ≡ err (command_rejected (trim s))
unfolding parse_response parse_trimmed strip_prefix
parse_response-err s =
    let word = trim-Word (codes "ERR") (32 ∷ s) (is_word_sound (codes "ERR") refl) in
    elim (trim_end-space s) [
      | inl (e, blank) ↦
          ap parse_trimmed (word ∙ ap (λ t. codes "ERR" ++ t) e)
          ∙ ap (λ t. err (command_rejected t)) (sym blank)
      | inr (c, t, e, same) ↦
          ap parse_trimmed (word ∙ ap (λ t. codes "ERR" ++ t) e)
          ∙ ap (λ t. err (command_rejected t)) same
    ]

parse_response-response_text :
    (r : Result Bytes Bytes) → parse_response (response_text r) ≡ understood r
unfolding response_text understood
parse_response-response_text (ok value) = parse_response-ok (sanitize_response_payload value)
parse_response-response_text (err error) = parse_response-err (sanitize_response_payload error)

-- a payload of ASCII
abbrev pub IsAsciiResult : Result Bytes Bytes → Type 0
IsAsciiResult (ok value) = All IsAscii value
IsAsciiResult (err error) = All IsAscii error

response_text-IsAscii : (r : Result Bytes Bytes) → IsAsciiResult r → All IsAscii (response_text r)
unfolding response_text
response_text-IsAscii (ok value) h =
    All-append IsAscii (codes "OK ") (sanitize_response_payload value)
      (omega arith, (omega arith, (omega arith, tt))) (sanitize_response_payload-IsAscii value h)
response_text-IsAscii (err error) h =
    All-append IsAscii (codes "ERR ") (sanitize_response_payload error)
      (omega arith, (omega arith, (omega arith, (omega arith, tt))))
      (sanitize_response_payload-IsAscii error h)

clean-Lacks : (s : Bytes) → all (λ c. not (is_control c)) s ≡ true → Lacks 10 s
clean-Lacks [] h = tt
clean-Lacks (c ∷ s) h = (ground (arith, h), clean-Lacks s (ground (arith, h)))

-- a payload as it is to arrive: its first 32764 characters, each end of a line as a space and any other
-- control character as a question mark, without the white space around it
abbrev pub shown_text : Bytes → Bytes
shown_text payload = trim (take 32764 (map shown payload))

-- what the client is to make of the daemon's result
unfoldable pub taken_for : Result Bytes Bytes → Result ControlError Bytes
taken_for (ok value) = ok (shown_text value)
taken_for (err error) = err (command_rejected (shown_text error))

understood-taken_for : (r : Result Bytes Bytes) → IsAsciiResult r → understood r ≡ taken_for r
unfolding understood taken_for
understood-taken_for (ok value) h = ap (λ t. ok (trim t)) (sanitize_response_payload-take value h)
understood-taken_for (err error) h =
    ap (λ t. err (command_rejected (trim t))) (sanitize_response_payload-take error h)

-- The daemon's answer, which is ASCII, is taken for what it was: whatever pieces its line comes in, with
-- interruptions and receives that run out of time before the deadline between them, the client has the
-- daemon's value, or the refusal with the daemon's text, each cut after 32764 characters, with spaces
-- for ends of lines and question marks for other control characters, and trimmed; and it leaves what
-- follows the line.
pub receive-response_line :
    (r : Result Bytes Bytes) (events : List ReadEvent) (tail : Bytes)
    → IsAsciiResult r
    → All Harmless events
    → bytes_of events ≡ response_line r ++ tail
    → Delivers (receive events) (taken_for r) tail
unfolding receive response_line
receive-response_line r events tail ascii harmless e =
    let (clean, bounded) = response_text-bounded r in
    let text = response_text r in
    let short : ltb max_response_line_bytes (length text) ≡ false =
      ground (arith, bounded, length-utf8_length text) in
    let utf8 = is_utf8-ascii text (response_text-IsAscii r ascii) in
    let (rest, reads, left, kept) =
      read_response_line-Delivers events text tail harmless (clean-Lacks text clean)
        (e ∙ append_assoc text (10 ∷ []) tail) in
    let answer = parse_response-response_text r ∙ understood-taken_for r ascii in
    (rest, ap answered reads ∙ rw (short, utf8) (ap (λ v. some (v, rest)) answer), left, kept)
