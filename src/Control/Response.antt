-- ===== src/Control/Response.antt =====
-- src/control.rs: reading one response and taking it apart. What `fill_buf` gives is a list of events.
use asense.Result.{Result, ok, err, ◌>>=◌}
use asense.Base.{
  ltb, ◌==◌, if◌then◌else◌, length, ℕ, ◌-◌, Bool, true, false, Option, none, some, List, [], ◌∷◌,
  ◌++◌,
}
use asense.Base.Utf8.{is_utf8}
use asense.Base.Text.{Bytes, codes, text_eq, trim, strip_prefix}
use asense.Daemon.Protocol.{max_response_line_bytes}
use asense.Control.{ControlError, command_rejected, transport, timed_out, protocol_error}

-- What `fill_buf` gives: the bytes in the buffer, none of them at the end of the stream, or an error.
-- For a receive that ran out of time it is known whether the deadline lies ahead.
pub data ReadEvent : Type 0 where
  available : Bytes → ReadEvent
  interrupted failed : ReadEvent
  would_block : (before_deadline : Bool) → ReadEvent

-- the bytes before the first line feed, and those behind it if there is one
abbrev pub with_first : ℕ → Bytes × Option Bytes → Bytes × Option Bytes
with_first c (payload, after) = (c ∷ payload, after)

unfoldable pub cut_line : Bytes → Bytes × Option Bytes
cut_line [] = ([], none)
cut_line (c ∷ s) = let rest = cut_line s in if c == 10 then ([], some s) else with_first c rest

-- the response so far, and whether it was dropped for its length
unfoldable pub gather : Bytes → Bool → Bytes → Bytes × Bool
gather response oversized payload =
    if oversized
    then (response, true)
    else if ltb (max_response_line_bytes - length response) (length payload)
    then ([], true)
    else (response ++ payload, false)

unfoldable pub finished : Bytes × Bool → Result ControlError Bytes
finished (response, oversized) =
    if oversized
    then err protocol_error
    else if is_utf8 response
    then ok response
    else err protocol_error

-- what is left of the buffer is given again
abbrev pub left_over : Bytes → List ReadEvent → List ReadEvent
left_over [] more = more
left_over (c ∷ s) more = available (c ∷ s) ∷ more

-- The loop of `read_response_line`: nothing while it waits for the next event, else its result with the
-- events that it leaves.
unfoldable pub read_from :
    Bytes → Bool → List ReadEvent → Option (Result ControlError Bytes × List ReadEvent)
read_from response oversized [] = none
read_from response oversized (available [] ∷ more) =
    some (if oversized then err protocol_error else err transport, more)
read_from response oversized (available (c ∷ s) ∷ more) =
    let (payload, after) = cut_line (c ∷ s) in
    let (kept, dropped) = gather response oversized payload in
    elim after [
      | none ↦ read_from kept dropped more
      | some behind ↦ some (finished (kept, dropped), left_over behind more)
    ]
read_from response oversized (interrupted ∷ more) = read_from response oversized more
read_from response oversized (would_block true ∷ more) = read_from response oversized more
read_from response oversized (would_block false ∷ more) = some (err timed_out, more)
read_from response oversized (failed ∷ more) = some (err transport, more)

unfoldable pub read_response_line :
    List ReadEvent → Option (Result ControlError Bytes × List ReadEvent)
unfolding read_from
read_response_line events = read_from [] false events

-- the tests of `parse_response` on what is left after trimming
unfoldable pub parse_trimmed : Bytes → Result ControlError Bytes
parse_trimmed response =
    if text_eq response (codes "OK") then ok [] else elim (strip_prefix (codes "OK ") response) [
      | some value ↦ ok (trim value)
      | none ↦
          if text_eq response (codes "ERR")
          then err (command_rejected [])
          else elim (strip_prefix (codes "ERR ") response) [
            | some error ↦ err (command_rejected (trim error))
            | none ↦ err protocol_error
          ]
    ]

unfoldable pub parse_response : Bytes → Result ControlError Bytes
unfolding parse_trimmed
parse_response line = parse_trimmed (trim line)

abbrev pub answered :
    Option (Result ControlError Bytes × List ReadEvent)
    → Option (Result ControlError Bytes × List ReadEvent)
answered none = none
answered (some (line, rest)) = some (line >>= parse_response, rest)

-- the reading half of `ControlClient::request`
unfoldable pub receive : List ReadEvent → Option (Result ControlError Bytes × List ReadEvent)
unfolding read_response_line
receive events = answered (read_response_line events)
