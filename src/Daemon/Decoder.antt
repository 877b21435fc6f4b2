-- ===== src/Daemon/Decoder.antt =====
-- src/daemon.rs: `CommandDecoder`, the line decoder with a bound on what it keeps.
use mathlib.Core.List.{append_assoc, append-nil}
use asense.Base.{
  ltb, if◌then◌else◌, length, ℕ, ◌-◌, ◌≤◌, ◌≡◌, Option, none, some, List, [], ◌∷◌, ◌++◌, ◌==◌,
  Bool-cases, Option-cases, length-append, refl, inl, inr, arith, ap, ◌∙◌, true, false, ◌<◌, sym,
}
use asense.Base.Utf8.{is_utf8}
use asense.Base.Text.{Bytes, split_once, longer}
use asense.Result.{Result, ok, err}

-- control.rs: `MAX_CONTROL_COMMAND_BYTES`
abbrev pub max_command_bytes : ℕ
max_command_bytes = 192

-- what `fill_buf` gives: bytes, none at the end of the stream, or an error such as a timeout
pub data Filled : Type 0 where
  buffer : Bytes → Filled
  interrupted : Filled

pub data ReadError : Type 0 where
  read_failed ended_before_newline exceeded_limit : ReadError

-- What a read gives: `Ok(None)`, or a command, or the refusal of a line that is not UTF-8, which does
-- not end the connection.
pub data Frame : Type 0 where
  end_of_stream not_utf8 : Frame
  command_line : Bytes → Frame

-- the result of a read, what is still pending, and what the reader will give next
abbrev pub Decoded : Type 0
Decoded = Result ReadError Frame × Bytes × List Filled

-- `push`: the bytes that are kept, if they are within the limit
unfoldable pub push : Bytes → Bytes → Option Bytes
push pending bytes =
    if ltb (max_command_bytes - length pending) (length bytes)
    then none
    else some (pending ++ bytes)

-- the rest of a buffer after `consume`
abbrev pub resume : Bytes → List Filled → List Filled
resume [] rest = rest
resume (c ∷ s) rest = buffer (c ∷ s) ∷ rest

unfoldable pub at_end : Bytes → List Filled → Decoded
at_end [] rest = (ok end_of_stream, [], rest)
at_end (c ∷ s) rest = (err ended_before_newline, [], rest)

-- `finish`: the line as a text
unfoldable pub decode_line : Bytes → Frame
decode_line line = if is_utf8 line then command_line line else not_utf8

unfoldable pub finish_line : Option Bytes → List Filled → Decoded
unfolding decode_line
finish_line none rest = (err exceeded_limit, [], rest)
finish_line (some line) rest = (ok (decode_line line), [], rest)

-- The loop of `CommandDecoder::read`, over the buffers that the reader gives.
unfoldable pub read_command : Bytes → List Filled → Decoded
unfolding at_end finish_line push
read_command pending [] = at_end pending []
read_command pending (interrupted ∷ rest) = (err read_failed, pending, rest)
read_command pending (buffer [] ∷ rest) = at_end pending rest
read_command pending (buffer (c ∷ s) ∷ rest) = elim (split_once 10 (c ∷ s)) [
  | some (before, after) ↦ finish_line (push pending before) (resume after rest)
  | none ↦ elim (push pending (c ∷ s)) [
    | none ↦ (err exceeded_limit, [], rest)
    | some kept ↦ read_command kept rest
  ]
]

-- The contract: a frame is the first line of the stream, however it is cut into buffers.
unfoldable pub unfinished : Bytes → Result ReadError Frame
unfinished [] = ok end_of_stream
unfinished (c ∷ s) = err ended_before_newline

unfoldable pub judge : Option (Bytes × Bytes) → Bytes → Result ReadError Frame
judge (some (line, rest)) s =
    if ltb max_command_bytes (length line)
    then err exceeded_limit
    else if is_utf8 line
    then ok (command_line line)
    else ok not_utf8
judge none s = if ltb max_command_bytes (length s) then err exceeded_limit else unfinished s

unfoldable pub first_frame : Bytes → Result ReadError Frame
unfolding judge unfinished
first_frame s = judge (split_once 10 s) s

-- the bytes of a stream, and a stream in which no read fails and only the end is empty
abbrev pub bytes_of : List Filled → Bytes
bytes_of [] = []
bytes_of (buffer s ∷ rest) = s ++ bytes_of rest
bytes_of (interrupted ∷ rest) = bytes_of rest

abbrev pub IsStream : List Filled → Type 0
IsStream [] = Unit
IsStream (buffer [] ∷ rest) = ⊥
IsStream (buffer (c ∷ s) ∷ rest) = IsStream rest
IsStream (interrupted ∷ rest) = ⊥

push-some :
    (pending bytes kept : Bytes)
    → length pending ≤ max_command_bytes
    → push pending bytes ≡ some kept
    → (kept ≡ pending ++ bytes) × (length kept ≤ max_command_bytes)
unfolding push
push-some pending bytes kept h e =
    elim (Bool-cases (ltb (max_command_bytes - length pending) (length bytes))) [
      | inl b ↦ ground (arith, e, b)
      | inr b ↦
          let eq : kept ≡ pending ++ bytes = ground (arith, e, b) in
          (eq, rw eq (ground (arith, b, length-append pending bytes)))
    ]

at_end-bounded :
    (pending : Bytes) (rest : List Filled) → length (at_end pending rest).1 ≤ max_command_bytes
unfolding at_end
at_end-bounded [] rest = omega arith
at_end-bounded (c ∷ s) rest = omega arith

finish_line-bounded :
    (line : Option Bytes) (rest : List Filled)
    → length (finish_line line rest).1 ≤ max_command_bytes
unfolding finish_line
finish_line-bounded none rest = omega arith
finish_line-bounded (some line) rest = omega arith

-- What the decoder keeps between reads never exceeds the limit, whatever the reader gives.
pub read_command-bounded :
    (pending : Bytes) (stream : List Filled)
    → length pending ≤ max_command_bytes
    → length (read_command pending stream).1 ≤ max_command_bytes
unfolding read_command
read_command-bounded pending [] h = at_end-bounded pending []
read_command-bounded pending (interrupted ∷ rest) h = h
read_command-bounded pending (buffer [] ∷ rest) h = at_end-bounded pending rest
read_command-bounded pending (buffer (c ∷ s) ∷ rest) h =
    elim (Option-cases (split_once 10 (c ∷ s))) [
      | inr ((before, after), e) ↦
          rw (e, read_command) (finish_line-bounded (push pending before) (resume after rest))
      | inl e ↦ elim (Option-cases (push pending (c ∷ s))) [
        | inl f ↦ rw (e, f, read_command) (omega arith)
        | inr (kept, f) ↦
            rw (e, f, read_command)
              (read_command-bounded kept rest (push-some pending (c ∷ s) kept h f).1)
      ]
    ]

-- puts bytes before the first piece
abbrev prepend : Bytes → Option (Bytes × Bytes) → Option (Bytes × Bytes)
prepend p none = none
prepend p (some (before, after)) = some (p ++ before, after)

longer-prepend :
    (c : ℕ) (p : Bytes) (o : Option (Bytes × Bytes)) → longer c (prepend p o) ≡ prepend (c ∷ p) o
longer-prepend c p none = refl
longer-prepend c p (some (before, after)) = refl

split_once-append :
    (sep : ℕ) (p s : Bytes)
    → split_once sep p ≡ none
    → split_once sep (p ++ s) ≡ prepend p (split_once sep s)
unfolding split_once
split_once-append sep [] s h = elim (Option-cases (split_once sep s)) [
  | inl e ↦ rw e refl
  | inr (x, e) ↦ rw e refl
]
split_once-append sep (c ∷ p) s h = elim (Bool-cases (c == sep)) [
  | inl e ↦ ground (arith, h, e)
  | inr e ↦ elim (Option-cases (split_once sep p)) [
    | inl f ↦ rw (e, split_once-append sep p s f) (longer-prepend c p (split_once sep s))
    | inr (x, f) ↦ ground (arith, h, e, f)
  ]
]

-- the tail of a stream goes behind the first separator
abbrev postpone : Bytes → Option (Bytes × Bytes) → Option (Bytes × Bytes)
postpone t none = none
postpone t (some (before, after)) = some (before, after ++ t)

longer-postpone :
    (c : ℕ) (t : Bytes) (o : Option (Bytes × Bytes))
    → longer c (postpone t o) ≡ postpone t (longer c o)
longer-postpone c t none = refl
longer-postpone c t (some (before, after)) = refl

split_once-found :
    (sep : ℕ) (p t before after : Bytes)
    → split_once sep p ≡ some (before, after)
    → split_once sep (p ++ t) ≡ some (before, after ++ t)
unfolding split_once
split_once-found sep [] t before after h = cc
split_once-found sep (c ∷ p) t before after h = elim (Bool-cases (c == sep)) [
  | inl e ↦ rw e (ap (postpone t) (found e))
  | inr e ↦ elim (Option-cases (split_once sep p)) [
    | inl f ↦ ground (arith, h, e, f)
    | inr ((b, a), f) ↦
        rw (e, split_once-found sep p t b a f)
          (longer-postpone c t (some (b, a)) ∙ ap (postpone t) (tail e f))
  ]
]
  where
    whole : Option (Bytes × Bytes)
    whole = some ([], p)

    found : c == sep ≡ true → whole ≡ some (before, after)
    found e = ground (arith, h, e)

    tail :
        {x : Bytes × Bytes}
        → c == sep ≡ false
        → split_once sep p ≡ some x
        → longer c (some x) ≡ some (before, after)
    tail e f = ground (arith, h, e, f)

at_end-unfinished : (s : Bytes) (rest : List Filled) → (at_end s rest).0 ≡ unfinished s
unfolding at_end unfinished
at_end-unfinished [] rest = refl
at_end-unfinished (c ∷ s) rest = refl

-- a line is judged the same before it is kept
finish_line-judge :
    (pending before after s : Bytes) (rest : List Filled)
    → length pending ≤ max_command_bytes
    → (finish_line (push pending before) rest).0 ≡ judge (some (pending ++ before, after)) s
unfolding finish_line decode_line push judge
finish_line-judge pending before after s rest fits =
    elim (Bool-cases (ltb (max_command_bytes - length pending) (length before))) [
      | inl e ↦ rw e (ground (arith, e, length-append pending before))
      | inr e ↦
          let short : ltb max_command_bytes (length (pending ++ before)) ≡ false =
            ground (arith, e, length-append pending before) in
          elim (Bool-cases (is_utf8 (pending ++ before))) [
            | inl f ↦ rw (e, short, f) refl
            | inr f ↦ rw (e, short, f) refl
          ]
    ]

judge-exceeded :
    (p t : Bytes) (o : Option (Bytes × Bytes))
    → max_command_bytes < length p
    → judge (prepend p o) (p ++ t) ≡ err exceeded_limit
unfolding judge
judge-exceeded p t none h = ground (arith, length-append p t)
judge-exceeded p t (some (before, after)) h = ground (arith, length-append p before)

judge-fits : (s : Bytes) → length s ≤ max_command_bytes → judge none s ≡ unfinished s
unfolding judge
judge-fits s h = ground (arith, h)

push-none :
    (pending bytes : Bytes)
    → push pending bytes ≡ none
    → max_command_bytes < length (pending ++ bytes)
unfolding push
push-none pending bytes h = ground (arith, h, length-append pending bytes)

-- However a stream is cut into buffers, what is read is its first frame: a line of at most 192 bytes
-- that is UTF-8, the refusal of one that is not, a line or a rest that exceeds the limit, an unfinished line, or the end.
pub read_command-first_frame :
    (pending : Bytes) (stream : List Filled)
    → split_once 10 pending ≡ none
    → length pending ≤ max_command_bytes
    → IsStream stream
    → (read_command pending stream).0 ≡ first_frame (pending ++ bytes_of stream)
unfolding read_command first_frame
read_command-first_frame pending [] clear fits whole =
    rw (append-nil pending, clear) (at_end-unfinished pending [] ∙ sym (judge-fits pending fits))
read_command-first_frame pending (interrupted ∷ rest) clear fits whole = elim whole [ ]
read_command-first_frame pending (buffer [] ∷ rest) clear fits whole = elim whole [ ]
read_command-first_frame pending (buffer (c ∷ s) ∷ rest) clear fits whole =
    elim (Option-cases (split_once 10 (c ∷ s))) [
      | inr ((before, after), e) ↦
          let split =
            split_once-append 10 pending (c ∷ s ++ bytes_of rest) clear
            ∙ ap (prepend pending) (split_once-found 10 (c ∷ s) (bytes_of rest) before after e) in
          rw (e, split, read_command)
            (finish_line-judge pending before (after ++ bytes_of rest)
              (pending ++ ((c ∷ s) ++ bytes_of rest)) (resume after rest) fits)
      | inl e ↦
          let joined = append_assoc pending (c ∷ s) (bytes_of rest) in
          let unsplit = split_once-append 10 pending (c ∷ s) clear ∙ ap (prepend pending) e in
          elim (Option-cases (push pending (c ∷ s))) [
            | inl f ↦
                rw (e, f, read_command)
                  (sym (
                    ap (λ t. judge (split_once 10 t) t) (sym joined)
                    ∙ ap (λ o. judge o ((pending ++ c ∷ s) ++ bytes_of rest))
                        (split_once-append 10 (pending ++ c ∷ s) (bytes_of rest) unsplit)
                    ∙ judge-exceeded (pending ++ c ∷ s) (bytes_of rest)
                        (split_once 10 (bytes_of rest)) (push-none pending (c ∷ s) f)))
            | inr (kept, f) ↦
                let (same, small) = push-some pending (c ∷ s) kept fits f in
                rw (e, f, read_command)
                  (read_command-first_frame kept rest (ap (split_once 10) same ∙ unsplit) small
                      whole
                    ∙ ap (λ k. first_frame (k ++ bytes_of rest)) same
                    ∙ ap first_frame joined)
          ]
    ]
