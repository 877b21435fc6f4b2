-- ===== src/Control/Lines.antt =====
-- src/control.rs: a response is read as it was sent, whatever pieces it comes in.
use asense.Result.{Result, ok, err}
use asense.Base.{
  ◌==◌, ==_iff, Bool-cases, ◌≡◌, refl, ap, ◌⊎◌, inl, inr, Bool, true, none, some, List, [], ◌∷◌,
  ◌++◌, arith, ltb, length, length-append, ◌-◌, ◌≤◌, false, All, Option, if◌then◌else◌, ℕ, sym, ◌∙◌,
  subst,
}
use asense.Base.Utf8.{is_utf8}
use asense.Base.Text.{Bytes, split}
use asense.Base.Split.{Lacks}
use asense.Daemon.Protocol.{max_response_line_bytes}
use asense.Control.{ControlError, protocol_error}
use asense.Control.Response.{
  ReadEvent, available, would_block, cut_line, gather, finished, interrupted, failed, left_over,
  read_from, read_response_line,
}
use mathlib.Core.List.{append_assoc}

-- bytes, an interruption, or a receive that ran out of time before the deadline
abbrev pub Harmless : ReadEvent → Type 0
Harmless (available []) = ⊥
Harmless (available (c ∷ s)) = Unit
Harmless interrupted = Unit
Harmless (would_block before_deadline) = before_deadline ≡ true
Harmless failed = ⊥

-- all the bytes of the events
abbrev pub bytes_of : List ReadEvent → Bytes
bytes_of [] = []
bytes_of (available s ∷ more) = s ++ bytes_of more
bytes_of (_ ∷ more) = bytes_of more

-- the text before the first line feed is either all, or what is cut
cut_line-cases :
    (s : Bytes)
    → ((cut_line s ≡ (s, none)) × Lacks 10 s)
      ⊎ ((payload : Bytes) × (behind : Bytes) × (cut_line s ≡ (payload, some behind))
          × (s ≡ payload ++ 10 ∷ behind)
          × Lacks 10 payload)
unfolding cut_line
cut_line-cases [] = inl (refl, tt)
cut_line-cases (c ∷ s) = elim (Bool-cases (c == 10)) [
  | inl e ↦ inr ([], s, rw e refl, ap (λ d. d ∷ s) ((==_iff c 10).0 e), tt)
  | inr e ↦ elim (cut_line-cases s) [
    | inl (k, free) ↦ inl (rw (e, k) refl, (e, free))
    | inr (payload, behind, k, same, free) ↦
        inr (c ∷ payload, behind, rw (e, k) refl, ap (λ t. c ∷ t) same, (e, free))
  ]
]

-- two ways to read a text with a line feed
shorter :
    (s rest line tail : Bytes)
    → Lacks 10 s
    → s ++ rest ≡ line ++ 10 ∷ tail
    → (more : Bytes) × (line ≡ s ++ more) × (rest ≡ more ++ 10 ∷ tail)
shorter [] rest line tail free e = (line, refl, e)
shorter (c ∷ s) rest [] tail (h, free) e = let same : c ≡ 10 = cc in ground (arith, h, same)
shorter (c ∷ s) rest (d ∷ line) tail (h, free) e =
    let same : c ≡ d = cc in let (more, l, r) = shorter s rest line tail free cc in (more, cc, r)

same_line :
    (s rest line tail : Bytes)
    → Lacks 10 s
    → Lacks 10 line
    → s ++ 10 ∷ rest ≡ line ++ 10 ∷ tail
    → (s ≡ line) × (rest ≡ tail)
same_line [] rest [] tail free free_line e = (refl, cc)
same_line [] rest (d ∷ line) tail free (h, free_line) e =
    let same : 10 ≡ d = cc in ground (arith, h, same)
same_line (c ∷ s) rest [] tail (h, free) free_line e =
    let same : c ≡ 10 = cc in ground (arith, h, same)
same_line (c ∷ s) rest (d ∷ line) tail (h, free) (k, free_line) e =
    let (l, r) = same_line s rest line tail free free_line cc in (cc, r)

-- what becomes of a line after what was gathered already
abbrev verdict : Bytes → Bool → Bytes → Result ControlError Bytes
verdict response oversized line = finished (gather response oversized line)

-- pieces are gathered like the whole
gather-append :
    (response : Bytes) (oversized : Bool) (s more : Bytes)
    → (oversized ≡ false → length response ≤ max_response_line_bytes)
    → let kept = gather response oversized s in
      (verdict kept.0 kept.1 more ≡ verdict response oversized (s ++ more))
      × (kept.1 ≡ false → length kept.0 ≤ max_response_line_bytes)
unfolding gather finished
gather-append response true s more h = (refl, λ e. ground (arith, e))
gather-append response false s more h =
    let small = h refl in
    let whole = length-append s more in
    let before = length-append response s in
    elim (Bool-cases (ltb (max_response_line_bytes - length response) (length s))) [
      | inl e ↦
          let too_long : ltb (max_response_line_bytes - length response) (length (s ++ more))
              ≡ true =
            ground (arith, e, whole) in
          rw (e, too_long) (refl, λ k. ground (arith, k))
      | inr e ↦
          elim (Bool-cases (ltb (max_response_line_bytes - length (response ++ s)) (length more))) [
            | inl f ↦
                let too_long : ltb (max_response_line_bytes - length response) (length (s ++ more))
                    ≡ true =
                  ground (arith, e, f, whole, before, small) in
                rw (e, f, too_long) (refl, λ k. ground (arith, before, e, small))
            | inr f ↦
                let short : ltb (max_response_line_bytes - length response) (length (s ++ more))
                    ≡ false =
                  ground (arith, e, f, whole, before, small) in
                rw (e, f, short)
                  (
                    ap (λ t. finished (t, false)) (append_assoc response s more),
                    λ k. ground (arith, before, e, small),
                  )
          ]
    ]

bytes_of-left_over :
    (behind : Bytes) (more : List ReadEvent)
    → bytes_of (left_over behind more) ≡ behind ++ bytes_of more
bytes_of-left_over [] more = refl
bytes_of-left_over (c ∷ s) more = refl

left_over-Harmless :
    (behind : Bytes) (more : List ReadEvent)
    → All Harmless more
    → All Harmless (left_over behind more)
left_over-Harmless [] more h = h
left_over-Harmless (c ∷ s) more h = (tt, h)

-- what a reading has done with a line
abbrev pub Delivers :
    Option (Result ControlError Bytes × List ReadEvent) → Result ControlError Bytes → Bytes → Type 0
Delivers read result tail =
    (rest : List ReadEvent) × (read ≡ some (result, rest))
    × (bytes_of rest ≡ tail)
    × All Harmless rest

-- what a reading does after the cut
abbrev continued :
    Bytes
    → Bool
    → List ReadEvent
    → Bytes × Option Bytes
    → Option (Result ControlError Bytes × List ReadEvent)
continued response oversized more cut = elim cut.1 [
  | none ↦ read_from (gather response oversized cut.0).0 (gather response oversized cut.0).1 more
  | some behind ↦ some (verdict response oversized cut.0, left_over behind more)
]

read_from-piece :
    (response : Bytes) (oversized : Bool) (c : ℕ) (s : Bytes) (more : List ReadEvent)
    → cut_line (c ∷ s) ≡ (c ∷ s, none)
    → read_from response oversized (available (c ∷ s) ∷ more)
      ≡ read_from (gather response oversized (c ∷ s)).0 (gather response oversized (c ∷ s)).1 more
unfolding read_from
read_from-piece response oversized c s more k = ap (continued response oversized more) k

read_from-end :
    (response : Bytes) (oversized : Bool) (c : ℕ) (s payload behind : Bytes) (more : List ReadEvent)
    → cut_line (c ∷ s) ≡ (payload, some behind)
    → read_from response oversized (available (c ∷ s) ∷ more)
      ≡ some (verdict response oversized payload, left_over behind more)
unfolding read_from
read_from-end response oversized c s payload behind more k =
    ap (continued response oversized more) k

read_from-Delivers :
    (response : Bytes) (oversized : Bool) (events : List ReadEvent) (line tail : Bytes)
    → (oversized ≡ false → length response ≤ max_response_line_bytes)
    → All Harmless events
    → Lacks 10 line
    → bytes_of events ≡ line ++ 10 ∷ tail
    → Delivers (read_from response oversized events) (verdict response oversized line) tail
unfolding read_from
read_from-Delivers response oversized [] [] tail fits h free e = cc
read_from-Delivers response oversized [] (c ∷ line) tail fits h free e = cc
read_from-Delivers response oversized (interrupted ∷ more) line tail fits (_, h) free e =
    read_from-Delivers response oversized more line tail fits h free e
read_from-Delivers response oversized (would_block true ∷ more) line tail fits (_, h) free e =
    read_from-Delivers response oversized more line tail fits h free e
read_from-Delivers response oversized (would_block false ∷ more) line tail fits (k, h) free e =
    ground (arith, k)
read_from-Delivers response oversized (failed ∷ more) line tail fits (k, h) free e = absurd k
read_from-Delivers response oversized (available [] ∷ more) line tail fits (k, h) free e = absurd k
read_from-Delivers response oversized (available (c ∷ s) ∷ more) line tail fits (_, h) free e =
    elim (cut_line-cases (c ∷ s)) [
      | inl (k, whole) ↦
          let (next, l, r) = shorter (c ∷ s) (bytes_of more) line tail whole e in
          let (same, small) = gather-append response oversized (c ∷ s) next fits in
          let kept = gather response oversized (c ∷ s) in
          let (rest, reads, left, harmless) =
            read_from-Delivers kept.0 kept.1 more next tail small h
              (Lacks-tail (c ∷ s) next (subst (Lacks 10) l free)) r in
          (
            rest,
            read_from-piece response oversized c s more k
                ∙ reads
                ∙ ap (λ v. some (v, rest)) (same ∙ ap (verdict response oversized) (sym l)),
            left,
            harmless,
          )
      | inr (payload, behind, k, split, whole) ↦
          let cut : payload ++ 10 ∷ (behind ++ bytes_of more) ≡ line ++ 10 ∷ tail =
            sym (append_assoc payload (10 ∷ behind) (bytes_of more))
            ∙ ap (λ t. t ++ bytes_of more) (sym split)
            ∙ e in
          let (own, rest) = same_line payload (behind ++ bytes_of more) line tail whole free cut in
          (
            left_over behind more,
            read_from-end response oversized c s payload behind more k
                ∙ ap (λ p. some (verdict response oversized p, left_over behind more)) own,
            bytes_of-left_over behind more ∙ rest,
            left_over-Harmless behind more h,
          )
    ]
  where
    Lacks-tail : (s t : Bytes) → Lacks 10 (s ++ t) → Lacks 10 t
    Lacks-tail [] t h = h
    Lacks-tail (c ∷ s) t (_, h) = Lacks-tail s t h

-- A line is read just as it was sent, in whatever pieces it comes, with interruptions and receives
-- that run out of time before the deadline between them: its bytes, if they are UTF-8 and at most
-- 32768, else an error of the protocol. What follows the line is left for the next reading, also after
-- a line that is too long.
pub read_response_line-Delivers :
    (events : List ReadEvent) (line tail : Bytes)
    → All Harmless events
    → Lacks 10 line
    → bytes_of events ≡ line ++ 10 ∷ tail
    → Delivers
        (read_response_line events)
        (if ltb max_response_line_bytes (length line)
          then err protocol_error
          else if is_utf8 line
          then ok line
          else err protocol_error)
        tail
unfolding read_response_line gather finished
read_response_line-Delivers events line tail h free e =
    let (rest, reads, left, harmless) =
      read_from-Delivers [] false events line tail (λ k. omega arith) h free e in
    (rest, reads ∙ ap (λ v. some (v, rest)) whole, left, harmless)
  where
    whole : verdict [] false line ≡ (
        if ltb max_response_line_bytes (length line)
        then err protocol_error
        else if is_utf8 line
        then ok line
        else err protocol_error)
    whole = elim (Bool-cases (ltb max_response_line_bytes (length line))) [
      | inl k ↦ rw k refl
      | inr k ↦ rw k refl
    ]
