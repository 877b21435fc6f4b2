-- ===== src/Control/Trimmed.antt =====
-- src/control.rs, src/daemon.rs: trimming leaves the client's commands as they are.
use asense.Base.{All, ◌≡◌, refl, true, List, [], ◌∷◌, ◌++◌}
use asense.Base.Text.{Bytes}
use asense.Base.Utf8.{Ends, Ends-append, trim_utf8, trim_utf8-same}
use asense.Base.Split.{joined}
use asense.Base.Fields.{Word}
use asense.Base.Keyed.{spaced}
use asense.Control.Commands.{ClientCommand, command_words, command_text, locally_valid}
use asense.Control.Plain.{Ascii, command_words-Ascii}
use asense.Control.Words.{IsCommand, command_words-Word}

Word-Ends : (s : Bytes) → Word s → Ascii s → Ends s
Word-Ends [] h plain = absurd h
Word-Ends (c ∷ []) (h, _) (p, _) = ([], c, refl, (h, p))
Word-Ends (c ∷ d ∷ s) (h, hs) (p, ps) = Ends-append (c ∷ []) (d ∷ s) (Word-Ends (d ∷ s) hs ps)

joined-Ends :
    (first : Bytes) (rest : List Bytes)
    → All Word (first ∷ rest)
    → All Ascii (first ∷ rest)
    → Ends (joined 32 first rest)
joined-Ends first [] (h, _) (p, _) = Word-Ends first h p
joined-Ends first (next ∷ rest) (h, hs) (p, ps) =
    Ends-append first (32 ∷ joined 32 next rest)
      (Ends-append (32 ∷ []) (joined 32 next rest) (joined-Ends next rest hs ps))

trimmed_text : (s t : Bytes) → Word s → Ascii s → Ends (s ++ t) → trim_utf8 (s ++ t) ≡ s ++ t
trimmed_text [] t h p ends = absurd h
trimmed_text (c ∷ s) t (h, hs) (p, ps) ends = trim_utf8-same c (s ++ t) (h, p) ends

one_trimmed : (s : Bytes) → Word s → Ascii s → trim_utf8 s ≡ s
one_trimmed [] h p = absurd h
one_trimmed (c ∷ s) (h, hs) (p, ps) = trim_utf8-same c s (h, p) (Word-Ends (c ∷ s) (h, hs) (p, ps))

spaced-trimmed :
    (pieces : List Bytes)
    → All Word pieces
    → All Ascii pieces
    → trim_utf8 (spaced pieces) ≡ spaced pieces
unfolding trim_utf8
spaced-trimmed [] h p = refl
spaced-trimmed (first ∷ []) (h, _) (p, _) = one_trimmed first h p
spaced-trimmed (first ∷ next ∷ rest) (h, hs) (p, ps) =
    trimmed_text first (32 ∷ joined 32 next rest) h p
      (joined-Ends first (next ∷ rest) (h, hs) (p, ps))

pub trim_utf8-command_text :
    (command : ClientCommand)
    → locally_valid command ≡ true
    → IsCommand command
    → trim_utf8 (command_text command) ≡ command_text command
unfolding command_text
trim_utf8-command_text command valid bytes =
    spaced-trimmed (command_words command) (command_words-Word command valid bytes)
      (command_words-Ascii command valid bytes)
