-- ===== src/Platform/Logo.antt =====
-- The rear logo's text and back.
use asense.Base.{ltb, ◌≤◌, ◌≡◌, refl, ap, ◌∙◌, false, some, [], ◌∷◌, ◌++◌, arith}
use asense.Base.Hex.{parse_color, parse_color-hex_color, hex_color-Lacks}
use asense.Base.Split.{Lacks, split-whole, split-piece, decimal-Lacks}
use asense.Base.Text.{Bytes, split}
use asense.Base.Decimal.{decimal, parse_uint, parse_uint-decimal}
use asense.Result.{ok}
use asense.Platform.{RearLogoState, parse_bool, encode_color, encode_logo, logo_fields, parse_logo}

split-encode_logo :
    (logo : RearLogoState) (switch : Bytes)
    → Lacks 44 (encode_color logo)
    → Lacks 44 switch
    → split 44 (encode_logo switch logo) ≡ encode_color logo ∷ decimal logo.brightness ∷ switch ∷ []
unfolding encode_logo
split-encode_logo logo switch color lacks =
    split-piece 44 (encode_color logo) (decimal logo.brightness ++ 44 ∷ switch) color
    ∙ ap (λ pieces. encode_color logo ∷ pieces)
        (split-piece 44 (decimal logo.brightness) switch (decimal-Lacks logo.brightness)
          ∙ ap (λ pieces. decimal logo.brightness ∷ pieces) (split-whole 44 switch lacks))

logo_fields-logo :
    (logo : RearLogoState) (switch color : Bytes)
    → parse_color color ≡ some (logo.red, logo.green, logo.blue)
    → logo.brightness ≤ 100
    → parse_bool switch ≡ ok logo.enabled
    → logo_fields (color ∷ decimal logo.brightness ∷ switch ∷ []) ≡ ok logo
unfolding logo_fields
logo_fields-logo logo switch color e level parsed =
    let bright : parse_uint 255 (decimal logo.brightness) ≡ some logo.brightness =
      parse_uint-decimal 255 logo.brightness (omega arith) in
    let fits : ltb 100 logo.brightness ≡ false = ground (arith, level) in
    rw (e, bright, fits, parsed, logo_fields) refl

-- A rear logo whose channels are bytes and whose brightness is at most 100 is read back from its
-- text, in either spelling of the switch.
pub parse_logo-encode_logo :
    (logo : RearLogoState) (switch : Bytes)
    → logo.red ≤ 255
    → logo.green ≤ 255
    → logo.blue ≤ 255
    → logo.brightness ≤ 100
    → Lacks 44 switch
    → parse_bool switch ≡ ok logo.enabled
    → parse_logo (encode_logo switch logo) ≡ ok logo
unfolding parse_logo
parse_logo-encode_logo logo switch r g b level lacks parsed =
    ap logo_fields (
      split-encode_logo logo switch (hex_color-Lacks (logo.red, logo.green, logo.blue) (r, g, b))
        lacks)
    ∙ logo_fields-logo logo switch (encode_color logo)
        (parse_color-hex_color (logo.red, logo.green, logo.blue) (r, g, b)) level parsed
