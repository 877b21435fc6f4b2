-- ===== src/Lighting/Enek/Painting.antt =====
-- src/lighting/enek5130.rs: what the reports of a request paint on the zones.
use asense.Result.{Result, ok, err, ok_injective}
use asense.Base.{
  ==_iff, ◌&&◌, ◌==◌, if◌then◌else◌, length, all_below, all_below_sound, ℕ, zero, suc, ◌+◌, ◌*◌,
  ◌/◌, ◌%◌, ◌^◌, ◌≤◌, ◌<◌, ◌≡◌, refl, ◌∙◌, Bool, true, false, not, List, [], ◌∷◌, arith, sym, ap,
}
use asense.Base.Hex.{Color}
use asense.Lighting.{
  LightingMode, LightingRequest, off, static, breathing, neon, LightingError, unsupported_mode,
  invalid_report,
}
use asense.Lighting.Enek.{
  Report, TargetCapabilities, has_bit, zone_mask, all_zones, encode_lighting_report, zone_reports,
  static_reports, mode_reports, lighting_reports,
}

-- what a zone shows
pub record Painted : Type 0 where
  pub mode : ℕ
  pub brightness : ℕ
  pub speed : ℕ
  pub color : Color

-- the byte behind the speed: two for an effect, and for the static mode whether it is the cover's logo
abbrev pub light_flag : ℕ → ℕ → ℕ
light_flag id mode = if mode == 2 then (if id == 131 then 1 else 0) else 2

-- A report with the number of lighting reports, the identifier of the target and the flag of its mode
-- paints the zones of its mask; any other leaves the target as it is.
abbrev pub paint_report : ℕ → Report → (ℕ → Painted) → ℕ → Painted
paint_report target (tag ∷ id ∷ mode ∷ bright ∷ speed ∷ flag ∷ r ∷ g ∷ b ∷ low ∷ high ∷ []) before
      k =
    if tag == 164 && id == target && flag == light_flag id mode && has_bit (low + 256 * high) k
    then record { mode = mode; brightness = bright; speed = speed; color = (r, g, b) }
    else before k
paint_report target _ before k = before k

abbrev pub paint : ℕ → List Report → (ℕ → Painted) → ℕ → Painted
paint target [] before = before
paint target (report ∷ more) before = paint target more (paint_report target report before)

-- the colour of a zone in a list, or the other one beyond it
abbrev pub color_at : Color → List Color → ℕ → Color
color_at otherwise [] k = otherwise
color_at otherwise (c ∷ cs) zero = c
color_at otherwise (c ∷ cs) (suc k) = color_at otherwise cs k

-- the colour that a static request asks for in a zone
abbrev pub static_color : LightingRequest → List Color → ℕ → Color
static_color request [] k = request.color
static_color request (c ∷ []) k = c
static_color request (c ∷ d ∷ more) k = color_at request.color (c ∷ d ∷ more) k

-- what a request asks a zone to show
unfoldable pub asked : LightingRequest → LightingMode → ℕ → Painted
asked request off k = record { mode = 2; brightness = 0; speed = 0; color = (0, 0, 0) }
asked request static k = record {
  mode = 2;
  brightness = request.brightness;
  speed = 0;
  color = static_color request request.zone_colors k;
}
asked request breathing k = record {
  mode = 4;
  brightness = request.brightness;
  speed = request.speed;
  color = request.color;
}
asked request neon k = record {
  mode = 5;
  brightness = request.brightness;
  speed = request.speed;
  color = request.color;
}

mask_table : all_below 17 (λ n. all_below n (λ k. has_bit (zone_mask n) k)) ≡ true
unfolding zone_mask
mask_table = refl

has_bit-zone_mask : (n k : ℕ) → n ≤ 16 → k < n → has_bit (zone_mask n) k ≡ true
has_bit-zone_mask n k h lt =
    all_below_sound n (λ k. has_bit (zone_mask n) k) k
      (all_below_sound 17 (λ n. all_below n (λ k. has_bit (zone_mask n) k)) n mask_table
        (omega arith))
      lt

abbrev alike : Bool → Bool → Bool
alike true b = b
alike false b = not b

alike_sound : (a b : Bool) → alike a b ≡ true → a ≡ b
alike_sound a b h = ground (arith, h)

power_table : all_below 16 (λ i. all_below 16 (λ k. alike (has_bit (2 ^ i) k) (i == k))) ≡ true
power_table = refl

has_bit-power : (i k : ℕ) → i < 16 → k < 16 → has_bit (2 ^ i) k ≡ (i == k)
has_bit-power i k hi hk = alike_sound _ _ (
    all_below_sound 16 (λ k. alike (has_bit (2 ^ i) k) (i == k)) k
      (all_below_sound 16 (λ i. all_below 16 (λ k. alike (has_bit (2 ^ i) k) (i == k))) i
        power_table hi)
      hk)

module _ (caps : TargetCapabilities) where
  -- a report paints the zones of its mask and no other
  paint_report-encode :
      (mode brightness speed : ℕ) (color : Color) (mask : ℕ) (before : ℕ → Painted) (k : ℕ)
      → paint_report caps.target_id
          (encode_lighting_report caps mode brightness speed color mask)
          before
          k
        ≡ (if has_bit mask k
            then record { mode = mode; brightness = brightness; speed = speed; color = color }
            else before k)
  unfolding encode_lighting_report
  paint_report-encode mode brightness speed color mask before k =
      let whole : mask % 256 + 256 * (mask / 256) ≡ mask = omega arith in
      let own : caps.target_id == caps.target_id ≡ true =
        (==_iff caps.target_id caps.target_id).1 refl in
      let flag = light_flag caps.target_id mode in
      let same : flag == flag ≡ true = (==_iff flag flag).1 refl in rw (whole, own, same) refl

  paint-all_zones :
      (mode brightness speed : ℕ) (color : Color) (before : ℕ → Painted) (k : ℕ)
      → caps.zone_count ≤ 16
      → k < caps.zone_count
      → paint caps.target_id
          (encode_lighting_report caps mode brightness speed color (all_zones caps) ∷ [])
          before
          k
        ≡ record { mode = mode; brightness = brightness; speed = speed; color = color }
  unfolding all_zones
  paint-all_zones mode brightness speed color before k few lt =
      paint_report-encode mode brightness speed color (zone_mask caps.zone_count) before k
      ∙ rw (has_bit-zone_mask caps.zone_count k few lt) refl

  abbrev solid : ℕ → Color → Painted
  solid brightness color = record { mode = 2; brightness = brightness; speed = 0; color = color }

  zone_reports-below :
      (brightness i : ℕ) (colors : List Color) (before : ℕ → Painted) (k : ℕ)
      → k < i
      → i + length colors ≤ 16
      → paint caps.target_id (zone_reports caps brightness i colors) before k ≡ before k
  unfolding zone_reports
  zone_reports-below brightness i [] before k lt few = refl
  zone_reports-below brightness i (c ∷ colors) before k lt few =
      let other_bit : has_bit (2 ^ i) k ≡ false = ground (arith, has_bit-power i k, few, lt) in
      zone_reports-below brightness (suc i) colors _ k (omega arith) (omega (arith, few))
      ∙ paint_report-encode 2 brightness 0 c (2 ^ i) before k
      ∙ rw other_bit refl

  zone_reports-at :
      (brightness i : ℕ) (otherwise : Color) (colors : List Color) (before : ℕ → Painted) (j : ℕ)
      → j < length colors
      → i + length colors ≤ 16
      → paint caps.target_id (zone_reports caps brightness i colors) before (i + j)
        ≡ solid brightness (color_at otherwise colors j)
  unfolding zone_reports
  zone_reports-at brightness i otherwise [] before j lt few = ground (arith, lt)
  zone_reports-at brightness i otherwise (c ∷ colors) before zero lt few =
      let own_bit : has_bit (2 ^ i) i ≡ true = ground (arith, has_bit-power i i, few) in
      let here : i + 0 ≡ i = omega arith in
      rw here (
        zone_reports-below brightness (suc i) colors _ i (omega arith) (omega (arith, few))
        ∙ paint_report-encode 2 brightness 0 c (2 ^ i) before i
        ∙ rw own_bit refl)
  zone_reports-at brightness i otherwise (c ∷ colors) before (suc j) lt few =
      let next : i + suc j ≡ suc i + j = omega arith in
      rw next (
        zone_reports-at brightness (suc i) otherwise colors _ j (omega (arith, lt))
          (omega (arith, few)))

  static_reports-paint :
      (request : LightingRequest) (colors : List Color) (reports : List Report)
      (before : ℕ → Painted) (k : ℕ)
      → caps.zone_count ≤ 16
      → k < caps.zone_count
      → static_reports caps request.brightness request.color colors ≡ ok reports
      → paint caps.target_id reports before k
        ≡ solid request.brightness (static_color request colors k)
  unfolding static_reports
  static_reports-paint request [] reports before k few lt h =
      ap (λ sent. paint caps.target_id sent before k) (sym (ok_injective h))
      ∙ paint-all_zones 2 request.brightness 0 request.color before k few lt
  static_reports-paint request (c ∷ []) reports before k few lt h =
      ap (λ sent. paint caps.target_id sent before k) (sym (ok_injective h))
      ∙ paint-all_zones 2 request.brightness 0 c before k few lt
  static_reports-paint request (c ∷ d ∷ more) reports before k few lt h =
      let count : length (c ∷ d ∷ more) ≡ caps.zone_count = ground (arith, h) in
      let sent : zone_reports caps request.brightness 0 (c ∷ d ∷ more) ≡ reports =
        ground (arith, h) in
      let here : 0 + k ≡ k = omega arith in
      ap (λ reports. paint caps.target_id reports before k) (sym sent)
      ∙ ap (paint caps.target_id (zone_reports caps request.brightness 0 (c ∷ d ∷ more)) before)
          (sym here)
      ∙ zone_reports-at request.brightness 0 request.color (c ∷ d ∷ more) before k
          (omega (arith, count, lt)) (omega (arith, count, few))

  mode_reports-paint :
      (mode : LightingMode) (request : LightingRequest) (reports : List Report)
      (before : ℕ → Painted) (k : ℕ)
      → caps.zone_count ≤ 16
      → k < caps.zone_count
      → mode_reports caps mode request ≡ ok reports
      → paint caps.target_id reports before k ≡ asked request mode k
  unfolding mode_reports asked
  mode_reports-paint off request reports before k few lt h =
      ap (λ sent. paint caps.target_id sent before k) (sym (ok_injective h))
      ∙ paint-all_zones 2 0 0 (0, 0, 0) before k few lt
  mode_reports-paint static request reports before k few lt h =
      static_reports-paint request request.zone_colors reports before k few lt h
  mode_reports-paint breathing request reports before k few lt h =
      ap (λ sent. paint caps.target_id sent before k) (sym (ok_injective h))
      ∙ paint-all_zones 4 request.brightness request.speed request.color before k few lt
  mode_reports-paint neon request reports before k few lt h =
      ap (λ sent. paint caps.target_id sent before k) (sym (ok_injective h))
      ∙ paint-all_zones 5 request.brightness request.speed request.color before k few lt

-- For a target with at most sixteen zones: the reports of a request, sent one after another, make
-- each of its zones show what the request asks for, whatever it showed before, where only a lighting
-- report for this target with the flag of its mode changes a zone. The mode, the brightness and the
-- speed are those of the request (dark and static when it is off, speed zero when it is static), and
-- the colour is that of the request, or of its only zone colour, or of the zone's own colour.
pub lighting_reports-paint :
    (caps : TargetCapabilities) (request : LightingRequest) (reports : List Report)
    (before : ℕ → Painted) (k : ℕ)
    → caps.zone_count ≤ 16
    → k < caps.zone_count
    → lighting_reports caps request ≡ ok reports
    → paint caps.target_id reports before k ≡ asked request request.mode k
unfolding lighting_reports
lighting_reports-paint caps request reports before k few lt h =
    mode_reports-paint caps request.mode request reports before k few lt (passed _ _ _ h)
  where
    passed :
        (a b : Bool) (r : Result LightingError (List Report))
        → (if not a then err invalid_report else if not b then err unsupported_mode else r)
          ≡ ok reports
        → r ≡ ok reports
    passed a b r h = ground (arith, h)
