-- ===== src/Lighting/Outcome.antt =====
-- src/lighting.rs: what the setters of the zoned WMI keyboard have done.
use asense.Result.{ok, Result-cases}
use asense.Exec.{raise}
use asense.Exec.Outcome.{Settles, Ensures, Ensures-cases, Ensures-if, Ensures-bind, Ensures-handle}
use asense.Base.{
  length, take, replicate, ℕ, zero, suc, ◌≤◌, ◌≡◌, refl, Bool, true, List, [], ◌∷◌, arith, sym, ap,
  ◌∙◌, inl, inr, false, ltb, if◌then◌else◌, not,
}
use asense.Base.Text.{Bytes, codes}
use asense.Base.Hex.{Color}
use asense.Hardware.Readable.{Readable, Keeps, read_file-Readable}
use asense.Hardware.Sysfs.{Sysfs}
use asense.Lighting.{
  LightingRequest, Zones, zone_list, copy_zones, LightingMode, LightingState, EffectRequest,
  ZonesRequest, KeyboardLighting, off, static, breathing, neon, validate_effect, target_eq,
  firmware, validate_mode, keyboard, one_global_color,
}
use asense.Lighting.Text.{parse_state_with_zones, effect_payload, zones_payload}
use asense.Lighting.Wmi.{
  color_eq, colors_eq, bool_eq, effect_agrees, zones_agree, choose_zones, static_zones, as_effect,
  is_empty, read_text, write_text, read, write_verified, set_power, set_effect, set_zones,
  apply_mode, apply_zoned_wmi,
}

color_eq_sound : (c d : Color) → color_eq c d ≡ true → c ≡ d
color_eq_sound (r, g, b) (x, y, z) h =
    let er : r ≡ x = ground (arith, h) in
    let eg : g ≡ y = ground (arith, h) in
    let eb : b ≡ z = ground (arith, h) in λ i. (er i, eg i, eb i)

colors_eq_sound : (cs ds : List Color) → colors_eq cs ds ≡ true → cs ≡ ds
colors_eq_sound [] [] h = refl
colors_eq_sound [] (d ∷ ds) h = ground (arith, h)
colors_eq_sound (c ∷ cs) [] h = ground (arith, h)
colors_eq_sound (c ∷ cs) (d ∷ ds) h =
    let head = color_eq_sound c d (ground (arith, h)) in
    let tail = colors_eq_sound cs ds (ground (arith, h)) in cc

pub bool_eq_sound : (a b : Bool) → bool_eq a b ≡ true → a ≡ b
bool_eq_sound a b h = ground (arith, h)

-- the colours of the active zones that a static request asks for
unfoldable pub wanted_colors : ℕ → Color → List Color → List Color
wanted_colors zone_count color [] = replicate zone_count color
wanted_colors zone_count color (c ∷ []) = replicate zone_count c
wanted_colors zone_count color (c ∷ d ∷ more) = c ∷ d ∷ more

take-same : (n : ℕ) (c : Color) → n ≤ 4 → take n (c ∷ c ∷ c ∷ c ∷ []) ≡ replicate n c
take-same zero c h = refl
take-same (suc zero) c h = refl
take-same (suc (suc zero)) c h = refl
take-same (suc (suc (suc zero))) c h = refl
take-same (suc (suc (suc (suc zero)))) c h = refl
take-same (suc (suc (suc (suc (suc n))))) c h = ground (arith, h)

take-copy_zones :
    (colors : List Color) (zones : Zones)
    → length colors ≤ 4
    → take (length colors) (zone_list (copy_zones colors zones)) ≡ colors
unfolding copy_zones
take-copy_zones [] zones h = refl
take-copy_zones (a ∷ []) zones h = refl
take-copy_zones (a ∷ b ∷ []) zones h = refl
take-copy_zones (a ∷ b ∷ c ∷ []) zones h = refl
take-copy_zones (a ∷ b ∷ c ∷ d ∷ []) zones h = refl
take-copy_zones (a ∷ b ∷ c ∷ d ∷ e ∷ more) zones h = ground (arith, h)

pub choose_zones-wanted :
    (n : ℕ) (color : Color) (colors : List Color) (zones : Zones)
    → n ≤ 4
    → choose_zones n (color, color, color, color) colors ≡ ok zones
    → take n (zone_list zones) ≡ wanted_colors n color colors
unfolding choose_zones wanted_colors
choose_zones-wanted n color [] zones few h =
    let same : zones ≡ (color, color, color, color) = ground (arith, h) in
    rw same (take-same n color few)
choose_zones-wanted n color (c ∷ []) zones few h =
    let same : zones ≡ (c, c, c, c) = ground (arith, h) in rw same (take-same n c few)
choose_zones-wanted n color (c ∷ d ∷ more) zones few h =
    let count : length (c ∷ d ∷ more) ≡ n = ground (arith, h) in
    let same : zones ≡ copy_zones (c ∷ d ∷ more) (color, color, color, color) = ground (arith, h) in
    rw same (
      ap (λ k. take k (zone_list (copy_zones (c ∷ d ∷ more) (color, color, color, color))))
        (sym count)
      ∙ take-copy_zones (c ∷ d ∷ more) (color, color, color, color) (omega (arith, count)))

-- what the mode of a request asks of the state
unfoldable pub Carries : ℕ → LightingRequest → LightingMode → LightingState → Type 0
Carries zone_count request off st = st.powered ≡ false
Carries zone_count request static st =
    (st.mode ≡ 0)
    × (st.brightness ≡ request.brightness)
    × (take zone_count (zone_list st.zones)
        ≡ wanted_colors zone_count request.color request.zone_colors)
Carries zone_count request breathing st =
    (st.mode ≡ 1)
    × (st.speed ≡ 0)
    × (st.speed ≡ request.speed)
    × (st.brightness ≡ request.brightness)
    × (st.direction ≡ 0)
    × (st.color ≡ request.color)
Carries zone_count request neon st =
    (st.mode ≡ 2)
    × (st.speed ≡ request.speed)
    × (st.brightness ≡ request.brightness)
    × (st.direction ≡ 0)
    × (st.color ≡ request.color)

pub zones_agree_sound :
    (n : ℕ) (request : ZonesRequest) (st : LightingState)
    → zones_agree n request st ≡ true
    → (st.mode ≡ 0)
      × (st.brightness ≡ request.brightness)
      × (take n (zone_list st.zones) ≡ take n (zone_list request.zones))
zones_agree_sound n request st h =
    (ground (arith, h), ground (arith, h), colors_eq_sound _ _ (ground (arith, h)))

pub effect_agrees_sound :
    (request : EffectRequest) (st : LightingState)
    → effect_agrees request st ≡ true
    → (st.mode ≡ request.mode)
      × (st.speed ≡ request.speed)
      × (st.brightness ≡ request.brightness)
      × (st.direction ≡ request.direction)
      × (st.color ≡ request.color)
effect_agrees_sound request st h = (
  ground (arith, h),
  ground (arith, h),
  ground (arith, h),
  ground (arith, h),
  color_eq_sound _ _ (ground (arith, h)),
)

module _ (sys : Sysfs) (readable : Readable sys) (controller : KeyboardLighting) where
  open sys use {World, read_file}
  open readable use {contents}
  open controller use {effect, zones, zone_count}

  -- the texts of the effect and of the zones parse as the state
  abbrev pub Reports : LightingState → World → Type 0
  Reports st w = parse_state_with_zones (contents w effect) (contents w zones) zone_count ≡ ok st

  read_text-shown :
      (path : Bytes) (w : World)
      → Ensures
          (λ text w'. (text ≡ contents w path) × Keeps sys readable w w')
          (λ e w'. Unit {0})
          (read_text sys controller path)
          w
  unfolding read_text
  read_text-shown path w =
      Ensures-handle _ _ _ _ (read_file path) _ _ w (read_file-Readable sys readable path w)
        (λ text w' h. h) (λ e w' h. tt)

  read-Reports : (w : World) → Ensures Reports (λ e w'. Unit {0}) (read sys controller) w
  unfolding read
  read-Reports w =
      Ensures-bind _ _ _ (read_text sys controller effect) _ w (read_text-shown effect w)
        λ effect_text w1 (is_effect, keeps1).
          Ensures-bind _ _ _ (read_text sys controller zones) _ w1 (read_text-shown zones w1)
            λ zones_text w2 (is_zones, keeps2).
              let e1 : contents w2 effect ≡ effect_text =
                (keeps2 effect).0 ∙ (keeps1 effect).0 ∙ sym is_effect in
              let e2 : contents w2 zones ≡ zones_text = (keeps2 zones).0 ∙ sym is_zones in
              parsed effect_text zones_text w2 e1 e2
    where
      parsed :
          (effect_text zones_text : Bytes) (w2 : World)
          → contents w2 effect ≡ effect_text
          → contents w2 zones ≡ zones_text
          → Settles Reports
              (λ e w'. Unit {0})
              (parse_state_with_zones effect_text zones_text zone_count)
              w2
      parsed effect_text zones_text w2 e1 e2 =
          elim (Result-cases (parse_state_with_zones effect_text zones_text zone_count)) [
            | inl (st, k) ↦ rw k (rw (e1, e2) k)
            | inr (x, k) ↦ rw k tt
          ]

  -- a state that comes back is reported by the files, and what the comparison says holds of it
  write_verified-Reports :
      (path payload : Bytes) (agrees : LightingState → Bool) (P : LightingState → Type 0)
      (w : World)
      → ((st : LightingState) → agrees st ≡ true → P st)
      → Ensures
          (λ st w'. Reports st w' × P st)
          (λ e w'. Unit {0})
          (write_verified sys controller path payload agrees)
          w
  unfolding write_verified
  write_verified-Reports path payload agrees P w sound =
      Ensures-bind (λ u w'. Unit {0}) _ _ (write_text sys controller path payload) _ w
        (Ensures-cases _ _ (write_text sys controller path payload) w (λ a e. tt) (λ x e. tt))
        λ u w1 k.
          Ensures-bind _ _ _ (read sys controller) _ w1 (read-Reports w1) λ st w2 reports.
            Ensures-if _ _ (agrees st) _ _ w2 (λ e. (reports, sound st e)) (λ e. tt)

  set_effect-Reports :
      (request : EffectRequest) (P : LightingState → Type 0) (w : World)
      → ((st : LightingState)
          → effect_agrees request st ≡ true
          → validate_effect request ≡ ok tt
          → P st)
      → Ensures
          (λ st w'. Reports st w' × P st)
          (λ e w'. Unit {0})
          (set_effect sys controller request)
          w
  unfolding set_effect
  set_effect-Reports request P w sound = elim (Result-cases (validate_effect request)) [
    | inr (x, k) ↦ rw k tt
    | inl (tt, k) ↦ rw k (
        write_verified-Reports effect (effect_payload request) (effect_agrees request) P w
          (λ st agrees. sound st agrees k))
  ]

  effect_mode-Reports :
      (number : ℕ) (request : LightingRequest) (P : LightingState → Type 0) (w : World)
      → ((st : LightingState)
          → effect_agrees (as_effect number request) st ≡ true
          → validate_effect (as_effect number request) ≡ ok tt
          → P st)
      → Ensures
          (λ st w'. Reports st w' × P st)
          (λ e w'. Unit {0})
          (if not (is_empty request.zone_colors)
            then raise one_global_color
            else set_effect sys controller (as_effect number request))
          w
  effect_mode-Reports number request P w sound =
      Ensures-if _ _ (not (is_empty request.zone_colors)) _ _ w (λ e. tt)
        (λ e. set_effect-Reports (as_effect number request) P w sound)

  apply_mode-Reports :
      (mode : LightingMode) (request : LightingRequest) (w : World)
      → zone_count ≤ 4
      → Ensures
          (λ st w'. Reports st w' × Carries zone_count request mode st)
          (λ e w'. Unit {0})
          (apply_mode sys controller mode request)
          w
  unfolding apply_mode set_power set_zones Carries static_zones validate_effect validate_mode
  apply_mode-Reports off request w few =
      write_verified-Reports controller.power (codes "0\n") (λ actual. bool_eq actual.powered false)
        (Carries zone_count request off) w (λ st agrees. bool_eq_sound st.powered false agrees)
  apply_mode-Reports static request w few =
      elim (Result-cases (
        choose_zones zone_count (request.color, request.color, request.color, request.color)
          request.zone_colors)) [
            | inr (x, k) ↦ rw k tt
            | inl (colors, k) ↦
                let wanted : ZonesRequest = record {
                  zones = colors;
                  brightness = request.brightness;
                } in
                rw k (
                  Ensures-if _ _ (ltb 100 request.brightness) _ _ w (λ e. tt)
                    (λ e.
                      write_verified-Reports zones (zones_payload zone_count wanted)
                        (zones_agree zone_count wanted) (Carries zone_count request static) w
                        (λ st agrees.
                          let (plain, bright, same) =
                            zones_agree_sound zone_count wanted st agrees in
                          (
                            plain,
                            bright,
                            same
                                ∙ choose_zones-wanted zone_count request.color request.zone_colors
                                    colors few k,
                          ))))
          ]
  apply_mode-Reports breathing request w few =
      effect_mode-Reports 1 request (Carries zone_count request breathing) w λ st agrees valid.
        let (m, s, b, d, c) = effect_agrees_sound (as_effect 1 request) st agrees in
        let still : request.speed ≡ 0 = ground (arith, valid) in (m, s ∙ still, s, b, d, c)
  apply_mode-Reports neon request w few =
      effect_mode-Reports 2 request (Carries zone_count request neon) w
        λ st agrees valid. effect_agrees_sound (as_effect 2 request) st agrees

  -- For files that read honestly, whatever a write does, and at most four zones: a request that is
  -- applied without an error names the keyboard and is in range, and the state that is reported is the
  -- one that the texts of the files parse to and carries what the mode asks: no power; the static mode
  -- with the brightness and the colour of each active zone; breathing at speed zero; or neon with its
  -- speed, both with the brightness and the colour.
  pub apply_zoned_wmi-Reports :
      (request : LightingRequest) (w : World)
      → zone_count ≤ 4
      → Ensures
          (λ status w'.
            (request.target ≡ keyboard)
            × (request.brightness ≤ 100)
            × (request.speed ≤ 9)
            × ((st : LightingState) × (status ≡ firmware st)
                × Reports st w'
                × Carries zone_count request request.mode st))
          (λ e w'. Unit {0})
          (apply_zoned_wmi sys controller request)
          w
  unfolding apply_zoned_wmi
  apply_zoned_wmi-Reports request w few =
      Ensures-if _ _ (not (target_eq request.target keyboard)) _ _ w (λ e. tt)
        λ own.
          Ensures-if _ _ (ltb 100 request.brightness) _ _ w (λ e. tt)
            λ dim.
              Ensures-if _ _ (ltb 9 request.speed) _ _ w (λ e. tt)
                λ slow.
                  Ensures-bind _ _ _ (apply_mode sys controller request.mode request) _ w
                    (apply_mode-Reports request.mode request w few)
                    λ st w' (reports, carries). (
                      ground (arith, own),
                      ground (arith, dim),
                      ground (arith, slow),
                      (st, refl, reports, carries),
                    )
