-- ===== src/Lighting/Refusal.antt =====
-- src/lighting.rs: which requests the zoned WMI keyboard refuses before it writes, and the zone mask.
use asense.Result.{ok, err}
use asense.Exec.{Exec, ◌>>=◌, pure, raise, ◌>>◌}
use asense.Base.{
  take, ◌∙◌, leb, ◌==◌, length, ℕ, ◌≡◌, Bool, true, false, ◌&&◌, List, [], ◌∷◌, arith, ltb,
  if◌then◌else◌, within, Bool-cases, ◌-◌, ◌^◌, ◌≤◌, refl, ◌↔◌, ◌⊎◌, inl, inr, not, some,
  Option-cases, zero, suc, ap,
}
use asense.Base.Text.{Bytes, codes}
use asense.Base.Hex.{Color, parse_hex}
use asense.Hardware.Sysfs.{Sysfs}
use asense.Lighting.{
  LightingMode, target_eq, LightingRequest, Zones, zone_list, KeyboardLighting, LightingError,
  validate_mode, validate_effect, keyboard, off, static, breathing, neon, wrong_color_count,
  LightingState, firmware, EffectRequest, ZonesRequest, wrong_target, mismatch, one_global_color,
  speed_range, brightness_range, static_parameters, copy_zones,
}
use asense.Lighting.Text.{
  effect_payload, zones_payload, without_prefix, zone_count_from_mask, mask_count,
}
use asense.Lighting.Outcome.{
  Carries, wanted_colors, zones_agree_sound, effect_agrees_sound, choose_zones-wanted,
  bool_eq_sound,
}
use asense.Lighting.Wmi.{
  choose_zones, static_zones, is_empty, set_effect, apply_mode, bool_eq, effect_agrees, zones_agree,
  as_effect, read, write_text, write_verified, set_power, set_zones, apply_zoned_wmi,
}

-- no colour or one, or one for each zone
abbrev pub count_fits : ℕ → List Color → Bool
count_fits zone_count [] = true
count_fits zone_count (c ∷ []) = true
count_fits zone_count (c ∷ d ∷ more) = length (c ∷ d ∷ more) == zone_count

abbrev pub mode_fits : ℕ → LightingRequest → LightingMode → Bool
mode_fits zone_count request off = true
mode_fits zone_count request static = count_fits zone_count request.zone_colors
mode_fits zone_count request breathing = is_empty request.zone_colors && request.speed == 0
mode_fits zone_count request neon = is_empty request.zone_colors

-- what the keyboard can be asked for
unfoldable pub servable : ℕ → LightingRequest → Bool
servable zone_count request =
    target_eq request.target keyboard
    && leb request.brightness 100
    && leb request.speed 9
    && mode_fits zone_count request request.mode

-- which file the mode is written to, and what
abbrev pub mode_file : KeyboardLighting → LightingMode → Bytes
mode_file controller off = controller.power
mode_file controller static = controller.zones
mode_file controller _ = controller.effect

-- the text that a mode asks for
unfoldable pub Asks : ℕ → LightingRequest → LightingMode → Bytes → Type 0
Asks zone_count request off payload = payload ≡ codes "0\n"
Asks zone_count request static payload =
    (zones : Zones) × (take zone_count (zone_list zones)
      ≡ wanted_colors zone_count request.color request.zone_colors)
    × (payload
        ≡ zones_payload zone_count (record { zones = zones; brightness = request.brightness }))
Asks zone_count request breathing payload =
    payload
    ≡ effect_payload (record {
      mode = 1;
      speed = 0;
      brightness = request.brightness;
      direction = 0;
      color = request.color;
    })
Asks zone_count request neon payload =
    payload
    ≡ effect_payload (record {
      mode = 2;
      speed = request.speed;
      brightness = request.brightness;
      direction = 0;
      color = request.color;
    })

-- a comparison that only a state which carries the mode passes
abbrev pub Compares : ℕ → LightingRequest → LightingMode → (LightingState → Bool) → Type 0
Compares zone_count request mode agrees =
    (st : LightingState) → agrees st ≡ true → Carries zone_count request mode st

module _ (sys : Sysfs) (controller : KeyboardLighting) where
  open sys use {World}
  open controller use {zone_count}

  abbrev Refuses : {A : Type 0} → Exec World LightingError A → World → Type 0
  Refuses m w = (e : LightingError) × (m w ≡ (err e, w))

  -- one write to the path, a reading, and a comparison
  abbrev Writes : LightingRequest → LightingMode → World → Type 0
  Writes request mode w =
      (payload : Bytes) × (agrees : LightingState → Bool) × Asks zone_count request mode payload
      × Compares zone_count request mode agrees
      × (apply_mode sys controller mode request w
          ≡ write_verified sys controller (mode_file controller mode) payload agrees w)

  -- a write, a reading, and a comparison that refuses
  abbrev pub write_and_compare :
      Bytes → Bytes → (LightingState → Bool) → Exec World LightingError LightingState
  write_and_compare path payload agrees = do
    write_text sys controller path payload
    actual ← read sys controller
    if agrees actual then pure actual else raise mismatch

  choose_zones-refuses :
      (zones : Zones) (colors : List Color)
      → count_fits zone_count colors ≡ false
      → choose_zones zone_count zones colors ≡ err wrong_color_count
  unfolding choose_zones
  choose_zones-refuses zones [] h = ground (arith, h)
  choose_zones-refuses zones (c ∷ []) h = ground (arith, h)
  choose_zones-refuses zones (c ∷ d ∷ more) h = ground (arith, h)

  choose_zones-fits :
      (zones : Zones) (colors : List Color)
      → count_fits zone_count colors ≡ true
      → (chosen : Zones) × (choose_zones zone_count zones colors ≡ ok chosen)
  unfolding choose_zones
  choose_zones-fits zones [] h = (zones, refl)
  choose_zones-fits zones (c ∷ []) h = ((c, c, c, c), refl)
  choose_zones-fits zones (c ∷ d ∷ more) h = (copy_zones (c ∷ d ∷ more) zones, rw h refl)

  -- a request without zone colours that its mode does not fit is refused by the check of the effect
  validate_effect-speed :
      (request : EffectRequest)
      → request.mode ≡ 1
      → (request.speed == 0) ≡ false
      → request.speed ≤ 9
      → request.brightness ≤ 100
      → validate_effect request ≡ err static_parameters
  unfolding validate_effect validate_mode
  validate_effect-speed request m s slow dim = ground (arith, m, s, slow, dim)

  effect_refused :
      (number : ℕ) (request : LightingRequest) (w : World)
      → (is_empty request.zone_colors ≡ false)
        ⊎ ((e : LightingError) × (validate_effect (as_effect number request) ≡ err e))
      → Refuses
          (if not (is_empty request.zone_colors)
            then raise one_global_color
            else set_effect sys controller (as_effect number request))
          w
  unfolding set_effect
  effect_refused number request w (inl h) = rw h (one_global_color, refl)
  effect_refused number request w (inr (e, h)) = elim (Bool-cases (is_empty request.zone_colors)) [
    | inl k ↦ rw k (e, rw h refl)
    | inr k ↦ rw k (one_global_color, refl)
  ]

  effect_accepted :
      (number : ℕ) (request : LightingRequest) (w : World)
      → is_empty request.zone_colors ≡ true
      → validate_effect (as_effect number request) ≡ ok tt
      → (if not (is_empty request.zone_colors)
            then raise one_global_color
            else set_effect sys controller (as_effect number request))
          w
        ≡ write_verified sys controller controller.effect
            (effect_payload (as_effect number request))
            (effect_agrees (as_effect number request))
            w
  unfolding set_effect
  effect_accepted number request w h k = rw h (rw k refl)

  validate_effect-accepts :
      (request : EffectRequest)
      → within 1 2 request.mode ≡ true
      → (request.mode ≡ 1 → request.speed ≡ 0)
      → request.direction ≡ 0
      → request.speed ≤ 9
      → request.brightness ≤ 100
      → validate_effect request ≡ ok tt
  unfolding validate_effect validate_mode
  validate_effect-accepts request m s d slow dim = ground (arith, m, s, d, slow, dim)

  apply_mode-Refuses :
      (mode : LightingMode) (request : LightingRequest) (w : World)
      → request.brightness ≤ 100
      → request.speed ≤ 9
      → mode_fits zone_count request mode ≡ false
      → Refuses (apply_mode sys controller mode request) w
  unfolding apply_mode static_zones
  apply_mode-Refuses off request w dim slow h = ground (arith, h)
  apply_mode-Refuses static request w dim slow h =
      let color : Color = request.color in
      (
        wrong_color_count,
        rw (choose_zones-refuses (color, color, color, color) request.zone_colors h) refl,
      )
  apply_mode-Refuses breathing request w dim slow h =
      effect_refused 1 request w (elim (Bool-cases (is_empty request.zone_colors)) [
        | inr k ↦ inl k
        | inl k ↦ inr (
          static_parameters,
          validate_effect-speed (as_effect 1 request) refl (ground (arith, h, k)) slow dim,
        )
      ])
  apply_mode-Refuses neon request w dim slow h = effect_refused 2 request w (inl h)

  apply_mode-Writes :
      (mode : LightingMode) (request : LightingRequest) (w : World)
      → zone_count ≤ 4
      → request.brightness ≤ 100
      → request.speed ≤ 9
      → mode_fits zone_count request mode ≡ true
      → Writes request mode w
  unfolding apply_mode static_zones set_power set_zones Asks Carries
  apply_mode-Writes off request w few dim slow h = (
    codes "0\n",
    (λ actual. bool_eq actual.powered false),
    refl,
    (λ st agrees. bool_eq_sound st.powered false agrees),
    refl,
  )
  apply_mode-Writes static request w few dim slow h =
      let color : Color = request.color in
      let (chosen, k) = choose_zones-fits (color, color, color, color) request.zone_colors h in
      let shown = choose_zones-wanted zone_count color request.zone_colors chosen few k in
      let bright : ltb 100 request.brightness ≡ false = ground arith in
      let wanted : ZonesRequest = record { zones = chosen; brightness = request.brightness } in
      (
        zones_payload zone_count wanted,
        zones_agree zone_count wanted,
        (chosen, shown, refl),
        (λ st agrees.
            let (plain, light, same) = zones_agree_sound zone_count wanted st agrees in
            (plain, light, same ∙ shown)),
        rw (k, bright) refl,
      )
  apply_mode-Writes breathing request w few dim slow h =
      let still : request.speed ≡ 0 = ground (arith, h) in
      (
        effect_payload (as_effect 1 request),
        effect_agrees (as_effect 1 request),
        (ap
            (λ speed. effect_payload (record {
              mode = 1;
              speed = speed;
              brightness = request.brightness;
              direction = 0;
              color = request.color;
            }))
            still),
        (λ st agrees.
            let (m, s, b, d, c) = effect_agrees_sound (as_effect 1 request) st agrees in
            (m, s ∙ still, s, b, d, c)),
        effect_accepted 1 request w (ground (arith, h)) (
            validate_effect-accepts (as_effect 1 request) refl (λ e. ground (arith, h)) refl slow
              dim),
      )
  apply_mode-Writes neon request w few dim slow h = (
    effect_payload (as_effect 2 request),
    effect_agrees (as_effect 2 request),
    refl,
    (λ st agrees. effect_agrees_sound (as_effect 2 request) st agrees),
    effect_accepted 2 request w h
        (validate_effect-accepts (as_effect 2 request) refl (λ e. ground (arith, e)) refl slow dim),
  )

  -- With at most four zones: a request that is not for the keyboard, is out of range, has a number of
  -- colours that is neither at most one nor that of the zones, or asks for an effect with zone colours
  -- or for breathing at a speed, is refused, and nothing is written; any other is one write of what its
  -- mode asks to the file of the mode, and a comparison of the state that is read back, which only a
  -- state that carries what the mode asks passes.
  pub apply_zoned_wmi-servable :
      (request : LightingRequest) (w : World)
      → zone_count ≤ 4
      → (servable zone_count request ≡ false
          → (e : LightingError) × (apply_zoned_wmi sys controller request w ≡ (err e, w)))
        × (servable zone_count request ≡ true
            → (payload : Bytes) × (agrees : LightingState → Bool) × Asks zone_count request
                request.mode payload
              × Compares zone_count request request.mode agrees
              × (apply_zoned_wmi sys controller request w
                  ≡ (write_and_compare (mode_file controller request.mode) payload agrees
                        >>= λ state. pure (firmware state))
                      w))
  unfolding apply_zoned_wmi servable write_verified
  apply_zoned_wmi-servable request w few = (refused, accepted)
    where
      refused :
          servable zone_count request ≡ false
          → (e : LightingError) × (apply_zoned_wmi sys controller request w ≡ (err e, w))
      refused h = elim (Bool-cases (target_eq request.target keyboard)) [
        | inr k ↦ (wrong_target, rw (k, apply_zoned_wmi) refl)
        | inl k ↦ elim (Bool-cases (ltb 100 request.brightness)) [
          | inl b ↦ (brightness_range, rw (k, b, apply_zoned_wmi) refl)
          | inr b ↦ elim (Bool-cases (ltb 9 request.speed)) [
            | inl s ↦ (speed_range, rw (k, b, s, apply_zoned_wmi) refl)
            | inr s ↦
                let (e, r) =
                  apply_mode-Refuses request.mode request w (ground (arith, b)) (ground (arith, s))
                    (ground (arith, h, k, b, s)) in
                (e, rw (k, b, s, r, apply_zoned_wmi) refl)
          ]
        ]
      ]

      accepted :
          servable zone_count request ≡ true
          → (payload : Bytes) × (agrees : LightingState → Bool) × Asks zone_count request
              request.mode payload
            × Compares zone_count request request.mode agrees
            × (apply_zoned_wmi sys controller request w
                ≡ (write_and_compare (mode_file controller request.mode) payload agrees >>= λ state.
                      pure (firmware state))
                    w)
      accepted h =
          let k : target_eq request.target keyboard ≡ true = ground (arith, h) in
          let b : ltb 100 request.brightness ≡ false = ground (arith, h) in
          let s : ltb 9 request.speed ≡ false = ground (arith, h) in
          let (payload, agrees, asks, compares, r) =
            apply_mode-Writes request.mode request w few (ground (arith, b)) (ground (arith, s))
              (ground (arith, h)) in
          (payload, agrees, asks, compares, rw (k, b, s, r, apply_zoned_wmi) refl)

mask_count_iff : (mask n : ℕ) → (mask_count mask ≡ ok n) ↔ ((1 ≤ n) × (n ≤ 4) × (mask ≡ 2 ^ n - 1))
unfolding mask_count
mask_count_iff mask zero = ground arith
mask_count_iff mask (suc zero) = ground arith
mask_count_iff mask (suc (suc zero)) = ground arith
mask_count_iff mask (suc (suc (suc zero))) = ground arith
mask_count_iff mask (suc (suc (suc (suc zero)))) = ground arith
mask_count_iff mask (suc (suc (suc (suc (suc n))))) =
    (λ h. ground (arith, h), λ (a, b, c). ground (arith, b))

-- A zone mask is accepted just when it is a hexadecimal number whose ones are the lowest bits, one to
-- four of them, and their number is the number of zones.
pub zone_count_from_mask_iff :
    (value : Bytes) (n : ℕ)
    → (zone_count_from_mask value ≡ ok n)
      ↔ ((1 ≤ n) × (n ≤ 4) × (parse_hex 255 (without_prefix value) ≡ some (2 ^ n - 1)))
unfolding zone_count_from_mask
zone_count_from_mask_iff value n = elim (Option-cases (parse_hex 255 (without_prefix value))) [
  | inl e ↦ (λ h. ground (arith, e, h), λ (a, b, c). ground (arith, e, c))
  | inr (mask, e) ↦
      let (to, from) = mask_count_iff mask n in
      rw (e, zone_count_from_mask)
        (
          λ h. let (a, b, c) = to h in (a, b, ap some c),
          λ (a, b, c). from (a, b, ground (arith, c)),
        )
]
