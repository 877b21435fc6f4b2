-- ===== src/Lighting/Wmi.antt =====
-- src/lighting.rs: `KeyboardLighting` over the zoned WMI transport, and what `LightingController` does
-- with it. The file system is a parameter.
use asense.Result.{Result, ok, err}
use asense.Exec.{Exec, pure, raise, lift, ◌>>=◌, ◌>>◌, handle}
use asense.Base.{
  ltb, ◌==◌, if◌then◌else◌, length, take, ℕ, Bool, true, false, not, ◌&&◌, ◌||◌, Option, none, some,
  List, [], ◌∷◌,
}
use asense.Base.Text.{Bytes, codes, trim}
use asense.Base.Hex.{Color}
use asense.Hardware.{IoKind, enoent}
use asense.Hardware.Sysfs.{Sysfs, join}
use asense.Lighting.{
  LightingTarget, LightingMode, target_eq, LightingRequest, Zones, zone_list, copy_zones,
  LightingState, LightingStateStatus, firmware, EffectRequest, ZonesRequest, KeyboardLighting,
  LightingError, validate_effect, keyboard, off, static, breathing, unavailable, wrong_target,
  wrong_color_count, one_global_color, speed_range, brightness_range, rejected, unreadable,
  mismatch, neon,
}
use asense.Lighting.Text.{
  effect_payload, zones_payload, parse_state_with_zones, zone_count_from_mask,
}

abbrev pub is_not_found : IoKind → Bool
is_not_found enoent = true
is_not_found _ = false

abbrev pub color_eq : Color → Color → Bool
color_eq (r, g, b) (x, y, z) = r == x && g == y && b == z

abbrev pub colors_eq : List Color → List Color → Bool
colors_eq [] [] = true
colors_eq (c ∷ cs) (d ∷ ds) = color_eq c d && colors_eq cs ds
colors_eq _ _ = false

-- the derived `PartialEq`
abbrev pub bool_eq : Bool → Bool → Bool
bool_eq true b = b
bool_eq false b = not b

-- the readback of `set_effect`, and that of `set_zones`
abbrev pub effect_agrees : EffectRequest → LightingState → Bool
effect_agrees request actual =
    actual.mode == request.mode
    && actual.speed == request.speed
    && actual.brightness == request.brightness
    && actual.direction == request.direction
    && color_eq actual.color request.color

abbrev pub zones_agree : ℕ → ZonesRequest → LightingState → Bool
zones_agree active request actual =
    actual.mode == 0
    && actual.brightness == request.brightness
    && colors_eq (take active (zone_list actual.zones)) (take active (zone_list request.zones))

-- `match request.zone_colors.as_slice()`, with the zones filled by the one colour of the request
unfoldable pub choose_zones : ℕ → Zones → List Color → Result LightingError Zones
unfolding copy_zones
choose_zones zone_count zones [] = ok zones
choose_zones zone_count zones (c ∷ []) = ok (c, c, c, c)
choose_zones zone_count zones (c ∷ d ∷ more) =
    if length (c ∷ d ∷ more) == zone_count
    then ok (copy_zones (c ∷ d ∷ more) zones)
    else err wrong_color_count

-- the zones of a static request
unfoldable pub static_zones : ℕ → LightingRequest → Result LightingError Zones
unfolding choose_zones
static_zones zone_count request =
    let color = request.color in
    choose_zones zone_count (color, color, color, color) request.zone_colors

-- the effect of a request with the number of its mode
abbrev pub as_effect : ℕ → LightingRequest → EffectRequest
as_effect number request = record {
  mode = number;
  speed = request.speed;
  brightness = request.brightness;
  direction = 0;
  color = request.color;
}

abbrev pub is_empty : {A : Type 0} → List A → Bool
is_empty [] = true
is_empty (a ∷ rest) = false

module _ (sys : Sysfs) where
  open sys use {World, read_file, write_file, is_file}

  unfoldable pub mask_zones : Bytes → Exec World LightingError ℕ
  unfolding zone_count_from_mask trim
  mask_zones path =
      handle (read_file path) (λ mask. lift (zone_count_from_mask (trim mask)))
        (λ e. if is_not_found e then pure 4 else raise unreadable)

  -- `discover_at` with the directory that `find_wmi_group` gives
  unfoldable pub discover_keyboard : Option Bytes → Exec World LightingError KeyboardLighting
  discover_keyboard none w = (err unavailable, w)
  discover_keyboard (some base) w =
      let power = join base (codes "power") in
      let effect = join base (codes "effect") in
      let zones = join base (codes "zones") in
      if not (is_file power w) || not (is_file effect w) || not (is_file zones w)
      then (err unavailable, w)
      else (mask_zones (join base (codes "zone_mask")) >>= λ count.
            pure (record { power = power; effect = effect; zones = zones; zone_count = count }))
          w

  module _ (controller : KeyboardLighting) where
    open controller use {power, effect, zones, zone_count}

    unfoldable pub read_text : Bytes → Exec World LightingError Bytes
    read_text path = handle (read_file path) (λ text. pure text) (λ e. raise unreadable)

    unfoldable pub write_text : Bytes → Bytes → Exec World LightingError Unit
    write_text path text = handle (write_file path text) (λ u. pure tt) (λ e. raise rejected)

    unfoldable pub read : Exec World LightingError LightingState
    unfolding read_text parse_state_with_zones
    read = do
      effect_text ← read_text effect
      zones_text ← read_text zones
      lift (parse_state_with_zones effect_text zones_text zone_count)

    -- what the three setters share: a write, a reading, and the comparison
    unfoldable pub write_verified :
        Bytes → Bytes → (LightingState → Bool) → Exec World LightingError LightingState
    unfolding write_text read
    write_verified path payload agrees = do
      write_text path payload
      actual ← read
      if agrees actual then pure actual else raise mismatch

    unfoldable pub set_power : Bool → Exec World LightingError LightingState
    unfolding write_verified
    set_power enabled =
        write_verified power (if enabled then codes "1\n" else codes "0\n")
          (λ actual. bool_eq actual.powered enabled)

    unfoldable pub set_effect : EffectRequest → Exec World LightingError LightingState
    unfolding validate_effect write_verified effect_payload
    set_effect request =
        lift (validate_effect request)
        >> write_verified effect (effect_payload request) (effect_agrees request)

    unfoldable pub set_zones : ZonesRequest → Exec World LightingError LightingState
    unfolding write_verified zones_payload
    set_zones request =
        if ltb 100 request.brightness
        then raise brightness_range
        else write_verified zones (zones_payload zone_count request)
            (zones_agree zone_count request)

    -- `match request.mode` of `apply_zoned_wmi`
    unfoldable pub apply_mode :
        LightingMode → LightingRequest → Exec World LightingError LightingState
    unfolding set_power set_zones set_effect static_zones
    apply_mode off request = set_power false
    apply_mode static request = lift (static_zones zone_count request) >>= λ colors.
        set_zones (record { zones = colors; brightness = request.brightness })
    apply_mode breathing request =
        if not (is_empty request.zone_colors)
        then raise one_global_color
        else set_effect (as_effect 1 request)
    apply_mode neon request =
        if not (is_empty request.zone_colors)
        then raise one_global_color
        else set_effect (as_effect 2 request)

    unfoldable pub apply_zoned_wmi : LightingRequest → Exec World LightingError LightingStateStatus
    unfolding apply_mode
    apply_zoned_wmi request =
        if not (target_eq request.target keyboard)
        then raise wrong_target
        else if ltb 100 request.brightness
        then raise brightness_range
        else if ltb 9 request.speed
        then raise speed_range
        else (apply_mode request.mode request >>= λ state. pure (firmware state))

    unfoldable pub state : Exec World LightingError LightingStateStatus
    unfolding read
    state = read >>= λ actual. pure (firmware actual)

    -- `LightingController::set_power`
    unfoldable pub controller_set_power :
        LightingTarget → Bool → Exec World LightingError LightingStateStatus
    unfolding set_power
    controller_set_power keyboard enabled = set_power enabled >>= λ actual. pure (firmware actual)
    controller_set_power other_target enabled = raise wrong_target
