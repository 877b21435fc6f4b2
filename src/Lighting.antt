-- ===== src/Lighting.antt =====
-- src/lighting.rs: the lighting requests, devices and states, and the checks that need no device.
-- Texts of errors are dropped: an error is the one place that raises it.
pub mod Text
pub mod Wmi
mod Examples
pub mod Enek
pub mod Refusal
pub mod Outcome
pub mod RoundTrip
use asense.Result.{Result, ok, err}
use asense.Base.{
  ltb, leb, ◌==◌, if◌then◌else◌, within, ℕ, Bool, true, false, not, ◌||◌, List, [], ◌∷◌,
}
use asense.Base.Text.{Bytes}
use asense.Base.Hex.{Color}

pub data LightingBackend : Type 0 where
  zoned_wmi enek5130 : LightingBackend

pub data LightingTarget : Type 0 where
  keyboard cover_logo rear_logo lightbar : LightingTarget

pub data LightingMode : Type 0 where
  off static breathing neon : LightingMode

-- the derived `PartialEq`
abbrev pub target_eq : LightingTarget → LightingTarget → Bool
target_eq keyboard keyboard = true
target_eq cover_logo cover_logo = true
target_eq rear_logo rear_logo = true
target_eq lightbar lightbar = true
target_eq _ _ = false

pub record LightingModes : Type 0 where
  pub static_color : Bool
  pub brightness : Bool
  pub breathing_effect : Bool
  pub neon_effect : Bool

pub record LightingDevice : Type 0 where
  pub id : Bytes
  pub backend : LightingBackend
  pub target : LightingTarget
  pub zones : ℕ
  pub modes : LightingModes
  pub state_readable : Bool

pub record LightingRequest : Type 0 where
  pub target : LightingTarget
  pub mode : LightingMode
  pub brightness : ℕ
  pub speed : ℕ
  pub color : Color
  pub zone_colors : List Color

-- `[[u8; 3]; 4]`
abbrev pub Zones : Type 0
Zones = Color × Color × Color × Color

abbrev pub zone_list : Zones → List Color
zone_list (a, b, c, d) = a ∷ b ∷ c ∷ d ∷ []

-- `zones[..colors.len()].copy_from_slice(colors)`, for at most four colours
unfoldable pub copy_zones : List Color → Zones → Zones
copy_zones [] zones = zones
copy_zones (a ∷ []) (x, y, z, t) = (a, y, z, t)
copy_zones (a ∷ b ∷ []) (x, y, z, t) = (a, b, z, t)
copy_zones (a ∷ b ∷ c ∷ []) (x, y, z, t) = (a, b, c, t)
copy_zones (a ∷ b ∷ c ∷ d ∷ more) zones = (a, b, c, d)

pub record LightingState : Type 0 where
  pub powered : Bool
  pub mode : ℕ
  pub speed : ℕ
  pub brightness : ℕ
  pub direction : ℕ
  pub color : Color
  pub zones : Zones

pub data LightingStateStatus : Type 0 where
  firmware : LightingState → LightingStateStatus
  unknown : LightingStateStatus
  last_applied : LightingRequest → LightingStateStatus

pub record EffectRequest : Type 0 where
  pub mode : ℕ
  pub speed : ℕ
  pub brightness : ℕ
  pub direction : ℕ
  pub color : Color

pub record ZonesRequest : Type 0 where
  pub zones : Zones
  pub brightness : ℕ

pub record KeyboardLighting : Type 0 where
  pub power : Bytes
  pub effect : Bytes
  pub zones : Bytes
  pub zone_count : ℕ

pub data LightingError : Type 0 where
  unavailable wrong_target unsupported_mode wrong_color_count one_global_color : LightingError
  mode_range speed_range brightness_range static_parameters neon_direction : LightingError
  wave_direction zoom_direction : LightingError
  rejected unreadable mismatch invalid_mask invalid_text getters_disagree : LightingError
  no_target transport invalid_report no_power_control : LightingError

-- `match request.mode` of `validate_effect`
unfoldable pub validate_mode : EffectRequest → Result LightingError Unit
validate_mode request =
    if leb request.mode 1
    then (if not (request.speed == 0) || not (request.direction == 0)
        then err static_parameters
        else ok tt)
    else if request.mode == 2
    then (if not (request.direction == 0) then err neon_direction else ok tt)
    else if within 3 4 request.mode
    then (if not (within 1 2 request.direction) then err wave_direction else ok tt)
    else if not (request.direction == 0)
    then err zoom_direction
    else ok tt

unfoldable pub validate_effect : EffectRequest → Result LightingError Unit
unfolding validate_mode
validate_effect request =
    if ltb 7 request.mode
    then err mode_range
    else if ltb 9 request.speed
    then err speed_range
    else if ltb 100 request.brightness
    then err brightness_range
    else validate_mode request
