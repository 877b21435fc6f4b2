-- ===== src/Hardware.antt =====
-- src/hardware.rs: the vocabulary of the Acer profile and fan controls. Of an error only what a
-- later decision reads is kept: paths, operations and operating-system texts are dropped.
pub mod Sysfs
pub mod Readable
pub mod Memory
pub mod Profile
mod Examples
pub mod Fans
use asense.Base.{if◌then◌else◌, ℕ, ◌≡◌, refl, Bool, true, false, [], ◌∷◌, ◌++◌, arith}
use asense.Base.Text.{Bytes, codes, text_eq, trim}
use asense.Result.{Result, ok, err}

pub data IoKind : Type 0 where
  enxio enoent other : IoKind

pub data PlatformProfile : Type 0 where
  eco quiet balanced performance turbo : PlatformProfile

-- the derived `PartialEq`
abbrev pub profile_eq : PlatformProfile → PlatformProfile → Bool
profile_eq eco eco = true
profile_eq quiet quiet = true
profile_eq balanced balanced = true
profile_eq performance performance = true
profile_eq turbo turbo = true
profile_eq _ _ = false

pub data HardwareError : Type 0 where
  io : IoKind → HardwareError
  unsupported_platform acer_hwmon_not_found : HardwareError
  fan_control_unavailable manual_fan_unavailable missing_interface : HardwareError
  invalid_value : Bytes → HardwareError
  profile_unavailable : PlatformProfile → HardwareError
  readback_mismatch : (expected actual : Bytes) → HardwareError
  mutation_rolled_back : (cause : HardwareError) → HardwareError
  mutation_failsafe_maximum : (cause automatic : HardwareError) → HardwareError
  mutation_recovery_failed : (cause automatic maximum : HardwareError) → HardwareError

unfoldable pub as_sysfs : PlatformProfile → Bytes
as_sysfs eco = codes "low-power"
as_sysfs quiet = codes "quiet"
as_sysfs balanced = codes "balanced"
as_sysfs performance = codes "balanced-performance"
as_sysfs turbo = codes "performance"

unfoldable pub from_sysfs : Bytes → Result HardwareError PlatformProfile
unfolding trim
from_sysfs value =
    let v = trim value in
    if text_eq v (codes "low-power")
    then ok eco
    else if text_eq v (codes "quiet")
    then ok quiet
    else if text_eq v (codes "balanced")
    then ok balanced
    else if text_eq v (codes "balanced-performance")
    then ok performance
    else if text_eq v (codes "performance")
    then ok turbo
    else err (invalid_value v)

pub data FanMode : Type 0 where
  maximum manual automatic : FanMode

abbrev pub mode_eq : FanMode → FanMode → Bool
mode_eq maximum maximum = true
mode_eq manual manual = true
mode_eq automatic automatic = true
mode_eq _ _ = false

unfoldable pub mode_as_sysfs : FanMode → Bytes
mode_as_sysfs maximum = codes "0"
mode_as_sysfs manual = codes "1"
mode_as_sysfs automatic = codes "2"

unfoldable pub mode_from_sysfs : Bytes → Result HardwareError FanMode
unfolding trim
mode_from_sysfs value =
    let v = trim value in
    if text_eq v (codes "0")
    then ok maximum
    else if text_eq v (codes "1")
    then ok manual
    else if text_eq v (codes "2")
    then ok automatic
    else err (invalid_value v)

pub data FanSetting : Type 0 where
  set_automatic set_maximum : FanSetting
  set_manual_percent : (cpu_percent gpu_percent : ℕ) → FanSetting

abbrev pub is_manual : FanSetting → Bool
is_manual (set_manual_percent cpu_percent gpu_percent) = true
is_manual _ = false

pub profile_eq_sound : (p q : PlatformProfile) → profile_eq p q ≡ true → p ≡ q
profile_eq_sound p q h = ground arith

-- The sysfs spelling of each profile is read back as that profile, with or without the newline that
-- the kernel appends.
pub from_sysfs-as_sysfs :
    (p : PlatformProfile)
    → (from_sysfs (as_sysfs p) ≡ ok p) × (from_sysfs (as_sysfs p ++ 10 ∷ []) ≡ ok p)
unfolding from_sysfs as_sysfs
from_sysfs-as_sysfs eco = (refl, refl)
from_sysfs-as_sysfs _ = (refl, refl)

-- The sysfs spelling of each fan mode is read back as that mode, with or without a final newline.
pub mode_from_sysfs-mode_as_sysfs :
    (m : FanMode)
    → (mode_from_sysfs (mode_as_sysfs m) ≡ ok m)
      × (mode_from_sysfs (mode_as_sysfs m ++ 10 ∷ []) ≡ ok m)
unfolding mode_from_sysfs mode_as_sysfs
mode_from_sysfs-mode_as_sysfs maximum = (refl, refl)
mode_from_sysfs-mode_as_sysfs _ = (refl, refl)
