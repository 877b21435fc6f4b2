-- ===== src/Daemon/Devices/Board.antt =====
-- src/daemon.rs: running the lighting and platform commands on what discovery finds.
use asense.Base.{
  if◌then◌else◌, is_some, ℕ, Bool, true, ◌||◌, Option, none, some, List, [], ◌∷◌, ◌++◌,
}
use asense.Base.Text.{Bytes, codes, text_eq}
use asense.Result.{ok, err}
use asense.Exec.{Exec, pure, raise, ◌>>=◌, handle}
use asense.Hardware.Sysfs.{Sysfs, join}
use asense.Platform.{PlatformError}
use asense.Platform.Controls.{PlatformControls, PlatformState}
use asense.Lighting.{
  LightingTarget, LightingDevice, LightingRequest, LightingState, LightingStateStatus,
  KeyboardLighting, LightingError, zoned_wmi, keyboard, no_power_control,
}
use asense.Lighting.Wmi.{discover_keyboard, apply_zoned_wmi, controller_set_power}
use asense.Lighting.Enek.{Report}
use asense.Lighting.Enek.Device.{Hidraw, apply}
use asense.Lighting.Enek.Discovery.{Enek5130, discover_at}
use asense.Daemon.Devices.{
  DeviceError, lighting_failed, platform_failed, LightingCommand, request_for, device_unavailable,
}

-- The file system, the hidraw device over the same world, `find_wmi_group` below /sys/bus/wmi/devices
-- and `controller_candidates`, which list directories, `save_cached_lighting`, whose failure is a
-- warning, whether the machine is an Acer, and `MutationGuard::acquire`.
pub record Board : Type 1 where
  pub sys : Sysfs
  pub open_node : Bytes → sys.World → Bool × sys.World
  pub ioctl : Bytes → ℕ → Report → sys.World → Option ℕ × Report × sys.World
  pub find_wmi_group : (guid group : Bytes) → sys.World → Option Bytes
  pub controller_candidates : sys.World → List Bytes
  pub save_cached_lighting : LightingRequest → sys.World → sys.World
  pub is_acer : sys.World → Bool
  pub acquire : sys.World → Bool × sys.World

abbrev pub gaming_guid : Bytes
gaming_guid = codes "7A4DDFE7-5B5D-40B4-8595-4408E0CC7F56"

abbrev pub battery_guid : Bytes
battery_guid = codes "79772EC5-04B1-4BFD-843C-61E7F77B6CC9"

abbrev pub apge_guid : Bytes
apge_guid = codes "61EF69EA-865C-4BC3-A502-A0DEBA0CB531"

pub data LightingController : Type 0 where
  zoned_controller : KeyboardLighting → LightingController
  enek_controller : Enek5130 → LightingController

-- what a command answers
pub data DeviceAnswer : Type 0 where
  keyboard_answer : LightingState → DeviceAnswer
  lighting_answer : LightingStateStatus → DeviceAnswer
  platform_answer : PlatformState → DeviceAnswer

unfoldable pub controller_devices : LightingController → List LightingDevice
controller_devices (zoned_controller keyboard_lighting) =
    record {
      id = codes "zoned-wmi-keyboard";
      backend = zoned_wmi;
      target = keyboard;
      zones = keyboard_lighting.zone_count;
      modes = record {
        static_color = true;
        brightness = true;
        breathing_effect = true;
        neon_effect = true;
      };
      state_readable = true;
    }
    ∷ []
controller_devices (enek_controller controller) = controller.devices_found

-- `find(|device| device.id == id)`
unfoldable pub find_device : Bytes → List LightingDevice → Option LightingDevice
find_device id [] = none
find_device id (device ∷ more) =
    let rest = find_device id more in if text_eq device.id id then some device else rest

abbrev pub any_directory : PlatformControls → Bool
any_directory controls =
    is_some controls.gaming || is_some controls.battery || is_some controls.apge

module _ {W E F A : Type 0} where
  abbrev pub failing : (E → F) → Exec W E A → Exec W F A
  failing f m = handle m (λ a. pure a) (λ e. raise (f e))

module _ (board : Board) where
  open board use {
    sys, open_node, ioctl, find_wmi_group, controller_candidates, save_cached_lighting,
  }

  abbrev pub World : Type 0
  World = sys.World

  abbrev pub hid : Hidraw
  hid = record { World = sys.World; open_node = open_node; ioctl = ioctl }

  -- `legacy_group_with`
  unfoldable pub legacy_group_with : Bytes → Bytes → World → Option Bytes
  legacy_group_with guid attribute w = elim (find_wmi_group guid (codes "asense_rgb") w) [
    | none ↦ none
    | some base ↦ if sys.is_file (join base attribute) w then some base else none
  ]

  abbrev pub first_of : Option Bytes → Option Bytes → Option Bytes
  first_of none second = second
  first_of (some base) second = some base

  -- `PlatformControls::discover_at`
  unfoldable pub discover_platform : Exec World DeviceError PlatformControls
  unfolding legacy_group_with
  discover_platform w =
      let controls : PlatformControls = record {
        gaming = find_wmi_group gaming_guid (codes "asense_rgb") w;
        battery =
            first_of (find_wmi_group battery_guid (codes "asense_battery") w)
              (legacy_group_with gaming_guid (codes "battery_limit") w);
        apge =
            first_of (find_wmi_group apge_guid (codes "asense_apge") w)
              (legacy_group_with gaming_guid (codes "usb_charging") w);
      } in
      if any_directory controls then (ok controls, w) else (err device_unavailable, w)

  -- `KeyboardLighting::discover`
  unfoldable pub discover_zoned : Exec World LightingError KeyboardLighting
  unfolding discover_keyboard
  discover_zoned w = discover_keyboard sys (find_wmi_group gaming_guid (codes "asense_rgb") w) w

  unfoldable pub discover_enek : Exec World LightingError Enek5130
  unfolding discover_at
  discover_enek w = discover_at hid (controller_candidates w) w

  -- `LightingController::discover_all`: a transport that is not there does not hide the other
  unfoldable pub discover_all : Exec World DeviceError (List LightingController)
  unfolding discover_zoned discover_enek
  discover_all =
      handle discover_zoned (λ found. pure (zoned_controller found ∷ [])) (λ e. pure [])
      >>= λ zoned.
          handle discover_enek (λ found. pure (zoned ++ enek_controller found ∷ []))
            (λ e. pure zoned)

  -- `LightingController::apply`, and the cache for the controller that cannot be read
  unfoldable pub apply_on :
      LightingController → LightingRequest → Exec World DeviceError DeviceAnswer
  unfolding apply_zoned_wmi apply
  apply_on (zoned_controller keyboard_lighting) request =
      failing lighting_failed (apply_zoned_wmi sys keyboard_lighting request) >>= λ status.
      pure (lighting_answer status)
  apply_on (enek_controller controller) request =
      failing lighting_failed (apply hid controller.node request) >>= λ status w.
      (ok (lighting_answer status), save_cached_lighting request w)

  -- the loop over the controllers of `LIGHTING APPLY`
  unfoldable pub apply_lighting :
      Bytes → LightingCommand → List LightingController → Exec World DeviceError DeviceAnswer
  unfolding apply_on find_device controller_devices
  apply_lighting id command [] = raise device_unavailable
  apply_lighting id command (controller ∷ more) =
      let rest = apply_lighting id command more in
      elim (find_device id (controller_devices controller)) [
        | none ↦ rest
        | some device ↦ apply_on controller (request_for device.target command)
      ]

  unfoldable pub power_on :
      LightingController → LightingTarget → Bool → Exec World DeviceError DeviceAnswer
  unfolding controller_set_power
  power_on (zoned_controller keyboard_lighting) target enabled =
      failing lighting_failed (controller_set_power sys keyboard_lighting target enabled)
      >>= λ status. pure (lighting_answer status)
  power_on (enek_controller controller) target enabled = raise (lighting_failed no_power_control)

  -- the loop over the controllers of `LIGHTING POWER`
  unfoldable pub power_lighting :
      Bytes → Bool → List LightingController → Exec World DeviceError DeviceAnswer
  unfolding power_on find_device controller_devices
  power_lighting id enabled [] = raise device_unavailable
  power_lighting id enabled (controller ∷ more) =
      let rest = power_lighting id enabled more in
      elim (find_device id (controller_devices controller)) [
        | none ↦ rest
        | some device ↦ power_on controller device.target enabled
      ]

  -- an operation of the platform, with its answer
  abbrev pub on_platform :
      Exec World PlatformError PlatformState → Exec World DeviceError DeviceAnswer
  on_platform operation = failing platform_failed operation >>= λ st. pure (platform_answer st)
