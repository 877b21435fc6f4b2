-- ===== src/Lighting/Enek/Device.antt =====
-- src/lighting/enek5130.rs: the exchange with the hidraw device, which is a parameter.
use asense.Result.{Result, ok, err}
use asense.Exec.{Exec, pure, raise, lift, ◌>>=◌, ◌>>◌, handle}
use asense.Base.{
  ltb, ◌==◌, if◌then◌else◌, is_some, length, take, replicate, ℕ, ◌-◌, Bool, true, false, not, ◌&&◌,
  ◌||◌, Option, none, some, List, [], ◌∷◌,
}
use asense.Base.Text.{Bytes}
use asense.Lighting.{
  LightingDevice, LightingRequest, LightingStateStatus, last_applied, LightingError, static,
  breathing, neon, wrong_target, no_target, transport,
}
use asense.Lighting.Enek.{
  report_target_list, report_target_select, report_target_capabilities, target_keyboard,
  target_cover_logo, Report, TargetCapabilities, known_target, supports, device_from_caps,
  lighting_reports, parse_target_list, parse_target_capabilities, validate_request, target_id,
  canonical_request, feature_ioctl,
}

-- `open` for reading and writing, and `ioctl` on the open file: the request, the buffer, and the
-- result, nothing for a negative one, with the buffer as it is left.
pub record Hidraw : Type 1 where
  pub World : Type 0
  pub open_node : Bytes → World → Bool × World
  pub ioctl : Bytes → ℕ → Report → World → Option ℕ × Report × World

unfoldable pub apply_targets : List ℕ
apply_targets = target_keyboard ∷ target_cover_logo ∷ []

abbrev pub member : ℕ → List ℕ → Bool
member x [] = false
member x (y ∷ ys) = x == y || member x ys

-- the buffer of `get_feature`: the report's number, then zeros
abbrev pub feature_buffer : ℕ → ℕ → Report
feature_buffer id len = id ∷ replicate (len - 1) 0

unfoldable pub written : ℕ → Option ℕ → Result LightingError Unit
written len none = err transport
written len (some count) = if count == len then ok tt else err transport

unfoldable pub received : ℕ → Option ℕ → Report → Result LightingError Report
received len none buffer = err transport
received len (some count) buffer =
    if count == 0 || ltb len count then err transport else ok (take count buffer)

module _ (hid : Hidraw) (node : Bytes) where
  open hid use {World, open_node, ioctl}

  unfoldable pub open_controller : Exec World LightingError Unit
  open_controller w =
      let (opened, w') = open_node node w in (if opened then ok tt else err transport, w')

  unfoldable pub set_feature : Report → Exec World LightingError Unit
  unfolding feature_ioctl written
  set_feature report w = elim (feature_ioctl 6 (length report)) [
    | err e ↦ (err e, w)
    | ok request ↦
        let (result, buffer, w') = ioctl node request report w in
        (written (length report) result, w')
  ]

  unfoldable pub get_feature : ℕ → ℕ → Exec World LightingError Report
  unfolding feature_ioctl received
  get_feature len id w = elim (feature_ioctl 7 len) [
    | err e ↦ (err e, w)
    | ok request ↦
        let (result, buffer, w') = ioctl node request (feature_buffer id len) w in
        (received len result buffer, w')
  ]

  unfoldable pub read_target_list : Exec World LightingError (List ℕ)
  unfolding get_feature parse_target_list
  read_target_list = get_feature 11 report_target_list >>= λ report. lift (parse_target_list report)

  unfoldable pub read_target_capabilities : ℕ → Exec World LightingError TargetCapabilities
  unfolding set_feature get_feature parse_target_capabilities
  read_target_capabilities id = do
    set_feature (report_target_select ∷ id ∷ [])
    report ← get_feature 9 report_target_capabilities
    lift (parse_target_capabilities id report)

  unfoldable pub send_reports : List Report → Exec World LightingError Unit
  unfolding set_feature
  send_reports [] = pure tt
  send_reports (report ∷ more) = set_feature report >> send_reports more

  -- from the opening of the device on
  unfoldable pub exchange : ℕ → LightingRequest → Exec World LightingError LightingStateStatus
  unfolding open_controller read_target_list read_target_capabilities send_reports lighting_reports
      canonical_request
  exchange id request = do
    open_controller
    targets ← read_target_list
    if not (member id targets) then raise no_target else (do
      caps ← read_target_capabilities id
      reports ← lift (lighting_reports caps request)
      send_reports reports
      pure (last_applied (canonical_request request)))

  unfoldable pub apply : LightingRequest → Exec World LightingError LightingStateStatus
  unfolding exchange validate_request target_id
  apply request = lift (validate_request request) >> elim (target_id request.target) [
    | none ↦ raise wrong_target
    | some id ↦ exchange id request
  ]

  -- whether one of the three modes is there
  abbrev pub any_mode : TargetCapabilities → Bool
  any_mode caps = supports caps static || supports caps breathing || supports caps neon

  -- the loop of `discover_candidate`: a target that does not answer is left out
  unfoldable pub collect : List ℕ → List ℕ → Exec World ⊥ (List TargetCapabilities)
  unfolding read_target_capabilities supports known_target
  collect targets [] = pure []
  collect targets (id ∷ more) =
      let rest = collect targets more in
      if not (member id targets)
      then rest
      else handle (read_target_capabilities id)
          (λ caps.
            if is_some (known_target caps.target_id) && any_mode caps
            then (rest >>= λ found. pure (caps ∷ found))
            else rest)
          (λ e. rest)

  unfoldable pub devices : List TargetCapabilities → List LightingDevice
  unfolding device_from_caps
  devices [] = []
  devices (caps ∷ more) = elim (device_from_caps caps) [
    | none ↦ devices more
    | some device ↦ device ∷ devices more
  ]

  unfoldable pub discover_candidate :
      Exec World LightingError (List TargetCapabilities × List LightingDevice)
  unfolding open_controller read_target_list collect apply_targets devices
  discover_candidate = do
    open_controller
    targets ← read_target_list
    handle (collect targets apply_targets)
        (λ found. if is_none found then raise no_target else pure (found, devices found))
        (λ e. absurd e)
    where
      is_none : List TargetCapabilities → Bool
      is_none [] = true
      is_none (caps ∷ more) = false
