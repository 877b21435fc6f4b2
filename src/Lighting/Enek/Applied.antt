-- ===== src/Lighting/Enek/Applied.antt =====
-- src/lighting/enek5130.rs: what a request that was applied has done.
use asense.Result.{ok}
use asense.Exec.{Exec}
use asense.Base.{
  ℕ, ◌≤◌, ◌<◌, ◌≡◌, some, List, [], ◌∷◌, arith, leb, is_some, length, Bool, true, ◌&&◌,
}
use asense.Base.Text.{Bytes}
use asense.Lighting.{LightingRequest}
use asense.Lighting.Enek.{
  Report, TargetCapabilities, lighting_reports, parse_target_capabilities, target_id,
}
use asense.Lighting.Enek.Device.{
  Hidraw, send_reports, member, open_controller, read_target_list, read_target_capabilities,
}
use asense.Lighting.Enek.Painting.{Painted, paint, asked}

-- what the loops of the controller rely on
pub parse_target_capabilities-bounds :
    (expected : ℕ) (report : Report) (caps : TargetCapabilities)
    → parse_target_capabilities expected report ≡ ok caps
    → (caps.target_id ≡ expected) × (1 ≤ caps.zone_count) × (caps.zone_count ≤ 16)
unfolding parse_target_capabilities
parse_target_capabilities-bounds expected [] caps h = ground (arith, h)
parse_target_capabilities-bounds expected (a ∷ []) caps h = ground (arith, h)
parse_target_capabilities-bounds expected (a ∷ b ∷ []) caps h = ground (arith, h)
parse_target_capabilities-bounds expected (a ∷ b ∷ c ∷ []) caps h = ground (arith, h)
parse_target_capabilities-bounds expected (a ∷ b ∷ c ∷ d ∷ []) caps h = ground (arith, h)
parse_target_capabilities-bounds expected (a ∷ b ∷ c ∷ d ∷ e ∷ []) caps h = ground (arith, h)
parse_target_capabilities-bounds expected (a ∷ b ∷ c ∷ d ∷ e ∷ f ∷ more) caps h = ground (arith, h)

module _ (hid : Hidraw) (node : Bytes) where
  open hid use {World}

  -- From the one world to the other: the device was opened, its list of targets read, which has the
  -- request's, the capabilities of that target read, with a zone at least, and with them every report
  -- of the request accepted, which together make each zone of the target show what is asked.
  unfoldable pub Sent : LightingRequest → World → World → Type 0
  Sent request w w' =
      (targets : List ℕ) × (caps : TargetCapabilities) × (reports : List Report) × (w1 : World)
      × (w2 : World) × (w3 : World) × (open_controller hid node w ≡ (ok tt, w1))
      × (read_target_list hid node w1 ≡ (ok targets, w2))
      × (member caps.target_id targets ≡ true)
      × (target_id request.target ≡ some caps.target_id)
      × (read_target_capabilities hid node caps.target_id w2 ≡ (ok caps, w3))
      × (1 ≤ caps.zone_count)
      × (lighting_reports caps request ≡ ok reports)
      × (send_reports hid node reports w3 ≡ (ok tt, w'))
      × ((before : ℕ → Painted) (k : ℕ)
          → k < caps.zone_count
          → paint caps.target_id reports before k ≡ asked request request.mode k)

  -- the run that read the capabilities, with what they are bound by
  abbrev Described : ℕ → World → TargetCapabilities → World → Type 0
  Described id w caps w' =
      (read_target_capabilities hid node id w ≡ (ok caps, w'))
      × (caps.target_id ≡ id)
      × (1 ≤ caps.zone_count)
      × (caps.zone_count ≤ 16)

  -- what the controller can be asked for without a look at it
  unfoldable pub acceptable : LightingRequest → Bool
  acceptable request =
      leb request.brightness 100
      && leb request.speed 9
      && leb (length request.zone_colors) 16
      && is_some (target_id request.target)
