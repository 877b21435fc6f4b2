-- ===== src/Lighting/Enek/Discovery.antt =====
-- src/lighting/enek5130.rs: which hidraw devices are the controller, and which of them answers.
use asense.Exec.{Exec, pure, raise, handle}
use asense.Base.{◌==◌, ℕ, Bool, false, ◌&&◌, Option, none, some, List, [], ◌∷◌}
use asense.Base.Text.{Bytes, codes, trim, strip_prefix, split, lines}
use asense.Base.Hex.{parse_hex}
use asense.Lighting.{LightingDevice, LightingError, unavailable, no_target}
use asense.Lighting.Enek.{TargetCapabilities}
use asense.Lighting.Enek.Device.{Hidraw, discover_candidate}

abbrev parses_to : Bytes → ℕ → Bool
parses_to text value = elim (parse_hex 4294967295 text) [ none ↦ false | some n ↦ n == value ]

-- the bus I2C, the vendor and the product
unfoldable pub is_identity : List Bytes → Option Bool
is_identity (bus ∷ vendor ∷ product ∷ []) =
    some (parses_to bus 24 && parses_to vendor 3314 && parses_to product 20784)
is_identity _ = none

-- the loop of `matches_uevent`: a second identity and one without three fields end it
unfoldable pub scan_identity : List Bytes → Option Bool → Bool
unfolding is_identity trim split
scan_identity [] none = false
scan_identity [] (some found) = found
scan_identity (line ∷ more) identity =
    let rest = scan_identity more identity in
    elim (strip_prefix (codes "HID_ID=") line) [
      | none ↦ rest
      | some id ↦ elim identity [
        | some found ↦ false
        | none ↦ elim (is_identity (split 58 (trim id))) [
          | none ↦ false
          | some found ↦ scan_identity more (some found)
        ]
      ]
    ]

unfoldable pub matches_uevent : Bytes → Bool
unfolding scan_identity lines
matches_uevent uevent = scan_identity (lines uevent) none

pub record Enek5130 : Type 0 where
  pub node : Bytes
  pub capabilities : List TargetCapabilities
  pub devices_found : List LightingDevice

module _ (hid : Hidraw) where
  open hid use {World}

  -- the loop of `discover_at`: the first node that answers, else the last error
  unfoldable pub first_answer : List Bytes → LightingError → Exec World LightingError Enek5130
  unfolding discover_candidate
  first_answer [] last = raise last
  first_answer (node ∷ more) last =
      handle (discover_candidate hid node)
        (λ (caps, found). pure (record { node = node; capabilities = caps; devices_found = found }))
        (λ error. first_answer more error)

  -- `discover_at` with the sorted nodes of `controller_candidates`
  unfoldable pub discover_at : List Bytes → Exec World LightingError Enek5130
  unfolding first_answer
  discover_at [] = raise unavailable
  discover_at (node ∷ more) = first_answer (node ∷ more) no_target
