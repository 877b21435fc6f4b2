-- ===== src/Lighting/Enek/Canonical.antt =====
-- src/lighting/enek5130.rs: the request that is remembered, the requests that are refused before the
-- device is opened, and the bounds of what the device answers.
use asense.Result.{ok}
use asense.Base.{ℕ, ◌+◌, ◌*◌, ◌/◌, ◌%◌, ◌^◌, ◌≤◌, ◌<◌, ◌≡◌, refl, arith}
use asense.Lighting.{LightingMode, LightingRequest, off, static, breathing, neon}
use asense.Lighting.Enek.{
  TargetCapabilities, mode_reports, lighting_reports, canonical_mode, canonical_request,
  feature_ioctl,
}

mode_reports-canonical_mode :
    (caps : TargetCapabilities) (mode : LightingMode) (request : LightingRequest)
    → mode_reports caps mode (canonical_mode mode request) ≡ mode_reports caps mode request
unfolding mode_reports canonical_mode
mode_reports-canonical_mode caps off request = refl
mode_reports-canonical_mode caps static request = refl
mode_reports-canonical_mode caps breathing request = refl
mode_reports-canonical_mode caps neon request = refl

canonical_mode-target :
    (mode : LightingMode) (request : LightingRequest)
    → ((canonical_mode mode request).target ≡ request.target)
      × ((canonical_mode mode request).mode ≡ mode)
unfolding canonical_mode
canonical_mode-target off request = (refl, refl)
canonical_mode-target static request = (refl, refl)
canonical_mode-target breathing request = (refl, refl)
canonical_mode-target neon request = (refl, refl)

canonical_mode-canonical_mode :
    (mode : LightingMode) (request : LightingRequest)
    → canonical_mode mode (canonical_mode mode request) ≡ canonical_mode mode request
unfolding canonical_mode
canonical_mode-canonical_mode off request = refl
canonical_mode-canonical_mode static request = refl
canonical_mode-canonical_mode breathing request = refl
canonical_mode-canonical_mode neon request = refl

-- The request that is remembered gives the same reports as the one that was applied, for every target,
-- and remembering it again changes nothing.
pub canonical_request-equivalent :
    (caps : TargetCapabilities) (request : LightingRequest)
    → (lighting_reports caps (canonical_request request) ≡ lighting_reports caps request)
      × (canonical_request (canonical_request request) ≡ canonical_request request)
unfolding lighting_reports canonical_request
canonical_request-equivalent caps request =
    let (target, mode) = canonical_mode-target request.mode request in
    (
      rw (target, mode, mode_reports-canonical_mode caps request.mode request) refl,
      rw mode (canonical_mode-canonical_mode request.mode request),
    )

-- The ioctl number of a report of 1 to 16383 bytes and an operation of a byte: the direction, the
-- length, the letter and the operation can be read off it, and it has 32 bits.
pub feature_ioctl-fields :
    (operation len request : ℕ)
    → operation ≤ 255
    → feature_ioctl operation len ≡ ok request
    → (request < 2 ^ 32)
      × (request / 2 ^ 30 ≡ 3)
      × (request / 2 ^ 16 % 2 ^ 14 ≡ len)
      × (request / 2 ^ 8 % 2 ^ 8 ≡ 72)
      × (request % 2 ^ 8 ≡ operation)
unfolding feature_ioctl
feature_ioctl-fields operation len request small h =
    let fits : len ≤ 16383 = ground (arith, h) in
    let value : request ≡ 3 * 1073741824 + len * 65536 + 72 * 256 + operation = ground (arith, h) in
    rw value (omega arith, omega arith, omega arith, omega arith, omega arith)
