-- ===== src/Hardware/Examples.antt =====
-- The sysfs spellings at concrete values.
use asense.Base.{◌≡◌, [], ◌∷◌, ◌++◌, refl, Bool, true, false, none, some}
use asense.Result.{ok, Result, err}
use asense.Base.Text.{Bytes, codes, trim, fields}
use asense.Hardware.Sysfs.{ensure_readback, read_trimmed, write_existing}
use asense.Exec.Outcome.{Ensures}
use asense.Hardware.Memory.{memory_files, memory_readable}
use asense.Hardware.Profile.{
  is_token, profile_interface, current_profile, write_profile, set_profile_raw, set_profile,
  set_profile-current_profile,
}
use asense.Hardware.Fans.{AcerHardware}
use asense.Hardware.{
  as_sysfs, from_sysfs, mode_as_sysfs, mode_from_sysfs, from_sysfs-as_sysfs,
  mode_from_sysfs-mode_as_sysfs, turbo, manual, eco,
}

from_sysfs-as_sysfs_example :
    (from_sysfs (as_sysfs turbo) ≡ ok turbo) × (from_sysfs (as_sysfs turbo ++ 10 ∷ []) ≡ ok turbo)
from_sysfs-as_sysfs_example = from_sysfs-as_sysfs turbo

mode_from_sysfs-mode_as_sysfs_example :
    (mode_from_sysfs (mode_as_sysfs manual) ≡ ok manual)
    × (mode_from_sysfs (mode_as_sysfs manual ++ 10 ∷ []) ≡ ok manual)
mode_from_sysfs-mode_as_sysfs_example = mode_from_sysfs-mode_as_sysfs manual

abbrev nitro : AcerHardware
nitro = record {
  acer = true;
  hwmon = none;
  profile = some (record { profile_path = codes "profile"; choices_path = codes "choices" });
  fan_backend = none;
}

abbrev offering : Bytes → Bytes
offering path = codes "quiet balanced performance\n"

abbrev succeeds {ℓ} : {E A : Type ℓ} → Result E A → Bool
succeeds (ok a) = true
succeeds (err e) = false

turbo_set :
    (succeeds (set_profile memory_files nitro turbo offering).0 ≡ true)
    × (succeeds (set_profile memory_files nitro eco offering).0 ≡ false)
unfolding set_profile set_profile_raw is_token as_sysfs profile_interface read_trimmed write_profile
    write_existing ensure_readback trim fields from_sysfs
turbo_set = (refl, refl)

set_profile-current_profile_example :
    Ensures
      (λ u w'.
        Ensures (λ q w''. q ≡ turbo) (λ e w''. Unit {0}) (current_profile memory_files nitro) w')
      (λ e w'. Unit {0})
      (set_profile memory_files nitro turbo)
      offering
set_profile-current_profile_example =
    set_profile-current_profile memory_files nitro memory_readable turbo offering
