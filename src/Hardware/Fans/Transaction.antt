-- ===== src/Hardware/Fans/Transaction.antt =====
-- How a fan transaction ends: the fan modes it leaves behind, on success and with each error.
use asense.Base.{
  Option-cases, ℕ, ◌≡◌, refl, ap, ◌∙◌, inl, inr, Bool, some, ◌==◌, if◌then◌else◌, Bool-cases, zero,
  suc, true, false, ◌&&◌, ◌++◌,
}
use asense.Base.Text.{Bytes, trim, codes}
use asense.Base.Decimal.{decimal}
use asense.Result.{Result, Result-cases}
use asense.Exec.{◌>>◌, Exec, pure}
use asense.Exec.Outcome.{
  Ensures, Ensures-cases, Ensures-mono, Ensures-if, Ensures-bind, Ensures-handle,
}
use asense.Hardware.{
  HardwareError, mutation_rolled_back, mutation_failsafe_maximum, mutation_recovery_failed, FanMode,
  mode_from_sysfs, FanSetting, maximum, automatic, is_manual,
}
use asense.Hardware.Sysfs.{
  Sysfs, find_temperature, join, to_ascii_lowercase, contains, parse_i64, parse_value,
  acer_temperature_path, read_watchdog_temperature, channel_watched, manual_watchdog_available,
}
use asense.Hardware.Fans.{
  FanState, AcerHardware, expected_mode, first_error, write_mode, verify_mode, force_mode_unchecked,
  read_verified_fan_state, mutate, recover, apply_checked, watched, apply_fan_setting, FanInterface,
  is_manual, offers_manual, apply_watched, apply_through,
}
use asense.Hardware.Fans.Honest.{Honest, IsIn, Same, IsQuiet, IsQuiet-bind, parse_value-IsQuiet}
use asense.Hardware.Fans.Verified.{verify_mode-Confirmed}
use asense.Hardware.Fans.Channels.{read_verified_fan_state-IsIn}

module _ (sys : Sysfs) (hw : AcerHardware) (honest : Honest sys hw) where
  open sys use {World, read_file, write_file}
  open honest use {mode_of, read_keeps}

  -- both fans read as being in the mode
  abbrev pub Both : FanMode → World → Type 0
  Both m w = IsIn sys hw honest m 1 w × IsIn sys hw honest m 2 w

  verify-Both :
      (m : FanMode) (w : World)
      → Ensures
          (λ u w'. Both m w')
          (λ e w'. Unit {0})
          (verify_mode sys hw 1 m >> verify_mode sys hw 2 m)
          w
  verify-Both m w =
      Ensures-bind _ _ _ (verify_mode sys hw 1 m) _ w
        (Ensures-mono _ _ _ _ (verify_mode sys hw 1 m) w (verify_mode-Confirmed sys hw honest 1 m w)
          (λ u w' h. h) (λ x w' h. tt))
        λ u w1 (same1, first).
          Ensures-mono _ _ _ _ (verify_mode sys hw 2 m) w1
            (verify_mode-Confirmed sys hw honest 2 m w1)
            (λ u w2 (same2, second). (
              ap read_mode (same2 1 ∙ same1 1) ∙ first m refl,
              ap read_mode (same2 2) ∙ second m refl,
            ))
            (λ x w2 h. tt)
    where
      read_mode : Bytes → Result HardwareError FanMode
      read_mode text = mode_from_sysfs (trim text)

  force_mode_unchecked-Both :
      (m : FanMode) (w : World)
      → Ensures (λ u w'. Both m w') (λ e w'. Unit {0}) (force_mode_unchecked sys hw m) w
  unfolding force_mode_unchecked
  force_mode_unchecked-Both m w =
      Ensures-bind (λ u w'. Unit {0}) _ _ (λ w. (errors w, after w)) _ w
        (Ensures-cases _ _ (λ w. (errors w, after w)) w (λ u e. tt) (λ x e. tt))
        λ u w1 k. verify-Both m w1
    where
      after : World → World
      after w = (write_mode sys hw 2 m (write_mode sys hw 1 m w).1).1

      errors : World → Result HardwareError Unit
      errors w =
          first_error (write_mode sys hw 1 m w).0
            (write_mode sys hw 2 m (write_mode sys hw 1 m w).1).0

  -- The modes with each error: those that name a recovery have its mode, those that are found
  -- before the first write have the modes of before, and a failed recovery says nothing.
  abbrev pub Left : World → HardwareError → World → Type 0
  Left w (mutation_rolled_back cause) w' = Both automatic w'
  Left w (mutation_failsafe_maximum cause no_automatic) w' = Both maximum w'
  Left w (mutation_recovery_failed cause no_automatic no_maximum) w' = Unit
  Left w _ w' = Same sys hw honest w w'

  -- the setting's mode on both fans, and the report says so
  abbrev pub Applied : FanSetting → FanState → World → Type 0
  Applied setting st w =
      (st.cpu.mode ≡ some (expected_mode setting))
      × (st.gpu.mode ≡ some (expected_mode setting))
      × IsIn sys hw honest (expected_mode setting) 1 w
      × IsIn sys hw honest (expected_mode setting) 2 w

  recover-Left :
      (P : FanState → World → Type 0) (w0 : World) (cause : HardwareError) (w : World)
      → Ensures P (Left w0) (recover sys hw cause) w
  unfolding recover
  recover-Left P w0 cause w =
      Ensures-handle _ _ _ _ (force_mode_unchecked sys hw automatic) _ _ w
        (force_mode_unchecked-Both automatic w) (λ u w1 both. both)
        λ x w1 k.
          Ensures-handle _ _ _ _ (force_mode_unchecked sys hw maximum) _ _ w1
            (force_mode_unchecked-Both maximum w1) (λ u w2 both. both) (λ y w2 h. tt)

  apply_checked-Left :
      (setting : FanSetting) (w0 w : World)
      → Ensures (Applied setting) (Left w0) (apply_checked sys hw setting) w
  unfolding apply_checked
  apply_checked-Left setting w0 w =
      Ensures-handle _ _ _ _
        (mutate sys hw setting >> read_verified_fan_state sys hw (expected_mode setting)) _ _ w
        (Ensures-bind (λ u w'. Unit {0}) _ _ (mutate sys hw setting) _ w
          (Ensures-cases _ _ (mutate sys hw setting) w (λ u e. tt) (λ x e. tt))
          (λ u w1 k. read_verified_fan_state-IsIn sys hw honest (expected_mode setting) w1))
        (λ st w1 h. h) (λ cause w1 k. recover-Left (Applied setting) w0 cause w1)

  find_temperature-IsQuiet :
      (left index : ℕ) (base role otherwise : Bytes)
      → IsQuiet sys hw honest (find_temperature sys left index base role otherwise)
  unfolding find_temperature
  find_temperature-IsQuiet zero index base role otherwise w = λ n. refl
  find_temperature-IsQuiet (suc left) index base role otherwise w =
      let rest = find_temperature-IsQuiet left (suc index) base role otherwise w1 in
      elim (Result-cases (read_file label w).0) [
        | inr (x, e) ↦ rw e (λ n. rest n ∙ read_keeps label w n)
        | inl (text, e) ↦ rw e (λ n. chosen rest text n ∙ read_keeps label w n)
      ]
    where
      label : Bytes
      label = join base (codes "temp" ++ decimal index ++ codes "_label")

      input : Bytes
      input = join base (codes "temp" ++ decimal index ++ codes "_input")

      w1 : World
      w1 = (read_file label w).1

      chosen :
          Same sys hw honest w1 (find_temperature sys left (suc index) base role otherwise w1).1
          → (text : Bytes)
          → Same sys hw honest w1
              (if sys.is_file input w1 && contains role (to_ascii_lowercase (trim text))
                then pure {E = ⊥} input w1
                else find_temperature sys left (suc index) base role otherwise w1).1
      chosen rest text =
          elim (Bool-cases
            (sys.is_file input w1 && contains role (to_ascii_lowercase (trim text)))) [
              | inl e ↦ rw e (λ n. refl)
              | inr e ↦ rw e rest
            ]

  IsQuiet-if :
      {E A : Type 0} (b : Bool) (m n : Exec World E A)
      → IsQuiet sys hw honest m
      → IsQuiet sys hw honest n
      → IsQuiet sys hw honest (if b then m else n)
  IsQuiet-if true m n p q = p
  IsQuiet-if false m n p q = q

  read_watchdog_temperature-IsQuiet :
      (path : Bytes) → IsQuiet sys hw honest (read_watchdog_temperature sys path)
  unfolding read_watchdog_temperature
  read_watchdog_temperature-IsQuiet path =
      IsQuiet-bind sys hw honest (parse_value sys parse_i64 path) _
        (parse_value-IsQuiet sys hw honest parse_i64 path)
        λ value. IsQuiet-if _ _ _ (λ w n. refl) (λ w n. refl)

  channel_watched-IsQuiet :
      (base : Bytes) (c : ℕ) → IsQuiet sys hw honest (channel_watched sys base c)
  unfolding channel_watched acer_temperature_path
  channel_watched-IsQuiet base c =
      IsQuiet-bind sys hw honest (acer_temperature_path sys base c) _
        (IsQuiet-if (c == 1) _ _ (find_temperature-IsQuiet 8 1 base _ _)
          (IsQuiet-if (c == 2) _ _ (find_temperature-IsQuiet 8 1 base _ _) (λ w n. refl)))
        λ path w. elim (Result-cases (read_watchdog_temperature sys path w).0) [
          | inl (value, e) ↦ rw e (read_watchdog_temperature-IsQuiet path w)
          | inr (x, e) ↦ rw e (read_watchdog_temperature-IsQuiet path w)
        ]

  watched-IsQuiet : IsQuiet sys hw honest (watched sys hw)
  unfolding watched manual_watchdog_available
  watched-IsQuiet w = elim (Option-cases hw.hwmon) [
    | inl e ↦ rw (e, watched) (λ n. refl)
    | inr (base, e) ↦
        rw (e, watched)
          (IsQuiet-bind sys hw honest (channel_watched sys base 1) _
            (channel_watched-IsQuiet base 1)
            (λ cpu. IsQuiet-if cpu _ _ (channel_watched-IsQuiet base 2) (λ w n. refl)) w)
  ]

  apply_through-Left :
      (backend : FanInterface) (setting : FanSetting) (w : World)
      → Ensures (Applied setting) (Left w) (apply_through sys hw backend setting) w
  unfolding apply_through apply_watched
  apply_through-Left backend setting w =
      Ensures-if _ _ (is_manual setting) _ _ w
        (λ e.
          Ensures-if _ _ (offers_manual backend) _ _ w
            (λ offered.
              Ensures-handle (λ b w'. Same sys hw honest w w') (λ x w'. Unit {0}) _ _
                (watched sys hw) _ _ w
                (Ensures-cases _ _ (watched sys hw) w (λ b k. watched-IsQuiet w) (λ x k. tt))
                (λ available w1 same.
                  Ensures-if _ _ available _ _ w1 (λ k. apply_checked-Left setting w w1)
                    (λ k. same))
                (λ x. elim x [ ]))
            (λ withheld n. refl))
        (λ e. apply_checked-Left setting w w)

  -- For fans whose mode attributes read honestly, whatever a write does: a setting that is applied
  -- has left both fans in its mode and reports so; an error that names a recovery has left both fans
  -- in that recovery's mode, Automatic or Maximum; any other error but a failed recovery has left
  -- the modes as they were.
  pub apply_fan_setting-outcome :
      (setting : FanSetting) (w : World)
      → Ensures (Applied setting) (Left w) (apply_fan_setting sys hw setting) w
  unfolding apply_fan_setting
  apply_fan_setting-outcome setting w =
      Ensures-if _ _ hw.acer _ _ w
        (λ e. elim (Option-cases hw.fan_backend) [
          | inl k ↦ rw k (λ n. refl)
          | inr (b, k) ↦ rw k (apply_through-Left b setting w)
        ])
        (λ e n. refl)
