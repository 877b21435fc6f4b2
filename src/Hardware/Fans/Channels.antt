-- ===== src/Hardware/Fans/Channels.antt =====
-- What the readings of one fan channel and of both say of the fan modes.
use asense.Base.{
  ℕ, ◌≡◌, refl, Bool, some, ◌++◌, ltb, Bool-cases, ◌∙◌, inl, inr, true, false, Option, none, arith,
  ap,
}
use asense.Base.Text.{Bytes, codes, trim}
use asense.Base.Decimal.{parse_uint}
use asense.Result.{Result, ok}
use asense.Exec.{lift}
use asense.Exec.Outcome.{Ensures-cases, Ensures-bind, Ensures, Ensures-mono, Ensures-if}
use asense.Hardware.{FanMode, mode_from_sysfs, HardwareError, mode_as_sysfs}
use asense.Hardware.Sysfs.{Sysfs, join, parse_value, ensure_readback}
use asense.Hardware.Fans.{
  AcerHardware, fan_role, numbered, mode_path, observed, read_optional_fan_mode, read_gaming_wmi,
  read_kernel_pwm, kernel_pwm, acer_gaming_wmi, FanInterface, read_rpm, read_gaming_speed,
  read_backend, read_fan_channel, read_fan_state, read_verified_fan_state, mode_text,
}
use asense.Hardware.Fans.Honest.{Honest, IsQuiet, IsQuiet-bind, parse_value-IsQuiet, IsIn}
use asense.Hardware.Fans.Verified.{
  Confirmed, lifted-Confirmed, read-Confirmed, observed-IsQuiet, before-Confirmed,
  read_optional_fan_mode-Confirmed, read_rpm-IsQuiet, after-Confirmed, mode_text-mode,
}

module _ (sys : Sysfs) (hw : AcerHardware) (honest : Honest sys hw) where
  open sys use {World, read_file, write_file}
  open honest use {mode_of}

  read_kernel_pwm-Confirmed :
      (base : Bytes) (offered : Bool) (c : ℕ)
      → hw.fan_backend ≡ some (kernel_pwm base offered)
      → Confirmed sys hw honest (λ p x. p.0 ≡ some x) c (read_kernel_pwm sys hw base c)
  unfolding read_kernel_pwm mode_path
  read_kernel_pwm-Confirmed base offered c e =
      let path = join base (numbered "pwm" c "_enable") in
      let at : mode_path hw.fan_backend c ≡ ok path = ap (λ b. mode_path b c) e in
      let raw_run =
        observed sys hw (parse_value sys (parse_uint 255) (join base (numbered "pwm" c ""))) in
      before-Confirmed sys hw honest _ _ c (read_optional_fan_mode sys hw path) _
        (read_optional_fan_mode-Confirmed sys hw honest c path at)
        (λ m.
          IsQuiet-bind sys hw honest raw_run _
            (observed-IsQuiet sys hw honest _
              (parse_value-IsQuiet sys hw honest (parse_uint 255) _))
            (λ raw w n. refl))
        λ m w.
          Ensures-bind (λ raw w'. Unit {0}) _ _ raw_run _ w
            (Ensures-cases _ _ raw_run w (λ a k. tt) (λ x k. tt)) (λ raw w1 u x h. h)

  read_gaming_speed-IsQuiet :
      (path : Bytes) (offered : Bool) (m : FanMode)
      → IsQuiet sys hw honest (read_gaming_speed sys hw path offered m)
  unfolding read_gaming_speed
  read_gaming_speed-IsQuiet path false m w = λ n. refl
  read_gaming_speed-IsQuiet path true m w =
      IsQuiet-bind sys hw honest (parse_value sys (parse_uint 255) path) _
        (parse_value-IsQuiet sys hw honest (parse_uint 255) path)
        (λ value w1. elim (Bool-cases (ltb 100 value)) [
          | inl e ↦ rw e (λ n. refl)
          | inr e ↦ rw e (λ n. refl)
        ])
        w

  read_gaming_speed-mode :
      (path : Bytes) (offered : Bool) (m : FanMode) (w : World)
      → Ensures
          (λ p w'. p.0 ≡ some m)
          (λ e w'. Unit {0})
          (read_gaming_speed sys hw path offered m)
          w
  unfolding read_gaming_speed
  read_gaming_speed-mode path false m w = refl
  read_gaming_speed-mode path true m w =
      Ensures-bind (λ value w'. Unit {0}) _ _ (parse_value sys (parse_uint 255) path) _ w
        (Ensures-cases _ _ (parse_value sys (parse_uint 255) path) w (λ a e. tt) (λ x e. tt))
        λ value w1 u. Ensures-if _ _ (ltb 100 value) _ _ w1 (λ e. tt) (λ e. refl)

  read_gaming_wmi-Confirmed :
      (base : Bytes) (offered : Bool) (c : ℕ)
      → hw.fan_backend ≡ some (acer_gaming_wmi base offered)
      → Confirmed sys hw honest (λ p x. p.0 ≡ some x) c (read_gaming_wmi sys hw base offered c)
  unfolding read_gaming_wmi mode_path
  read_gaming_wmi-Confirmed base offered c e =
      lifted-Confirmed sys hw honest _ c (fan_role c) _ λ role r.
        let path = join base (role ++ codes "_mode") in
        let speed = join base (role ++ codes "_speed") in
        let at : mode_path hw.fan_backend c ≡ ok path =
          ap (λ b. mode_path b c) e ∙ rw (r, mode_path) refl in
        read-Confirmed sys hw honest _ c path _ at
          (λ value.
            IsQuiet-bind sys hw honest (lift (mode_from_sysfs value)) _ (λ w n. refl)
              (read_gaming_speed-IsQuiet speed offered))
          λ value w.
            Ensures-bind (λ m w'. mode_from_sysfs value ≡ ok m) _ _ (lift (mode_from_sysfs value)) _
              w (Ensures-cases _ _ (lift (mode_from_sysfs value)) w (λ m k. k) (λ x k. tt))
              λ m w1 k.
                Ensures-mono _ _ _ _ (read_gaming_speed sys hw speed offered m) w1
                  (read_gaming_speed-mode speed offered m w1)
                  (λ p w2 q x h. k ∙ ground (arith, q, h)) (λ x w2 h. tt)

  read_backend-Confirmed :
      (b : Option FanInterface) (c : ℕ)
      → hw.fan_backend ≡ b
      → Confirmed sys hw honest (λ p x. p.0 ≡ some x) c (read_backend sys hw b c)
  unfolding read_backend
  read_backend-Confirmed none c e = λ w. (λ n. refl, λ x h. ground arith)
  read_backend-Confirmed (some (kernel_pwm base m)) c e = read_kernel_pwm-Confirmed base m c e
  read_backend-Confirmed (some (acer_gaming_wmi base m)) c e = read_gaming_wmi-Confirmed base m c e

  read_fan_channel-Confirmed :
      (c : ℕ) → Confirmed sys hw honest (λ st x. st.mode ≡ some x) c (read_fan_channel sys hw c)
  unfolding read_fan_channel
  read_fan_channel-Confirmed c =
      after-Confirmed sys hw honest _ c (observed sys hw (read_rpm sys hw c)) _
        (observed-IsQuiet sys hw honest _ (read_rpm-IsQuiet sys hw honest c))
        λ rpm.
          before-Confirmed sys hw honest _ _ c (read_backend sys hw hw.fan_backend c) _
            (read_backend-Confirmed hw.fan_backend c refl) (λ p w n. refl) (λ p w x h. h)

  -- A state that was read and verified: both modes read as expected, and the report says so.
  pub read_verified_fan_state-IsIn :
      (expected : FanMode) (w : World)
      → Ensures
          (λ st w'.
            (st.cpu.mode ≡ some expected)
            × (st.gpu.mode ≡ some expected)
            × IsIn sys hw honest expected 1 w'
            × IsIn sys hw honest expected 2 w')
          (λ e w'. Unit {0})
          (read_verified_fan_state sys hw expected)
          w
  unfolding read_verified_fan_state read_fan_state
  read_verified_fan_state-IsIn expected w =
      Ensures-bind _ _ _ (read_fan_state sys hw) _ w both λ st w1 (cpu, gpu).
        Ensures-bind (λ u w'. (w' ≡ w1) × (st.cpu.mode ≡ some expected)) _ _
          (lift (ensure_readback (mode_as_sysfs expected) (mode_text st.cpu.mode))) _ w1
          (checked st.cpu.mode w1)
          λ u w2 (e2, cpu_mode).
            Ensures-bind (λ u w'. (w' ≡ w2) × (st.gpu.mode ≡ some expected)) _ _
              (lift (ensure_readback (mode_as_sysfs expected) (mode_text st.gpu.mode))) _ w2
              (checked st.gpu.mode w2)
              λ v w3 (e3, gpu_mode).
                rw (e3, e2) (cpu_mode, gpu_mode, cpu expected cpu_mode, gpu expected gpu_mode)
    where
      checked :
          (o : Option FanMode) (w : World)
          → Ensures
              (λ u w'. (w' ≡ w) × (o ≡ some expected))
              (λ e w'. Unit {0})
              (lift (ensure_readback (mode_as_sysfs expected) (mode_text o)))
              w
      checked o w =
          Ensures-cases _ _ (lift (ensure_readback (mode_as_sysfs expected) (mode_text o))) w
            (λ u e. (refl, mode_text-mode expected o e)) (λ x e. tt)

      read_mode : Bytes → Result HardwareError FanMode
      read_mode text = mode_from_sysfs (trim text)

      both :
          Ensures
            (λ st w'.
              ((x : FanMode) → st.cpu.mode ≡ some x → IsIn sys hw honest x 1 w')
              × ((x : FanMode) → st.gpu.mode ≡ some x → IsIn sys hw honest x 2 w'))
            (λ e w'. Unit {0})
            (read_fan_state sys hw)
            w
      both =
          Ensures-bind _ _ _ (read_fan_channel sys hw 1) _ w
            (Ensures-mono _ _ _ _ (read_fan_channel sys hw 1) w (read_fan_channel-Confirmed 1 w)
              (λ a w' h. h) (λ x w' h. tt))
            λ cpu w1 (same1, first).
              Ensures-bind _ _ _ (read_fan_channel sys hw 2) _ w1
                (Ensures-mono _ _ _ _ (read_fan_channel sys hw 2) w1
                  (read_fan_channel-Confirmed 2 w1) (λ a w' h. h) (λ x w' h. tt))
                λ gpu w2 (same2, second). (
                  λ x h. ap read_mode (same2 1 ∙ same1 1) ∙ first x h,
                  λ x h. ap read_mode (same2 2) ∙ second x h,
                )
