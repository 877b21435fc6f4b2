-- ===== src/Platform/State/Readable.antt =====
-- src/platform.rs: a state that the daemon reads is one that the client can read.
use asense.Base.{
  Option-cases, Bool-cases, ltb, ℕ, ◌+◌, ◌≤◌, ◌≡◌, refl, subst, inl, inr, Option, some, List, [],
  ◌∷◌, arith,
}
use asense.Base.Text.{Bytes, codes, split}
use asense.Base.Hex.{parse_color}
use asense.Base.HexRange.{parse_color-IsByteColor}
use asense.Base.Decimal.{parse_uint}
use asense.Result.{Result, ok, err, Result-cases, ok_injective}
use asense.Exec.{lift, pure, ◌>>=◌}
use asense.Exec.Outcome.{Settles, Ensures, Ensures-bind}
use asense.Hardware.Sysfs.{Sysfs}
use asense.Platform.{PlatformError, RearLogoState, logo_fields, parse_logo, parse_bool}
use asense.Platform.Controls.{
  PlatformControls, PlatformState, isolate_getter_failure, attribute_path, read_optional,
  read_optional_bool, read_optional_usb, read_optional_logo, read_text, read_state,
}
use asense.Platform.State.{encode_state, parse_state}
use asense.Platform.State.RoundTrip.{IsLogo, parse_state-encode_state}

logo_fields-IsLogo :
    (pieces : List Bytes) (logo : RearLogoState) → logo_fields pieces ≡ ok logo → IsLogo (some logo)
unfolding logo_fields
logo_fields-IsLogo [] logo h = ground (arith, h)
logo_fields-IsLogo (a ∷ []) logo h = ground (arith, h)
logo_fields-IsLogo (a ∷ b ∷ []) logo h = ground (arith, h)
logo_fields-IsLogo (color ∷ brightness ∷ enabled ∷ []) logo h =
    elim (Option-cases (parse_color color)) [
      | inl e ↦ ground (arith, h, e)
      | inr ((red, green, blue), e) ↦ elim (Option-cases (parse_uint 255 brightness)) [
        | inl f ↦ ground (arith, h, e, f)
        | inr (level, f) ↦ elim (Bool-cases (ltb 100 level)) [
          | inl g ↦ ground (arith, h, e, f, g)
          | inr g ↦ elim (Result-cases (parse_bool enabled)) [
            | inl (on, k) ↦
                let channels = parse_color-IsByteColor color (red, green, blue) e in
                let whole : ok (record {
                  enabled = on;
                  brightness = level;
                  red = red;
                  green = green;
                  blue = blue;
                })
                    ≡ ok logo =
                  rw (e, f, g, k, logo_fields) at h in
                subst (λ l. IsLogo (some l)) (ok_injective whole) (channels, ground (arith, g))
            | inr (x, k) ↦ ground (arith, h, e, f, g, k)
          ]
        ]
      ]
    ]
logo_fields-IsLogo (a ∷ b ∷ c ∷ d ∷ more) logo h = ground (arith, h)

isolate_mask :
    {T : Type 0} (r : Result PlatformError (Option T)) (bit mask top : ℕ)
    → mask ≤ top
    → (isolate_getter_failure r bit mask).1 ≤ top + bit
isolate_mask (ok value) bit mask top h = omega arith
isolate_mask (err e) bit mask top h = ground (arith, h)

module _ (sys : Sysfs) (controls : PlatformControls) where
  open sys use {World, read_file}

  LogoIs : Option RearLogoState → World → Type 0
  LogoIs value w = IsLogo value

  Fails : PlatformError → World → Type 0
  Fails e w = Unit

  lift-LogoIs :
      (r : Result PlatformError RearLogoState) (w : World)
      → ((logo : RearLogoState) → r ≡ ok logo → IsLogo (some logo))
      → Ensures LogoIs Fails (lift r >>= λ value. pure (some value)) w
  unfolding LogoIs Fails
  lift-LogoIs (ok logo) w h = h logo refl
  lift-LogoIs (err x) w h = tt

  parse_logo-LogoIs :
      (text : Bytes) (w : World)
      → Ensures LogoIs Fails (lift (parse_logo text) >>= λ value. pure (some value)) w
  unfolding parse_logo
  parse_logo-LogoIs text w = lift-LogoIs (parse_logo text) w (logo_fields-IsLogo (split 44 text))

  Anything : Bytes → World → Type 0
  Anything text w = Unit

  read_text-Anything :
      (path : Bytes) (w : World) → Ensures Anything Fails (read_text sys controls path) w
  unfolding read_text Anything Fails
  read_text-Anything path w = any (read_text sys controls path w)
    where
      any : (p : Result PlatformError Bytes × World) → Settles Anything Fails p.0 p.1
      any (ok text, w') = tt
      any (err e, w') = tt

  read_optional_logo-LogoIs : (w : World) → Ensures LogoIs Fails (read_optional_logo sys controls) w
  unfolding read_optional_logo read_optional LogoIs
  read_optional_logo-LogoIs w =
      elim (Option-cases (attribute_path sys controls (codes "rear_logo") w)) [
        | inl e ↦ rw (e, read_optional) tt
        | inr (path, e) ↦
            rw (e, read_optional)
              (Ensures-bind Anything Fails LogoIs (read_text sys controls path)
                (λ text. lift (parse_logo text) >>= λ value. pure (some value)) w
                (read_text-Anything path w) (λ text w' _. parse_logo-LogoIs text w'))
      ]

  isolate-IsLogo :
      (r : Result PlatformError (Option RearLogoState)) (w : World) (bit mask : ℕ)
      → Settles LogoIs Fails r w
      → IsLogo (isolate_getter_failure r bit mask).0
  unfolding LogoIs
  isolate-IsLogo (ok value) w bit mask h = h
  isolate-IsLogo (err e) w bit mask h = tt

  -- Reading the platform's state gives a state whatever the files do, and the client's parser
  -- reads that state from the text that encodes it.
  pub parse_state-read_state :
      (w : World)
      → (state : PlatformState) × ((read_state sys controls w).0 ≡ ok state)
        × (parse_state (encode_state state) ≡ ok state)
  unfolding read_state
  parse_state-read_state w =
      let (r0, w0) = read_optional_bool sys controls (codes "battery_limit") w in
      let (limit, m0) = isolate_getter_failure r0 1 0 in
      let (r1, w1) = read_optional_bool sys controls (codes "battery_calibration") w0 in
      let (calibration, m1) = isolate_getter_failure r1 2 m0 in
      let (r2, w2) = read_optional_usb sys controls w1 in
      let (usb, m2) = isolate_getter_failure r2 4 m1 in
      let (r3, w3) = read_optional_bool sys controls (codes "keyboard_timeout") w2 in
      let (timeout, m3) = isolate_getter_failure r3 8 m2 in
      let (r4, w4) = read_optional_bool sys controls (codes "boot_sound") w3 in
      let (sound, m4) = isolate_getter_failure r4 16 m3 in
      let (r5, w5) = read_optional_bool sys controls (codes "lcd_override") w4 in
      let (lcd, m5) = isolate_getter_failure r5 32 m4 in
      let (r6, w6) = read_optional_logo sys controls w5 in
      let (logo, m6) = isolate_getter_failure r6 64 m5 in
      let state : PlatformState = record {
        battery_limit = limit;
        battery_calibration = calibration;
        usb_charging = usb;
        keyboard_timeout = timeout;
        boot_sound = sound;
        lcd_override = lcd;
        rear_logo = logo;
        read_error_mask = m6;
      } in
      (
        state,
        refl,
        parse_state-encode_state state (isolate-IsLogo r6 w6 64 m5 (read_optional_logo-LogoIs w5)) (
            isolate_mask r6 64 m5 63 (
              isolate_mask r5 32 m4 31 (
                isolate_mask r4 16 m3 15 (
                  isolate_mask r3 8 m2 7 (
                    isolate_mask r2 4 m1 3
                      (isolate_mask r1 2 m0 1 (isolate_mask r0 1 0 0 (omega arith)))))))),
      )
