-- ===== src/Platform/Readback.antt =====
-- The setters of the platform against the texts of their attributes.
use asense.Base.{
  Option-cases, ◌≡◌, refl, sym, ap, ◌∙◌, inl, inr, Bool, true, Option, some, arith, if◌then◌else◌,
  none, [], ◌∷◌, ◌++◌, ltb, ◌≤◌,
}
use asense.Base.Text.{Bytes, trim, codes}
use asense.Result.{Result, ok, Result-cases}
use asense.Exec.{pure, lift, ◌>>=◌, ◌>>◌}
use asense.Exec.Outcome.{
  Ensures, Ensures-bind, Ensures-handle, Ensures-cases, Ensures-world, Ensures-mono, Ensures-if,
}
use asense.Hardware.Readable.{Readable, Keeps, Keeps-trans, read_file-Readable}
use asense.Hardware.Sysfs.{Sysfs, join}
use asense.Platform.{PlatformError, UsbCharging, RearLogoState, parse_logo}
use asense.Platform.Controls.{
  PlatformControls, is_some_bool, is_some_usb, preferred, attribute_path, read_text, read_optional,
  existing, or_else, require_attribute, write_text, set_verified, is_some_logo, bool_readback,
  usb_readback, read_optional_bool, read_optional_usb, read_optional_logo, read_state, set_bool,
  set_battery_limit, set_battery_calibration, set_keyboard_timeout, set_boot_sound,
  set_lcd_override, set_usb_charging, set_rear_logo,
}

is_some_bool_sound : (o : Option Bool) (b : Bool) → is_some_bool o b ≡ true → o ≡ some b
is_some_bool_sound o b h = ground (arith, h)

is_some_usb_sound : (o : Option UsbCharging) (u : UsbCharging) → is_some_usb o u ≡ true → o ≡ some u
is_some_usb_sound o u h = ground (arith, h)

is_some_logo_sound :
    (o : Option RearLogoState) (l : RearLogoState) → is_some_logo o l ≡ true → o ≡ some l
is_some_logo_sound none l h = ground (arith, h)
is_some_logo_sound (some k) l h =
    let on : k.enabled ≡ l.enabled = ground (arith, h) in
    let level : k.brightness ≡ l.brightness = ground (arith, h) in
    let r : k.red ≡ l.red = ground (arith, h) in
    let g : k.green ≡ l.green = ground (arith, h) in
    let b : k.blue ≡ l.blue = ground (arith, h) in
    λ i. some (record { enabled = on i; brightness = level i; red = r i; green = g i; blue = b i })

module _ (sys : Sysfs) (controls : PlatformControls) (readable : Readable sys) where
  open sys use {World, read_file, is_file}
  open readable use {contents}

  abbrev Same : World → World → Type 0
  Same w w' = Keeps sys readable w w'

  -- the attribute is there, and its text parses as the value
  abbrev pub Reads : {T : Type 0} → (Bytes → Result PlatformError T) → Bytes → T → World → Type 0
  Reads parse name v w =
      (path : Bytes) × (attribute_path sys controls name w ≡ some path)
      × (parse (trim (contents w path)) ≡ ok v)

  existing-Same :
      (base : Option Bytes) (name : Bytes) (w w' : World)
      → Same w w'
      → existing sys controls base name w' ≡ existing sys controls base name w
  existing-Same none name w w' same = refl
  existing-Same (some base) name w w' same =
      ap (λ b. if b then some (join base name) else none) (same (join base name)).1

  attribute_path-Same :
      (name : Bytes) (w w' : World)
      → Same w w'
      → attribute_path sys controls name w' ≡ attribute_path sys controls name w
  unfolding attribute_path
  attribute_path-Same name w w' same =
      ap (λ o. or_else sys controls o (existing sys controls controls.gaming name w'))
        (existing-Same (preferred sys controls name) name w w' same)
      ∙ ap (or_else sys controls (existing sys controls (preferred sys controls name) name w))
          (existing-Same controls.gaming name w w' same)

  Reads-Same :
      {T : Type 0} (parse : Bytes → Result PlatformError T) (name : Bytes) (v : T) (w w' : World)
      → Same w w'
      → Reads parse name v w
      → Reads parse name v w'
  Reads-Same parse name v w w' same (path, at, text) =
      (path, attribute_path-Same name w w' same ∙ at, ap (λ t. parse (trim t)) (same path).0 ∙ text)

  read_text-shown :
      (path : Bytes) (w : World)
      → Ensures
          (λ text w'. Same w w' × (text ≡ trim (contents w path)))
          (λ e w'. Same w w')
          (read_text sys controls path)
          w
  unfolding read_text
  read_text-shown path w =
      Ensures-handle _ _ _ _ (read_file path) _ _ w (read_file-Readable sys readable path w)
        (λ text w' (eq, same). (same, ap trim eq)) (λ e w' same. same)

  read_optional-shown :
      {T : Type 0} (parse : Bytes → Result PlatformError T) (name : Bytes) (w : World)
      → Ensures
          (λ o w'. Same w w' × ((v : T) → o ≡ some v → Reads parse name v w'))
          (λ e w'. Same w w')
          (read_optional sys controls parse name)
          w
  unfolding read_optional
  read_optional-shown {T = T} parse name w =
      elim (Option-cases (attribute_path sys controls name w)) [
        | inl e ↦ rw (e, read_optional) (λ q. (refl, refl), λ v h. ground (arith, h))
        | inr (path, e) ↦ rw (e, read_optional) (found path e)
      ]
    where
      found :
          (path : Bytes)
          → attribute_path sys controls name w ≡ some path
          → Ensures
              (λ o w'. Same w w' × ((v : T) → o ≡ some v → Reads parse name v w'))
              (λ e w'. Same w w')
              (read_text sys controls path >>= λ text.
                lift (parse text) >>= λ value. pure (some value))
              w
      found path e =
          Ensures-bind _ _ _ (read_text sys controls path) _ w (read_text-shown path w)
            λ text w1 (same, eq). elim (Result-cases (parse text)) [
              | inr (x, k) ↦ rw k same
              | inl (value, k) ↦ rw k (
                same,
                λ v h. (
                  path,
                  attribute_path-Same name w w1 same ∙ e,
                  ap parse (ap trim (same path).0 ∙ sym eq) ∙ k ∙ ap ok (ground (arith, h)),
                ),
              )
            ]

  read_optional-Same :
      {T : Type 0} (parse : Bytes → Result PlatformError T) (name : Bytes) (w : World)
      → Same w (read_optional sys controls parse name w).1
  read_optional-Same parse name w =
      Ensures-world (Same w) (read_optional sys controls parse name) w (
        Ensures-mono _ _ _ _ (read_optional sys controls parse name) w
          (read_optional-shown parse name w) (λ o w' h. h.0) (λ x w' h. h))

  -- a value that was read back is in force
  set_verified-Reads :
      {T : Type 0} (parse : Bytes → Result PlatformError T) (agrees : Option T → Bool)
      (name text : Bytes) (v : T) (w : World)
      → ((o : Option T) → agrees o ≡ true → o ≡ some v)
      → Ensures
          (λ u w'. Reads parse name v w')
          (λ e w'. Unit {0})
          (set_verified sys controls parse agrees name text)
          w
  unfolding set_verified
  set_verified-Reads {T = T} parse agrees name text v w sound =
      Ensures-bind (λ path w'. Unit {0}) _ _ (require_attribute sys controls name) _ w
        (Ensures-cases _ _ (require_attribute sys controls name) w (λ a e. tt) (λ x e. tt))
        λ path w1 k.
          Ensures-bind (λ u w'. Unit {0}) _ _ (write_text sys controls path (text ++ 10 ∷ [])) _ w1
            (Ensures-cases _ _ (write_text sys controls path (text ++ 10 ∷ [])) w1 (λ a e. tt)
              (λ x e. tt))
            λ u w2 k2.
              Ensures-bind (λ o w'. (x : T) → o ≡ some x → Reads parse name x w') _ _
                (read_optional sys controls parse name) _ w2
                (Ensures-mono _ _ _ _ (read_optional sys controls parse name) w2
                  (read_optional-shown parse name w2) (λ o w3 h. h.1) (λ x w3 h. tt))
                λ o w3 shown. Ensures-if _ _ (agrees o) _ _ w3 (λ e. shown v (sound o e)) (λ e. tt)

  read_state-Same : (w : World) → Same w (read_state sys controls w).1
  unfolding read_state read_optional_bool read_optional_usb read_optional_logo
  read_state-Same w = step bool_readback (codes "battery_limit") w _ (
      step bool_readback (codes "battery_calibration") _ _ (
        step usb_readback (codes "usb_charging") _ _ (
          step bool_readback (codes "keyboard_timeout") _ _ (
            step bool_readback (codes "boot_sound") _ _ (
              step bool_readback (codes "lcd_override") _ _
                (read_optional-Same parse_logo (codes "rear_logo") _))))))
    where
      step :
          {T : Type 0} (parse : Bytes → Result PlatformError T) (name : Bytes) (w w' : World)
          → Same (read_optional sys controls parse name w).1 w'
          → Same w w'
      step parse name w w' rest =
          Keeps-trans sys readable w _ w' (read_optional-Same parse name w) rest

  -- a verified write, and then the reading of every attribute
  confirmed :
      {T : Type 0} (parse : Bytes → Result PlatformError T) (agrees : Option T → Bool)
      (name text : Bytes) (v : T) (w : World)
      → ((o : Option T) → agrees o ≡ true → o ≡ some v)
      → Ensures
          (λ st w'. Reads parse name v w')
          (λ e w'. Unit {0})
          (set_verified sys controls parse agrees name text >> read_state sys controls)
          w
  confirmed parse agrees name text v w sound =
      Ensures-bind _ _ _ (set_verified sys controls parse agrees name text) _ w
        (set_verified-Reads parse agrees name text v w sound)
        λ u w1 reads.
          Ensures-cases _ _ (read_state sys controls) w1
            (λ st e. Reads-Same parse name v w1 _ (read_state-Same w1) reads) (λ x e. tt)

  -- For files that read honestly, whatever a write does: each of the five switches that is set without
  -- an error has an attribute whose text reads as the value that was asked for.
  pub set_switches-Reads :
      (b : Bool) (w : World)
      → Ensures
          (λ st w'. Reads bool_readback (codes "battery_limit") b w')
          (λ e w'. Unit {0})
          (set_battery_limit sys controls b)
          w
        × Ensures
            (λ st w'. Reads bool_readback (codes "battery_calibration") b w')
            (λ e w'. Unit {0})
            (set_battery_calibration sys controls b)
            w
        × Ensures
            (λ st w'. Reads bool_readback (codes "keyboard_timeout") b w')
            (λ e w'. Unit {0})
            (set_keyboard_timeout sys controls b)
            w
        × Ensures
            (λ st w'. Reads bool_readback (codes "boot_sound") b w')
            (λ e w'. Unit {0})
            (set_boot_sound sys controls b)
            w
        × Ensures
            (λ st w'. Reads bool_readback (codes "lcd_override") b w')
            (λ e w'. Unit {0})
            (set_lcd_override sys controls b)
            w
  unfolding set_battery_limit set_battery_calibration set_keyboard_timeout set_boot_sound
      set_lcd_override set_bool
  set_switches-Reads b w = (
    switch (codes "battery_limit"),
    switch (codes "battery_calibration"),
    switch (codes "keyboard_timeout"),
    switch (codes "boot_sound"),
    switch (codes "lcd_override"),
  )
    where
      switch :
          (name : Bytes)
          → Ensures
              (λ st w'. Reads bool_readback name b w')
              (λ e w'. Unit {0})
              (set_bool sys controls name b >> read_state sys controls)
              w
      switch name =
          confirmed bool_readback (λ o. is_some_bool o b) name (if b then codes "1" else codes "0")
            b w (λ o h. is_some_bool_sound o b h)

  -- For files that read honestly, whatever a write does: a USB charging mode that is set without an
  -- error is the one that its attribute reads as.
  pub set_usb_charging-Reads :
      (mode : UsbCharging) (w : World)
      → Ensures
          (λ st w'. Reads usb_readback (codes "usb_charging") mode w')
          (λ e w'. Unit {0})
          (set_usb_charging sys controls mode)
          w
  unfolding set_usb_charging
  set_usb_charging-Reads mode w =
      confirmed usb_readback (λ o. is_some_usb o mode) (codes "usb_charging") _ mode w
        (λ o h. is_some_usb_sound o mode h)

  -- For files that read honestly, whatever a write does: a rear logo that is set without an error has
  -- a brightness of at most 100, and its attribute reads as what was asked for.
  pub set_rear_logo-Reads :
      (request : RearLogoState) (w : World)
      → Ensures
          (λ st w'. (request.brightness ≤ 100) × Reads parse_logo (codes "rear_logo") request w')
          (λ e w'. Unit {0})
          (set_rear_logo sys controls request)
          w
  unfolding set_rear_logo
  set_rear_logo-Reads request w =
      Ensures-if _ _ (ltb 100 request.brightness) _ _ w (λ e. tt)
        λ e.
          Ensures-mono _ _ _ _
            (set_verified sys controls parse_logo (λ o. is_some_logo o request) (codes "rear_logo")
                _
              >> read_state sys controls)
            w
            (confirmed parse_logo (λ o. is_some_logo o request) (codes "rear_logo") _ request w
              (λ o h. is_some_logo_sound o request h))
            (λ st w' h. (ground (arith, e), h)) (λ x w' h. tt)
