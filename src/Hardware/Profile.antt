-- ===== src/Hardware/Profile.antt =====
-- src/hardware.rs: reading and setting the platform profile.
use asense.Base.{
  leb, ◌==◌, if◌then◌else◌, within, length, all, ℕ, ◌≡◌, refl, sym, ap, ◌∙◌, Bool, false, not, ◌&&◌,
  ◌||◌, none, some, List, [], ◌∷◌, Option, arith,
}
use asense.Base.Text.{Bytes, codes, text_eq, trim, fields}
use asense.Result.{Result, ok, err}
use asense.Exec.{Exec, pure, raise, lift, ◌>>=◌, ◌>>◌}
use asense.Exec.Outcome.{Ensures, Ensures-cases, Ensures-if, Ensures-bind, Ensures-mono}
use asense.Hardware.{
  PlatformProfile, HardwareError, invalid_value, profile_unavailable, as_sysfs, from_sysfs, eco,
  quiet, balanced, performance, turbo, unsupported_platform, missing_interface,
}
use asense.Hardware.Sysfs.{Sysfs, ensure_readback, read_trimmed, write_existing}
use asense.Hardware.Readable.{Readable, read_trimmed-Readable}
use asense.Hardware.Fans.{AcerHardware, ProfileInterface}
use asense.Hardware.Fans.Verified.{ensure_readback-eq}

abbrev pub any_equal : Bytes → List Bytes → Bool
any_equal requested [] = false
any_equal requested (choice ∷ rest) = text_eq choice requested || any_equal requested rest

-- a letter, a digit, a dash or an underscore
abbrev pub is_token_byte : ℕ → Bool
is_token_byte c = within 48 57 c || within 65 90 c || within 97 122 c || c == 45 || c == 95

-- a profile name that may be written at all
unfoldable pub is_token : Bytes → Bool
is_token [] = false
is_token (c ∷ s) = leb (length (c ∷ s)) 48 && all is_token_byte (c ∷ s)

-- the error for a name that the firmware does not offer
abbrev pub unoffered : Bytes → Result HardwareError PlatformProfile → HardwareError
unoffered requested (ok p) = profile_unavailable p
unoffered requested (err e) = invalid_value requested

module _ (sys : Sysfs) (hw : AcerHardware) where
  open sys use {World}

  unfoldable pub profile_interface : Exec World HardwareError ProfileInterface
  profile_interface = elim hw.profile [ none ↦ raise missing_interface | some p ↦ pure p ]

  unfoldable pub current_profile_raw : Exec World HardwareError Bytes
  current_profile_raw = do p ← profile_interface; read_trimmed sys p.profile_path

  unfoldable pub current_profile : Exec World HardwareError PlatformProfile
  current_profile = do raw ← current_profile_raw; lift (from_sysfs raw)

  -- the write and its readback
  unfoldable pub write_profile : Bytes → Bytes → Exec World HardwareError Unit
  write_profile path requested = do
    write_existing sys path requested
    actual ← read_trimmed sys path
    lift (ensure_readback requested actual)

  unfoldable pub set_profile_raw : Bytes → Exec World HardwareError Unit
  unfolding write_profile
  set_profile_raw requested =
      if not hw.acer
      then raise unsupported_platform
      else if not (is_token requested)
      then raise (invalid_value requested)
      else (do
        p ← profile_interface
        choices ← read_trimmed sys p.choices_path
        if any_equal requested (fields choices)
            then write_profile p.profile_path requested
            else raise (unoffered requested (from_sysfs requested)))

  unfoldable pub set_profile : PlatformProfile → Exec World HardwareError Unit
  set_profile p = set_profile_raw (as_sysfs p)

ensure_readback-profile :
    (p : PlatformProfile) (text : Bytes)
    → ensure_readback (as_sysfs p) text ≡ ok tt
    → from_sysfs text ≡ ok p
unfolding from_sysfs as_sysfs
ensure_readback-profile eco text h =
    let e = ensure_readback-eq (codes "low-power") text h in rw e refl
ensure_readback-profile quiet text h =
    let e = ensure_readback-eq (codes "quiet") text h in rw e refl
ensure_readback-profile balanced text h =
    let e = ensure_readback-eq (codes "balanced") text h in rw e refl
ensure_readback-profile performance text h =
    let e = ensure_readback-eq (codes "balanced-performance") text h in rw e refl
ensure_readback-profile turbo text h =
    let e = ensure_readback-eq (codes "performance") text h in rw e refl

module _ (sys : Sysfs) (hw : AcerHardware) (readable : Readable sys) where
  open sys use {World}
  open readable use {contents}

  -- the profile file's text is the profile
  abbrev pub Set : PlatformProfile → Bytes → World → Type 0
  Set p path w = from_sysfs (trim (contents w path)) ≡ ok p

  write_profile-Set :
      (p : PlatformProfile) (path : Bytes) (w : World)
      → Ensures
          (λ u w'. Set p path w')
          (λ e w'. Unit {0})
          (write_profile sys hw path (as_sysfs p))
          w
  unfolding write_profile
  write_profile-Set p path w =
      Ensures-bind (λ u w'. Unit {0}) _ _ (write_existing sys path (as_sysfs p)) _ w
        (Ensures-cases _ _ (write_existing sys path (as_sysfs p)) w (λ a e. tt) (λ x e. tt))
        λ u w1 k.
          Ensures-bind _ _ _ (read_trimmed sys path) _ w1
            (read_trimmed-Readable sys readable path w1)
            λ actual w2 (eq, same).
              Ensures-cases _ _ (lift (ensure_readback (as_sysfs p) actual)) w2
                (λ v e.
                  ap (λ t. from_sysfs (trim t)) (same path)
                  ∙ ap from_sysfs (sym eq)
                  ∙ ensure_readback-profile p actual e)
                (λ x e. tt)

  profile_interface-shown :
      (w : World)
      → Ensures (λ i w'. hw.profile ≡ some i) (λ e w'. Unit {0}) (profile_interface sys hw) w
  unfolding profile_interface
  profile_interface-shown w = found hw.profile refl
    where
      found :
          (o : Option ProfileInterface)
          → hw.profile ≡ o
          → Ensures (λ i w'. hw.profile ≡ some i) (λ e w'. Unit {0}) (profile_interface sys hw) w
      found none e = rw e tt
      found (some i) e = rw e refl

  current_profile-Set :
      (p : PlatformProfile) (i : ProfileInterface) (w : World)
      → hw.profile ≡ some i
      → Set p i.profile_path w
      → Ensures (λ q w'. q ≡ p) (λ e w'. Unit {0}) (current_profile sys hw) w
  unfolding current_profile current_profile_raw profile_interface
  current_profile-Set p i w e set = rw e (
      Ensures-bind _ _ _ (read_trimmed sys i.profile_path) _ w
        (read_trimmed-Readable sys readable i.profile_path w)
        λ raw w1 (eq, same).
          Ensures-cases _ _ (lift (from_sysfs raw)) w1
            (λ q k. let same_result = sym k ∙ ap from_sysfs eq ∙ set in ground (arith, same_result))
            (λ x k. tt))

  -- For files that read honestly, whatever a write does: after a profile has been set without an error,
  -- a reading of the profile that gives one gives that profile.
  pub set_profile-current_profile :
      (p : PlatformProfile) (w : World)
      → Ensures
          (λ u w'. Ensures (λ q w''. q ≡ p) (λ e w''. Unit {0}) (current_profile sys hw) w')
          (λ e w'. Unit {0})
          (set_profile sys hw p)
          w
  unfolding set_profile set_profile_raw profile_interface
  set_profile-current_profile p w =
      Ensures-if _ _ (not hw.acer) _ _ w (λ e. tt)
        λ acer.
          Ensures-if _ _ (not (is_token (as_sysfs p))) _ _ w (λ e. tt)
            λ token.
              Ensures-bind _ _ _ (profile_interface sys hw) _ w (profile_interface-shown w)
                λ i w1 e.
                  Ensures-bind (λ choices w'. Unit {0}) _ _ (read_trimmed sys i.choices_path) _ w1
                    (Ensures-cases _ _ (read_trimmed sys i.choices_path) w1 (λ a k. tt) (λ x k. tt))
                    λ choices w2 k.
                      Ensures-if _ _ (any_equal (as_sysfs p) (fields choices)) _ _ w2
                        (λ offered.
                          Ensures-mono _ _ _ _ (write_profile sys hw i.profile_path (as_sysfs p)) w2
                            (write_profile-Set p i.profile_path w2)
                            (λ u w3 set. current_profile-Set p i w3 e set) (λ x w3 h. tt))
                        (λ missing. tt)
