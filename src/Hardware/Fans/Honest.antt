-- ===== src/Hardware/Fans/Honest.antt =====
-- What the readings of the fan modes show, and runs that leave the modes alone.
use asense.Base.{Option-cases, ℕ, ◌≡◌, refl, ◌∙◌, inl, inr, Option, ap}
use asense.Base.Text.{Bytes, trim}
use asense.Result.{Result, ok, err, Result-cases}
use asense.Exec.Outcome.{Settles, Ensures, Ensures-handle}
use asense.Exec.{Exec, ◌>>=◌}
use asense.Hardware.{IoKind, FanMode, mode_from_sysfs}
use asense.Hardware.Readable.{Shows}
use asense.Hardware.Sysfs.{Sysfs, read_trimmed, parse_value}
use asense.Hardware.Fans.{AcerHardware, mode_path}

-- The text of each fan's mode attribute: a reading of the attribute shows it, and no reading of any
-- attribute changes it. Nothing is said of writes.
pub record Honest (sys : Sysfs) (hw : AcerHardware) : Type 0 where
  pub mode_of : sys.World → ℕ → Bytes
  pub mode_shown :
      (c : ℕ) (path : Bytes) (w : sys.World)
      → mode_path hw.fan_backend c ≡ ok path
      → Shows (sys.read_file path w).0 (mode_of w c)
  pub read_keeps :
      (path : Bytes) (w : sys.World) (c : ℕ) → mode_of (sys.read_file path w).1 c ≡ mode_of w c

module _ (sys : Sysfs) (hw : AcerHardware) (honest : Honest sys hw) where
  open sys use {World, read_file}
  open honest use {mode_of, mode_shown, read_keeps}

  -- the fan's mode attribute reads as the mode
  abbrev pub IsIn : FanMode → ℕ → World → Type 0
  IsIn m c w = mode_from_sysfs (trim (mode_of w c)) ≡ ok m

  abbrev pub Same : World → World → Type 0
  Same w w' = (c : ℕ) → mode_of w' c ≡ mode_of w c

  -- a run that leaves every fan mode as it was
  abbrev pub IsQuiet : {E A : Type 0} → Exec World E A → Type 0
  IsQuiet m = (w : World) → Same w (m w).1

  pub Same-trans : (a b c : World) → Same a b → Same b c → Same a c
  Same-trans a b c p q n = q n ∙ p n

  pub IsQuiet-bind :
      {E A B : Type 0} (m : Exec World E A) (f : A → Exec World E B)
      → IsQuiet m
      → ((a : A) → IsQuiet (f a))
      → IsQuiet (m >>= f)
  IsQuiet-bind m f hm hf w = elim (Result-cases (m w).0) [
    | inl (a, e) ↦ rw e (Same-trans w (m w).1 (f a (m w).1).1 (hm w) (hf a (m w).1))
    | inr (x, e) ↦ rw e (hm w)
  ]

  pub read_trimmed-IsQuiet : (path : Bytes) → IsQuiet (read_trimmed sys path)
  unfolding read_trimmed
  read_trimmed-IsQuiet path w = elim (Result-cases (read_file path w).0) [
    | inl (a, e) ↦ rw e (read_keeps path w)
    | inr (x, e) ↦ rw e (read_keeps path w)
  ]

  pub parse_value-IsQuiet :
      {T : Type 0} (parse : Bytes → Option T) (path : Bytes) → IsQuiet (parse_value sys parse path)
  unfolding parse_value
  parse_value-IsQuiet parse path =
      IsQuiet-bind (read_trimmed sys path) _ (read_trimmed-IsQuiet path) λ value w.
        elim (Option-cases (parse value)) [
          | inl e ↦ rw e (λ c. refl)
          | inr (v, e) ↦ rw e (λ c. refl)
        ]

  -- a mode attribute that can be read shows the mode
  pub read_trimmed-shown :
      (c : ℕ) (path : Bytes) (w : World)
      → mode_path hw.fan_backend c ≡ ok path
      → Ensures
          (λ value w'. Same w w' × (value ≡ trim (mode_of w c)))
          (λ e w'. Same w w')
          (read_trimmed sys path)
          w
  unfolding read_trimmed
  read_trimmed-shown c path w h =
      Ensures-handle (λ text w'. Same w w' × (text ≡ mode_of w c)) (λ e w'. Same w w') _ _
        (read_file path) _ _ w
        (shown (read_file path w).0 (read_file path w).1 (mode_shown c path w h)
          (read_keeps path w))
        (λ text w' (same, eq). (same, ap trim eq)) (λ e w' same. same)
    where
      shown :
          (r : Result IoKind Bytes) (w' : World)
          → Shows r (mode_of w c)
          → Same w w'
          → Settles (λ text w'. Same w w' × (text ≡ mode_of w c)) (λ e w'. Same w w') r w'
      shown (ok text) w' s same = (same, s)
      shown (err x) w' s same = same
