-- ===== src/Hardware/Fans/Verified.antt =====
-- The fan transaction against the mode attributes of the two fans.
use asense.Base.{
  ◌≡◌, Option, some, arith, Bool-cases, inl, inr, ℕ, refl, sym, ap, ◌∙◌, Option-cases,
}
use asense.Base.Text.{Bytes, trim, text_eq, text_eq_sound, codes}
use asense.Result.{Result, ok, err, Result-cases}
use asense.Exec.{Exec, lift, ◌>>=◌}
use asense.Exec.Outcome.{Ensures, Ensures-bind, Ensures-cases, Ensures-ok, Ensures-mono}
use asense.Hardware.Fans.Honest.{
  Honest, IsIn, Same, read_trimmed-IsQuiet, IsQuiet, read_trimmed-shown, Same-trans,
  parse_value-IsQuiet,
}
use asense.Base.Decimal.{parse_uint}
use asense.Hardware.{
  FanMode, mode_as_sysfs, mode_from_sysfs, HardwareError, maximum, manual, automatic,
}
use asense.Hardware.Sysfs.{ensure_readback, Sysfs, read_trimmed}
use asense.Hardware.Fans.{
  mode_text, AcerHardware, mode_path, verify_mode, optional_fan_mode, read_rpm, observed,
  read_optional_fan_mode,
}

pub ensure_readback-eq :
    (expected text : Bytes) → ensure_readback expected text ≡ ok tt → trim text ≡ expected
unfolding ensure_readback
ensure_readback-eq expected text h = elim (Bool-cases (text_eq (trim text) expected)) [
  | inl e ↦ text_eq_sound (trim text) expected e
  | inr e ↦ ground (arith, e, h)
]

ensure_readback-mode :
    (m : FanMode) (text : Bytes)
    → ensure_readback (mode_as_sysfs m) text ≡ ok tt
    → mode_from_sysfs text ≡ ok m
unfolding mode_from_sysfs mode_as_sysfs
ensure_readback-mode maximum text h = let e = ensure_readback-eq (codes "0") text h in rw e refl
ensure_readback-mode manual text h = let e = ensure_readback-eq (codes "1") text h in rw e refl
ensure_readback-mode automatic text h = let e = ensure_readback-eq (codes "2") text h in rw e refl

-- the text that was compared is that of the mode
pub mode_text-mode :
    (expected : FanMode) (o : Option FanMode)
    → ensure_readback (mode_as_sysfs expected) (mode_text o) ≡ ok tt
    → o ≡ some expected
unfolding ensure_readback mode_as_sysfs trim
mode_text-mode expected o h = ground arith

module _ (sys : Sysfs) (hw : AcerHardware) (honest : Honest sys hw) where
  open sys use {World, read_file, write_file}
  open honest use {mode_of}

  -- a reading of one fan's mode: what it gives, when it does
  abbrev pub Confirmed :
      {A : Type 0} → (A → FanMode → Type 0) → ℕ → Exec World HardwareError A → Type 0
  Confirmed {A} P c m =
      (w : World)
      → Ensures
          (λ a w'. Same sys hw honest w w' × ((x : FanMode) → P a x → IsIn sys hw honest x c w))
          (λ e w'. Same sys hw honest w w') m w

  pub lifted-Confirmed :
      {A B : Type 0} (P : A → FanMode → Type 0) (c : ℕ) (r : Result HardwareError B)
      (f : B → Exec World HardwareError A)
      → ((b : B) → r ≡ ok b → Confirmed P c (f b))
      → Confirmed P c (lift r >>= f)
  lifted-Confirmed P c (ok b) f h w = h b refl w
  lifted-Confirmed P c (err x) f h w = λ n. refl

  -- what is said of a mode attribute's text once it has been read
  pub read-Confirmed :
      {A : Type 0} (P : A → FanMode → Type 0) (c : ℕ) (path : Bytes)
      (f : Bytes → Exec World HardwareError A)
      → mode_path hw.fan_backend c ≡ ok path
      → ((value : Bytes) → IsQuiet sys hw honest (f value))
      → ((value : Bytes) (w : World)
          → Ensures
              (λ a w'. (x : FanMode) → P a x → mode_from_sysfs value ≡ ok x)
              (λ e w'. Unit {0})
              (f value)
              w)
      → Confirmed P c (read_trimmed sys path >>= f)
  read-Confirmed P c path f h still said w =
      Ensures-bind _ _ _ (read_trimmed sys path) f w (read_trimmed-shown sys hw honest c path w h)
        λ value w1 (same, eq).
          Ensures-cases _ _ (f value) w1
            (λ a k. (
              Same-trans sys hw honest w w1 _ same (still value w1),
              λ x h.
                  ap mode_from_sysfs (sym eq) ∙ Ensures-ok _ _ (f value) w1 a (said value w1) k x h,
            ))
            (λ x k. Same-trans sys hw honest w w1 _ same (still value w1))

  pub verify_mode-Confirmed :
      (c : ℕ) (expected : FanMode)
      → Confirmed (λ u x. x ≡ expected) c (verify_mode sys hw c expected)
  unfolding verify_mode
  verify_mode-Confirmed c expected = lifted-Confirmed _ c (mode_path hw.fan_backend c) _ λ path e.
      read-Confirmed _ c path _ e (λ value w n. refl)
        λ value w. elim (Result-cases (ensure_readback (mode_as_sysfs expected) value)) [
          | inr (x, k) ↦ rw k tt
          | inl (u, k) ↦ rw k (λ x h. rw h (ensure_readback-mode expected value k))
        ]

  pub observed-IsQuiet :
      {A : Type 0} (m : Exec World HardwareError A)
      → IsQuiet sys hw honest m
      → IsQuiet sys hw honest (observed sys hw m)
  unfolding observed
  observed-IsQuiet m h w = elim (Result-cases (m w).0) [
    | inl (a, e) ↦ rw e (h w)
    | inr (x, e) ↦ rw e (h w)
  ]

  pub read_rpm-IsQuiet : (c : ℕ) → IsQuiet sys hw honest (read_rpm sys hw c)
  unfolding read_rpm
  read_rpm-IsQuiet c w = elim (Option-cases hw.hwmon) [
    | inl e ↦ rw e (λ n. refl)
    | inr (base, e) ↦ rw e (parse_value-IsQuiet sys hw honest (parse_uint 4294967295) _ w)
  ]

  -- a quiet run before a reading, and one after it that keeps what was read
  pub after-Confirmed :
      {A B : Type 0} (P : A → FanMode → Type 0) (c : ℕ) (m : Exec World HardwareError B)
      (f : B → Exec World HardwareError A)
      → IsQuiet sys hw honest m
      → ((b : B) → Confirmed P c (f b))
      → Confirmed P c (m >>= f)
  after-Confirmed P c m f h k w =
      Ensures-bind (λ b w'. Same sys hw honest w w') _ _ m f w
        (Ensures-cases _ _ m w (λ b e. h w) (λ x e. h w))
        λ b w1 same.
          Ensures-mono _ _ _ _ (f b) w1 (k b w1)
            (λ a w2 (same2, said). (
              Same-trans sys hw honest w w1 w2 same same2,
              λ x p. ap (λ t. mode_from_sysfs (trim t)) (sym (same c)) ∙ said x p,
            ))
            (λ x w2 same2. Same-trans sys hw honest w w1 w2 same same2)

  pub before-Confirmed :
      {A B : Type 0} (P : A → FanMode → Type 0) (R : B → FanMode → Type 0) (c : ℕ)
      (m : Exec World HardwareError A) (f : A → Exec World HardwareError B)
      → Confirmed P c m
      → ((a : A) → IsQuiet sys hw honest (f a))
      → ((a : A) (w : World)
          → Ensures (λ b w'. (x : FanMode) → R b x → P a x) (λ e w'. Unit {0}) (f a) w)
      → Confirmed R c (m >>= f)
  before-Confirmed P R c m f h still said w = Ensures-bind _ _ _ m f w (h w) λ a w1 (same, shown).
      Ensures-cases _ _ (f a) w1
        (λ b k. (
          Same-trans sys hw honest w w1 _ same (still a w1),
          λ x r. shown x (Ensures-ok _ _ (f a) w1 b (said a w1) k x r),
        ))
        (λ x k. Same-trans sys hw honest w w1 _ same (still a w1))

  optional_fan_mode-mode :
      (value : Bytes) (o : Option FanMode) (x : FanMode)
      → optional_fan_mode (ok value) ≡ ok o
      → o ≡ some x
      → mode_from_sysfs value ≡ ok x
  unfolding optional_fan_mode
  optional_fan_mode-mode value o x h e = elim (Result-cases (mode_from_sysfs value)) [
    | inl (m, k) ↦ ground (arith, h, e, k)
    | inr (f, k) ↦ ground (arith, h, e, k)
  ]

  optional_fan_mode-unavailable :
      (f : HardwareError) (o : Option FanMode) (x : FanMode)
      → optional_fan_mode (err f) ≡ ok o
      → ¬ (o ≡ some x)
  unfolding optional_fan_mode
  optional_fan_mode-unavailable f o x h e = ground arith

  pub read_optional_fan_mode-Confirmed :
      (c : ℕ) (path : Bytes)
      → mode_path hw.fan_backend c ≡ ok path
      → Confirmed (λ o x. o ≡ some x) c (read_optional_fan_mode sys hw path)
  unfolding read_optional_fan_mode
  read_optional_fan_mode-Confirmed c path h w =
      Ensures-cases _ _ (read_optional_fan_mode sys hw path) w
        (λ o e. (read_trimmed-IsQuiet sys hw honest path w, λ x k. shown o x e k))
        (λ x e. read_trimmed-IsQuiet sys hw honest path w)
    where
      shown :
          (o : Option FanMode) (x : FanMode)
          → optional_fan_mode (read_trimmed sys path w).0 ≡ ok o
          → o ≡ some x
          → IsIn sys hw honest x c w
      shown o x e k = elim (Result-cases (read_trimmed sys path w).0) [
        | inl (value, r) ↦
            ap mode_from_sysfs (
              sym
                (Ensures-ok _ _ (read_trimmed sys path) w value
                  (read_trimmed-shown sys hw honest c path w h) r).1)
            ∙ optional_fan_mode-mode value o x (ap optional_fan_mode (sym r) ∙ e) k
        | inr (f, r) ↦
            elim (optional_fan_mode-unavailable f o x (ap optional_fan_mode (sym r) ∙ e) k) [ ]
      ]
