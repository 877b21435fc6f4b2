-- ===== src/Hardware/Sysfs.antt =====
-- src/hardware.rs: reading and writing one firmware attribute. The file system below sysfs is a
-- parameter; a read gives the text of the file, or the kind of its error.
use asense.Base.{
  ◌==◌, if◌then◌else◌, within, is_some, ℕ, zero, suc, ◌+◌, Bool, ◌&&◌, ◌||◌, Option, none, some, [],
  ◌∷◌, ◌++◌, true, false,
}
use asense.Base.Text.{Bytes, text_eq, trim, strip_prefix, codes}
use asense.Base.Int.{ℤ, pos, negsuc, leb_ℤ}
use asense.Base.Decimal.{parse_uint, decimal}
use asense.Result.{Result, ok, err}
use asense.Exec.{Exec, pure, raise, ◌>>=◌, handle}
use asense.Hardware.{IoKind, HardwareError, io, invalid_value, readback_mismatch}

pub record Sysfs : Type 1 where
  pub World : Type 0
  pub read_file : Bytes → Exec World IoKind Bytes
  -- opens an existing file, truncates it and writes
  pub write_file : Bytes → Bytes → Exec World IoKind Unit
  pub is_file : Bytes → World → Bool

-- `Path::join`
abbrev pub join : Bytes → Bytes → Bytes
join base name = base ++ 47 ∷ name

abbrev pub to_ascii_lowercase : Bytes → Bytes
to_ascii_lowercase [] = []
to_ascii_lowercase (c ∷ s) = (if within 65 90 c then c + 32 else c) ∷ to_ascii_lowercase s

-- `str::contains`
abbrev pub contains : Bytes → Bytes → Bool
contains part [] = is_some (strip_prefix part [])
contains part (c ∷ s) = is_some (strip_prefix part (c ∷ s)) || contains part s

-- `parse::<i64>`: a sign, then digits
unfoldable pub parse_i64 : Bytes → Option ℤ
parse_i64 [] = none
parse_i64 (c ∷ s) = if c == 45 then parse_negative s else parse_positive (c ∷ s)
  where
    parse_positive : Bytes → Option ℤ
    parse_positive s = elim (parse_uint 9223372036854775807 s) [
      | none ↦ none
      | some n ↦ some (pos n)
    ]

    negate : ℕ → ℤ
    negate zero = pos zero
    negate (suc n) = negsuc n

    parse_negative : Bytes → Option ℤ
    parse_negative [] = none
    parse_negative (d ∷ t) =
        if d == 43 then none else elim (parse_uint 9223372036854775808 (d ∷ t)) [
          | none ↦ none
          | some n ↦ some (negate n)
        ]

unfoldable pub ensure_readback : Bytes → Bytes → Result HardwareError Unit
ensure_readback expected actual =
    if text_eq (trim actual) expected then ok tt else err (readback_mismatch expected (trim actual))

module _ (sys : Sysfs) where
  open sys use {World, read_file, write_file, is_file}

  unfoldable pub read_trimmed : Bytes → Exec World HardwareError Bytes
  read_trimmed path = handle (read_file path) (λ value. pure (trim value)) (λ e. raise (io e))

  unfoldable pub write_existing : Bytes → Bytes → Exec World HardwareError Unit
  write_existing path value = handle (write_file path value) (λ u. pure tt) (λ e. raise (io e))

  -- `parse_value::<T>` with the parser of `T`
  unfoldable pub parse_value :
      {T : Type 0} → (Bytes → Option T) → Bytes → Exec World HardwareError T
  unfolding read_trimmed
  parse_value parse path = do
    value ← read_trimmed path
    elim (parse value) [ none ↦ raise (invalid_value value) | some v ↦ pure v ]

  -- What cannot fail has the empty type of errors.
  -- the loop over the labels 1 to 8 of `acer_temperature_path`: `left` of them are still to be read
  unfoldable pub find_temperature : ℕ → ℕ → Bytes → Bytes → Bytes → Exec World ⊥ Bytes
  find_temperature zero index base role otherwise = pure otherwise
  find_temperature (suc left) index base role otherwise =
      let input = join base (codes "temp" ++ decimal index ++ codes "_input") in
      let rest = find_temperature left (suc index) base role otherwise in
      handle (read_file (join base (codes "temp" ++ decimal index ++ codes "_label")))
        (λ text w.
          if is_file input w && contains role (to_ascii_lowercase (trim text))
          then (ok input, w)
          else rest w)
        (λ e. rest)

  unfoldable pub acer_temperature_path : Bytes → ℕ → Exec World ⊥ Bytes
  acer_temperature_path base channel =
      let plain = join base (codes "temp" ++ decimal channel ++ codes "_input") in
      if channel == 1
      then find_temperature 8 1 base (codes "cpu") plain
      else if channel == 2
      then find_temperature 8 1 base (codes "gpu") plain
      else pure plain

  unfoldable pub read_watchdog_temperature : Bytes → Exec World HardwareError ℤ
  unfolding parse_value
  read_watchdog_temperature path = do
    value ← parse_value parse_i64 path
    if leb_ℤ (negsuc 49999) value && leb_ℤ value (pos 200000)
        then pure value
        else raise (invalid_value [])

  unfoldable pub channel_watched : Bytes → ℕ → Exec World ⊥ Bool
  channel_watched base channel = do
    path ← acer_temperature_path base channel
    handle (read_watchdog_temperature path) (λ value. pure true) (λ e. pure false)

  -- `all` stops at the first channel without a temperature
  unfoldable pub manual_watchdog_available : Bytes → Exec World ⊥ Bool
  manual_watchdog_available base = do
    cpu ← channel_watched base 1
    if cpu then channel_watched base 2 else pure false
