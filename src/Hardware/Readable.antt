-- ===== src/Hardware/Readable.antt =====
-- What the theorems take of a file system: a reading shows the text and changes nothing.
use asense.Base.{◌≡◌, ap, ◌∙◌}
use asense.Base.Text.{Bytes, trim}
use asense.Result.{Result, ok, err}
use asense.Exec.Outcome.{Settles, Ensures, Ensures-handle}
use asense.Hardware.{IoKind}
use asense.Hardware.Sysfs.{Sysfs, read_trimmed}

abbrev pub Shows : Result IoKind Bytes → Bytes → Type 0
Shows (ok value) text = value ≡ text
Shows (err e) text = Unit

-- The text of every file: a reading shows it, and no reading changes a text or makes a file appear or
-- vanish. Nothing is said of writes.
pub record Readable (sys : Sysfs) : Type 0 where
  pub contents : sys.World → Bytes → Bytes
  pub read_shows : (path : Bytes) (w : sys.World) → Shows (sys.read_file path w).0 (contents w path)
  pub read_keeps :
      (path q : Bytes) (w : sys.World) → contents (sys.read_file path w).1 q ≡ contents w q
  pub files_keep :
      (path q : Bytes) (w : sys.World) → sys.is_file q (sys.read_file path w).1 ≡ sys.is_file q w

-- nothing that can be read has changed
abbrev pub Keeps : (sys : Sysfs) → Readable sys → sys.World → sys.World → Type 0
Keeps sys readable w w' =
    (q : Bytes)
    → (readable.contents w' q ≡ readable.contents w q) × (sys.is_file q w' ≡ sys.is_file q w)

pub Keeps-trans :
    (sys : Sysfs) (readable : Readable sys) (a b c : sys.World)
    → Keeps sys readable a b
    → Keeps sys readable b c
    → Keeps sys readable a c
Keeps-trans sys readable a b c p q n = ((q n).0 ∙ (p n).0, (q n).1 ∙ (p n).1)

-- what a reading gives, and that it changes nothing
pub read_file-Readable :
    (sys : Sysfs) (readable : Readable sys) (path : Bytes) (w : sys.World)
    → Ensures
        (λ text w'. (text ≡ readable.contents w path) × Keeps sys readable w w')
        (λ e w'. Keeps sys readable w w')
        (sys.read_file path)
        w
read_file-Readable sys readable path w =
    shown (sys.read_file path w).0 (sys.read_file path w).1 (readable.read_shows path w)
      (λ q. (readable.read_keeps path q w, readable.files_keep path q w))
  where
    shown :
        (r : Result IoKind Bytes) (w' : sys.World)
        → Shows r (readable.contents w path)
        → Keeps sys readable w w'
        → Settles
            (λ text w'. (text ≡ readable.contents w path) × Keeps sys readable w w')
            (λ e w'. Keeps sys readable w w')
            r
            w'
    shown (ok text) w' s same = (s, same)
    shown (err x) w' s same = same

-- what `read_trimmed` gives, and that it changes no text
pub read_trimmed-Readable :
    (sys : Sysfs) (readable : Readable sys) (path : Bytes) (w : sys.World)
    → Ensures
        (λ text w'.
          (text ≡ trim (readable.contents w path))
          × ((q : Bytes) → readable.contents w' q ≡ readable.contents w q))
        (λ e w'. Unit {0})
        (read_trimmed sys path)
        w
unfolding read_trimmed
read_trimmed-Readable sys readable path w =
    Ensures-handle _ _ _ _ (sys.read_file path) _ _ w (read_file-Readable sys readable path w)
      (λ text w' (eq, same). (ap trim eq, λ q. (same q).0)) (λ e w' h. tt)
