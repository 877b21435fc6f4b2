-- ===== src/Exec.antt =====
-- Fallible code over a shared world: what was written before an error stays written, so the world
-- comes back beside the error too.
pub mod Outcome
use asense.Result.{Result, ok, err}

abbrev pub Exec {ℓ} : Type ℓ → Type ℓ → Type ℓ → Type ℓ
Exec W E A = W → Result E A × W

module _ {ℓ} {W E A : Type ℓ} where
  abbrev pub pure : A → Exec W E A
  pure a w = (ok a, w)

  abbrev pub raise : E → Exec W E A
  raise e w = (err e, w)

  abbrev pub lift : Result E A → Exec W E A
  lift r w = (r, w)

module _ {ℓ} {W E A B : Type ℓ} where
  abbrev pub continue : Result E A → (A → Exec W E B) → Exec W E B
  continue (ok a) f w = f a w
  continue (err e) f w = (err e, w)

  infixl 5 ◌>>=◌ ◌>>◌
  abbrev pub ◌>>=◌ : Exec W E A → (A → Exec W E B) → Exec W E B
  ◌>>=◌ m f w = let (r, w') = m w in continue r f w'

  abbrev pub ◌>>◌ : Exec W E A → Exec W E B → Exec W E B
  m >> n = m >>= λ _. n

module _ {ℓ} {W E F A B : Type ℓ} where
  abbrev pub branch : Result E A → (A → Exec W F B) → (E → Exec W F B) → Exec W F B
  branch (ok a) f g w = f a w
  branch (err e) f g w = g e w

  -- `match m { Ok(a) => f(a), Err(e) => g(e) }`
  abbrev pub handle : Exec W E A → (A → Exec W F B) → (E → Exec W F B) → Exec W F B
  handle m f g w = let (r, w') = m w in branch r f g w'
