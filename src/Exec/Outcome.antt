-- ===== src/Exec/Outcome.antt =====
-- Postconditions of runs: one for the value and one for the error, each with the world left behind.
use asense.Base.{if◌then◌else◌, ◌≡◌, refl, inl, inr, Bool, true, false, arith}
use asense.Result.{Result, ok, err, Result-cases}
use asense.Exec.{Exec, continue, ◌>>=◌, branch, handle}

module _ {W E A : Type 0} where
  abbrev pub Settles : (A → W → Type 0) → (E → W → Type 0) → Result E A → W → Type 0
  Settles P Q (ok a) w = P a w
  Settles P Q (err e) w = Q e w

  abbrev pub Ensures : (A → W → Type 0) → (E → W → Type 0) → Exec W E A → W → Type 0
  Ensures P Q m w = Settles P Q (m w).0 (m w).1

  pub Ensures-cases :
      (P : A → W → Type 0) (Q : E → W → Type 0) (m : Exec W E A) (w : W)
      → ((a : A) → (m w).0 ≡ ok a → P a (m w).1)
      → ((e : E) → (m w).0 ≡ err e → Q e (m w).1)
      → Ensures P Q m w
  Ensures-cases P Q m w good bad = elim (Result-cases (m w).0) [
    | inl (a, e) ↦ rw e (good a e)
    | inr (x, e) ↦ rw e (bad x e)
  ]

  pub Ensures-ok :
      (P : A → W → Type 0) (Q : E → W → Type 0) (m : Exec W E A) (w : W) (a : A)
      → Ensures P Q m w
      → (m w).0 ≡ ok a
      → P a (m w).1
  Ensures-ok P Q m w a h e = settle (m w).0 h e
    where
      settle : (r : Result E A) → Settles P Q r (m w).1 → r ≡ ok a → P a (m w).1
      settle (ok b) h e = let same : a ≡ b = ground arith in rw same h
      settle (err x) h e = ground arith

  -- what holds of the world in either case
  pub Ensures-world :
      (P : W → Type 0) (m : Exec W E A) (w : W)
      → Ensures (λ a w'. P w') (λ e w'. P w') m w
      → P (m w).1
  Ensures-world P m w h = settle (m w).0 h
    where
      settle : (r : Result E A) → Settles (λ a w'. P w') (λ e w'. P w') r (m w).1 → P (m w).1
      settle (ok a) h = h
      settle (err x) h = h

  pub Ensures-mono :
      (P P' : A → W → Type 0) (Q Q' : E → W → Type 0) (m : Exec W E A) (w : W)
      → Ensures P Q m w
      → ((a : A) (w' : W) → P a w' → P' a w')
      → ((e : E) (w' : W) → Q e w' → Q' e w')
      → Ensures P' Q' m w
  Ensures-mono P P' Q Q' m w h good bad = settle (m w).0 (m w).1 h
    where
      settle : (r : Result E A) (w' : W) → Settles P Q r w' → Settles P' Q' r w'
      settle (ok a) w' h = good a w' h
      settle (err x) w' h = bad x w' h

  pub Ensures-if :
      (P : A → W → Type 0) (Q : E → W → Type 0) (b : Bool) (m n : Exec W E A) (w : W)
      → (b ≡ true → Ensures P Q m w)
      → (b ≡ false → Ensures P Q n w)
      → Ensures P Q (if b then m else n) w
  Ensures-if P Q true m n w hm hn = hm refl
  Ensures-if P Q false m n w hm hn = hn refl

module _ {W E A B : Type 0} where
  pub Ensures-bind :
      (P : A → W → Type 0) (Q : E → W → Type 0) (R : B → W → Type 0) (m : Exec W E A)
      (f : A → Exec W E B) (w : W)
      → Ensures P Q m w
      → ((a : A) (w' : W) → P a w' → Ensures R Q (f a) w')
      → Ensures R Q (m >>= f) w
  Ensures-bind P Q R m f w h k = settle (m w).0 (m w).1 h
    where
      settle :
          (r : Result E A) (w' : W)
          → Settles P Q r w'
          → Settles R Q (continue r f w').0 (continue r f w').1
      settle (ok a) w' h = k a w' h
      settle (err x) w' h = h

module _ {W E F A B : Type 0} where
  pub Ensures-handle :
      (P : A → W → Type 0) (Q : E → W → Type 0) (R : B → W → Type 0) (S : F → W → Type 0)
      (m : Exec W E A) (f : A → Exec W F B) (g : E → Exec W F B) (w : W)
      → Ensures P Q m w
      → ((a : A) (w' : W) → P a w' → Ensures R S (f a) w')
      → ((e : E) (w' : W) → Q e w' → Ensures R S (g e) w')
      → Ensures R S (handle m f g) w
  Ensures-handle P Q R S m f g w h good bad = settle (m w).0 (m w).1 h
    where
      settle :
          (r : Result E A) (w' : W)
          → Settles P Q r w'
          → Settles R S (branch r f g w').0 (branch r f g w').1
      settle (ok a) w' h = good a w' h
      settle (err x) w' h = bad x w' h
