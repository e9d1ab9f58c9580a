-- ===== src/Common/Exec.antt =====
-- Effects: a call reads and changes a world, and returns a value or fails. What was done before a
-- failure stays done.
use mathlib.Core.Path.{◌≡◌, refl}
use mathlib.Core.Bool.{Bool, true, false, false≢true}
use kubecp.Common.Tests.{if◌then◌else◌}

pub data Result {ℓ} (E A : Type ℓ) : Type ℓ where
  ok : A → Result E A
  err : E → Result E A

abbrev pub Exec {ℓ} : Type ℓ → Type ℓ → Type ℓ → Type ℓ
Exec E W A = W → Result E A × W

module _ {ℓ} {E W A : Type ℓ} where
  unfoldable pub pure : A → Exec E W A
  pure a w = (ok a, w)

  unfoldable pub raise : E → Exec E W A
  raise e w = (err e, w)

  unfoldable pub lift : Result E A → Exec E W A
  lift r w = (r, w)

module _ {ℓ} {E W A B : Type ℓ} where
  -- how a bind goes on from the outcome of its first call
  abbrev pub resume : (A → Exec E W B) → Result E A × W → Result E B × W
  resume f (ok a, w) = f a w
  resume f (err e, w) = (err e, w)

infixl 5 ◌>>=◌ ◌>>◌
unfoldable pub ◌>>=◌ {ℓ} : {E W A B : Type ℓ} → Exec E W A → (A → Exec E W B) → Exec E W B
◌>>=◌ m f w = resume f (m w)

unfoldable pub ◌>>◌ {ℓ} : {E W A B : Type ℓ} → Exec E W A → Exec E W B → Exec E W B
unfolding ◌>>=◌
m >> k = m >>= λ _. k

module _ {ℓ} {E F W A : Type ℓ} where
  abbrev pub convert : (E → F) → Result E A × W → Result F A × W
  convert f (ok a, w) = (ok a, w)
  convert f (err e, w) = (err (f e), w)

  -- `if err != nil { … }`, with the caller's own error
  unfoldable pub on_error : (E → F) → Exec E W A → Exec F W A
  on_error f m w = convert f (m w)

  -- `_ = call(…)`: the error is dropped
  unfoldable pub ignore : Exec E W A → Exec F W (Unit {ℓ})
  ignore m w = (ok tt, (m w).1)

module _ {ℓ} {E F W A : Type ℓ} where
  -- `v, err := call(…)`, where the caller looks at the error and goes on.
  unfoldable pub attempt : Exec E W A → Exec F W (Result E A)
  attempt m w = (ok (m w).0, (m w).1)

-- An early return under a condition.
unfoldable pub fail_if {ℓ} : {E W : Type ℓ} → Bool → E → Exec E W (Unit {ℓ})
fail_if true e w = (err e, w)
fail_if false e w = (ok tt, w)

-- `m` keeps `P`, whether it returns or fails.
pub record Keeps {ℓ} {E W A : Type ℓ} (P : W → Type ℓ) (m : Exec E W A) : Type ℓ where
  pub at : (w : W) → P w → P (m w).1

module _ {ℓ} {E W A : Type ℓ} {P : W → Type ℓ} where
  pub Keeps-pure : (a : A) → Keeps P (pure {E = E} a)
  unfolding pure
  Keeps-pure a = record { at = λ w h. h }

  pub Keeps-raise : (e : E) → Keeps P (raise {A = A} e)
  unfolding raise
  Keeps-raise e = record { at = λ w h. h }

  pub Keeps-lift : (r : Result E A) → Keeps P (lift r)
  unfolding lift
  Keeps-lift r = record { at = λ w h. h }

module _ {ℓ} {E W : Type ℓ} {P : W → Type ℓ} where
  pub Keeps-fail_if : (b : Bool) (e : E) → Keeps P (fail_if b e)
  unfolding fail_if
  Keeps-fail_if true e = record { at = λ w h. h }
  Keeps-fail_if false e = record { at = λ w h. h }

-- Behind an early return, its condition is known to be false.
pub Keeps-unless {ℓ} :
    {E W A : Type ℓ} {P : W → Type ℓ} (b : Bool) (e : E) (m : Exec E W A)
    → (b ≡ false → Keeps P m)
    → Keeps P (fail_if b e >> m)
unfolding fail_if ◌>>◌
Keeps-unless true e m k = record { at = λ w h. h }
Keeps-unless false e m k = record { at = λ w h. (k refl).at w h }

-- A branch keeps what both of its sides keep.
pub Keeps-if {ℓ} :
    {E W A : Type ℓ} {P : W → Type ℓ} (b : Bool) {m n : Exec E W A}
    → Keeps P m
    → Keeps P n
    → Keeps P (if b then m else n)
Keeps-if true km kn = km
Keeps-if false km kn = kn

-- Of a branch whose test is known to hold, the first side counts.
pub Keeps-if_true {ℓ} :
    {E W A : Type ℓ} {P : W → Type ℓ} (b : Bool) {m : Exec E W A} (n : Exec E W A)
    → b ≡ true
    → Keeps P m
    → Keeps P (if b then m else n)
Keeps-if_true true n e km = km
Keeps-if_true false n e km = absurd (false≢true e)

module _ {ℓ} {E F W A : Type ℓ} where
  keeps_convert : (P : W → Type ℓ) (f : E → F) (s : Result E A × W) → P s.1 → P (convert f s).1
  keeps_convert P f (ok a, w) h = h
  keeps_convert P f (err e, w) h = h

module _ {ℓ} {E F W A : Type ℓ} {P : W → Type ℓ} where
  pub Keeps-on_error : (f : E → F) (m : Exec E W A) → Keeps P m → Keeps P (on_error f m)
  unfolding on_error
  Keeps-on_error f m k = record { at = λ w h. keeps_convert P f (m w) (k.at w h) }

  pub Keeps-ignore : (m : Exec E W A) → Keeps P m → Keeps P (ignore {F = F} m)
  unfolding ignore
  Keeps-ignore m k = record { at = λ w h. k.at w h }

  pub Keeps-attempt : (m : Exec E W A) → Keeps P m → Keeps P (attempt {F = F} m)
  unfolding attempt
  Keeps-attempt m k = record { at = λ w h. k.at w h }

module _ {ℓ} {E W A B : Type ℓ} {P : W → Type ℓ} where
  keeps_resume :
      (f : A → Exec E W B) (s : Result E A × W)
      → P s.1
      → ((a : A) → Keeps P (f a))
      → P (resume f s).1
  keeps_resume f (ok a, w) h k = (k a).at w h
  keeps_resume f (err e, w) h k = h

  pub Keeps-then : (m : Exec E W A) (k : Exec E W B) → Keeps P m → Keeps P k → Keeps P (m >> k)
  unfolding ◌>>◌
  Keeps-then m k km kk = record { at = λ w h. keeps_resume (λ _. k) (m w) (km.at w h) (λ _. kk) }

  pub Keeps-bind :
      (m : Exec E W A) (f : A → Exec E W B)
      → Keeps P m
      → ((a : A) → Keeps P (f a))
      → Keeps P (m >>= f)
  unfolding ◌>>=◌
  Keeps-bind m f km kf = record { at = λ w h. keeps_resume f (m w) (km.at w h) kf }

-- The rest of a block may use what is known of the value that the first call returned.
module _ {ℓ} {E W A B : Type ℓ} {P : W → Type ℓ} where
  keeps_resume_known :
      (f : A → Exec E W B) (s : Result E A × W)
      → P s.1
      → ((a : A) → s.0 ≡ ok a → Keeps P (f a))
      → P (resume f s).1
  keeps_resume_known f (ok a, w) h k = (k a refl).at w h
  keeps_resume_known f (err e, w) h k = h

  pub Keeps-bind_known :
      (m : Exec E W A) (f : A → Exec E W B)
      → Keeps P m
      → ((w : W) (a : A) → (m w).0 ≡ ok a → Keeps P (f a))
      → Keeps P (m >>= f)
  unfolding ◌>>=◌
  Keeps-bind_known m f km kf = record { at = λ w h. keeps_resume_known f (m w) (km.at w h) (kf w) }

-- A call whose error is replaced returns what it returned.
module _ {ℓ} {E F W A : Type ℓ} where
  convert_ok : (f : E → F) (s : Result E A × W) (a : A) → (convert f s).0 ≡ ok a → s.0 ≡ ok a
  convert_ok f (ok b, w) a h = cc
  convert_ok f (err e, w) a h = cc

  pub on_error_ok :
      (f : E → F) (m : Exec E W A) (w : W) (a : A) → (on_error f m w).0 ≡ ok a → (m w).0 ≡ ok a
  unfolding on_error
  on_error_ok f m w a h = convert_ok f (m w) a h

-- A block that returns has returned at its first call.
module _ {ℓ} {E W A B : Type ℓ} where
  resume_ok :
      (f : A → Exec E W B) (s : Result E A × W) (b : B)
      → (resume f s).0 ≡ ok b
      → (a : A) × (s.0 ≡ ok a) × ((f a s.1).0 ≡ ok b)
  resume_ok f (ok a, w) b h = (a, refl, h)
  resume_ok f (err e, w) b h = cc

  pub bind_ok :
      (m : Exec E W A) (f : A → Exec E W B) (w : W) (b : B)
      → ((m >>= f) w).0 ≡ ok b
      → (a : A) × ((m w).0 ≡ ok a) × ((f a (m w).1).0 ≡ ok b)
  unfolding ◌>>=◌
  bind_ok m f w b h = resume_ok f (m w) b h

-- What an attempt returns is the call's own outcome.
pub attempt_ok {ℓ} :
    {E F W A : Type ℓ} (m : Exec E W A) (w : W) (r : Result E A)
    → (attempt {F = F} m w).0 ≡ ok r
    → (m w).0 ≡ r
unfolding attempt
attempt_ok m w r h = cc

pub ok-injective {ℓ} : {E A : Type ℓ} {a b : A} → ◌≡◌ {A = Result E A} (ok a) (ok b) → a ≡ b
ok-injective h = cc

-- An effect that returned got past its early return.
pub unless_ok {ℓ} :
    {E W A : Type ℓ} (b : Bool) (e : E) (m : Exec E W A) (w : W) (a : A)
    → ((fail_if b e >> m) w).0 ≡ ok a
    → (b ≡ false) × ((m w).0 ≡ ok a)
unfolding fail_if ◌>>◌
unless_ok true e m w a h = cc
unless_ok false e m w a h = (refl, h)

-- What follows an effect may rely on its having returned.
pub Keeps-then_known {ℓ} :
    {E W A B : Type ℓ} {P : W → Type ℓ} (m : Exec E W A) (k : Exec E W B)
    → Keeps P m
    → ((w : W) (a : A) → (m w).0 ≡ ok a → Keeps P k)
    → Keeps P (m >> k)
unfolding ◌>>◌
Keeps-then_known m k km f = Keeps-bind_known m (λ a. k) km f
