-- ===== src/Common/Leads.antt =====
-- What an effect leads to from a known state: the rules for one assertion before and one behind.
use mathlib.Core.Bool.{Bool, true, false}
use kubecp.Common.Tests.{if◌then◌else◌}
use kubecp.Common.Exec.{Result, ok, err, Exec, ◌>>=◌, on_error, resume, convert, Keeps}

-- From `P`, `m` leads to `R`, whether it returns or fails.
pub record Leads {ℓ} {E W A : Type ℓ} (P R : W → Type ℓ) (m : Exec E W A) : Type ℓ where
  pub to : (w : W) → P w → R (m w).1

module _ {ℓ} {E W A : Type ℓ} {P R : W → Type ℓ} where
  -- An effect that changes nothing of note.
  pub Leads-weaken : (m : Exec E W A) → ((w : W) → P w → R w) → Keeps P m → Leads P R m
  Leads-weaken m f km = record { to = λ w h. f (m w).1 (km.at w h) }

  pub Leads-if :
      (b : Bool) {m n : Exec E W A} → Leads P R m → Leads P R n → Leads P R (if b then m else n)
  Leads-if true lm ln = lm
  Leads-if false lm ln = ln

module _ {ℓ} {E F W A : Type ℓ} where
  leads_convert : (R : W → Type ℓ) (f : E → F) (s : Result E A × W) → R s.1 → R (convert f s).1
  leads_convert R f (ok a, w) h = h
  leads_convert R f (err e, w) h = h

  pub Leads-on_error :
      {P R : W → Type ℓ} (f : E → F) (m : Exec E W A) → Leads P R m → Leads P R (on_error f m)
  unfolding on_error
  Leads-on_error {P} {R} f m lm = record { to = λ w h. leads_convert R f (m w) (lm.to w h) }

module _ {ℓ} {E W A B : Type ℓ} where
  leads_resume :
      (S R : W → Type ℓ) (f : A → Exec E W B) (s : Result E A × W)
      → S s.1
      → ((a : A) → Leads S R (f a))
      → ((w : W) → S w → R w)
      → R (resume f s).1
  leads_resume S R f (ok a, w) h k g = (k a).to w h
  leads_resume S R f (err e, w) h k g = g w h

  -- A failure between the two calls leaves the middle assertion, which must be enough.
  pub Leads-bind :
      {P S R : W → Type ℓ} (m : Exec E W A) (f : A → Exec E W B)
      → Leads P S m
      → ((a : A) → Leads S R (f a))
      → ((w : W) → S w → R w)
      → Leads P R (m >>= f)
  unfolding ◌>>=◌
  Leads-bind {P} {S} {R} m f lm lf g = record {
    to = λ w h. leads_resume S R f (m w) (lm.to w h) lf g;
  }
