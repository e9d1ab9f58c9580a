-- ===== src/Common/Text/Laws.antt =====
-- Laws of the text functions.
use Prim.Native.Char.{Char}
use Prim.Native.String.{String, [], ◌∷◌, ◌++◌}
use mathlib.Core.Path.{◌≡◌, refl, sym, ap, ◌∙◌}
use mathlib.Core.Logic.{◌↔◌, ◌≢◌, inl, inr}
use mathlib.Core.Bool.{true, false}
use native.Mathlib.Omega.{arith}
use text.Mathlib.Text.{◌==◌ as str_eq}
use text.Mathlib.TextEquality.{eq_iff}
use text.Mathlib.TextPositions.{eq_refl}
use text.Mathlib.TextLemmas.{nil-append, cons-append}
use kubecp.Common.Tests.{Bool-cases}
use kubecp.Common.Text.{has_suffix, is_empty}

has_suffix_self : (t : String) → has_suffix t t ≡ true
unfolding has_suffix
has_suffix_self [] = refl
has_suffix_self (c ∷ t) = rw eq_refl

has_suffix-cons : (c : Char) (s t : String) → has_suffix s t ≡ true → has_suffix (c ∷ s) t ≡ true
unfolding has_suffix
has_suffix-cons c s t h = ground arith

pub has_suffix-append : (p t : String) → has_suffix (p ++ t) t ≡ true
has_suffix-append [] t = rw nil-append (has_suffix_self t)
has_suffix-append (c ∷ p) t = rw cons-append (has_suffix-cons c (p ++ t) t (has_suffix-append p t))

suffix_of_cons :
    (c : Char) (s t : String) → ((p : String) × (s ≡ p ++ t)) → (p : String) × ((c ∷ s) ≡ p ++ t)
suffix_of_cons c s t (p, e) = (c ∷ p, ap (λ (x : String). c ∷ x) e ∙ sym (cons-append c p t))

pub has_suffix_sound : (s t : String) → has_suffix s t ≡ true → (p : String) × (s ≡ p ++ t)
unfolding has_suffix
has_suffix_sound [] t h = ([], (eq_iff [] t).0 h ∙ sym (nil-append t))
has_suffix_sound (c ∷ s) t h = elim (Bool-cases (str_eq (c ∷ s) t)) [
  | inl whole ↦ ([], (eq_iff (c ∷ s) t).0 whole ∙ sym (nil-append t))
  | inr part ↦ suffix_of_cons c s t (has_suffix_sound s t (rw part at h))
]

-- The test holds of exactly the texts that end so.
pub has_suffix_iff : (s t : String) → (has_suffix s t ≡ true) ↔ ((p : String) × (s ≡ p ++ t))
has_suffix_iff s t = (has_suffix_sound s t, λ (p, e). rw e (has_suffix-append p t))

pub is_empty_iff : (s : String) → (is_empty s ≡ true) ↔ (s ≡ "")
is_empty_iff [] = (λ h. refl, λ h. refl)
is_empty_iff (c ∷ s) = (λ h. cc, λ h. cc)

pub str_ne : (s t : String) → s ≢ t → str_eq s t ≡ false
str_ne s t h = ground (arith, eq_iff s t)
