-- ===== src/Common/Lists.antt =====
-- Predicates and searches on lists.
use Prim.Native.Nat.{ℕ, suc}
use mathlib.Core.Path.{◌≡◌, refl}
use mathlib.Core.Logic.{◌↔◌, ◌⊎◌, inl, inr}
use native.Mathlib.Omega.{arith}
use mathlib.Core.Bool.{Bool, true, false, ◌||◌}
use mathlib.Core.List.{List, [], ◌∷◌, ◌++◌, map}
use kubecp.Common.Tests.{if◌then◌else◌, Bool-cases}

module _ {ℓ} {A : Type ℓ} where
  abbrev pub length : List A → ℕ
  length [] = 0
  length (x ∷ xs) = suc (length xs)

  abbrev pub any : (A → Bool) → List A → Bool
  any p [] = false
  any p (x ∷ xs) = p x || any p xs

  abbrev pub keep : (A → Bool) → List A → List A
  keep p [] = []
  keep p (x ∷ xs) = if p x then x ∷ keep p xs else keep p xs

pub append_nil {ℓ} : {A : Type ℓ} (xs : List A) → xs ++ [] ≡ xs
append_nil [] = refl
append_nil (x ∷ xs) = rw (append_nil xs)

module _ {ℓ} {A : Type ℓ} (p : A → Bool) where
  pub keep-append : (xs ys : List A) → keep p (xs ++ ys) ≡ keep p xs ++ keep p ys
  keep-append [] ys = refl
  keep-append (x ∷ xs) ys = elim (Bool-cases (p x)) [
    | inl e ↦ rw (e, keep-append xs ys)
    | inr e ↦ rw (e, keep-append xs ys)
  ]

  pub keep-idempotent : (xs : List A) → keep p (keep p xs) ≡ keep p xs
  keep-idempotent [] = refl
  keep-idempotent (x ∷ xs) = elim (Bool-cases (p x)) [
    | inl e ↦ rw (e, e, keep-idempotent xs)
    | inr e ↦ rw (e, keep-idempotent xs)
  ]

  -- A test that no image passes keeps none.
  pub keep-map :
      {B : Type ℓ} (f : B → A)
      → ((b : B) → p (f b) ≡ false)
      → (bs : List B) → keep p (map f bs) ≡ []
  keep-map f h [] = refl
  keep-map f h (b ∷ bs) = rw (h b, keep-map f h bs)

module _ {ℓ κ} {A : Type ℓ} (P : A → Type κ) where
  abbrev pub All : List A → Type κ
  All [] = Unit
  All (x ∷ xs) = P x × All xs

  pub All-append : (xs ys : List A) → All xs → All ys → All (xs ++ ys)
  All-append [] ys h k = k
  All-append (x ∷ xs) ys (p, h) k = (p, All-append xs ys h k)

pub All-mono {ℓ κ} :
    {A : Type ℓ} (P Q : A → Type κ) → ((x : A) → P x → Q x) → (xs : List A) → All P xs → All Q xs
All-mono P Q f [] h = tt
All-mono P Q f (x ∷ xs) (p, h) = (f x p, All-mono P Q f xs h)

module _ {ℓ} {A : Type ℓ} (P : A → Type 0) where
  -- Some element has `P`.
  abbrev pub Any : List A → Type 0
  Any [] = ⊥
  Any (x ∷ xs) = P x ⊎ Any xs

  -- A search by a test that decides `P` finds an element that has it.
  pub any_iff :
      (p : A → Bool) (dec : (x : A) → (p x ≡ true) ↔ P x) (xs : List A) → (any p xs ≡ true) ↔ Any xs
  any_iff p dec [] = ground arith
  any_iff p dec (x ∷ xs) = ground (arith, dec x, any_iff p dec xs)

module _ {ℓ} {A : Type ℓ} (R : A → A → Type 0) where
  -- Every two elements are related, the earlier to the later.
  abbrev pub Pairs : List A → Type 0
  Pairs [] = Unit
  Pairs (x ∷ xs) = All (R x) xs × Pairs xs

  pub Pairs-append :
      (xs ys : List A) → Pairs xs → Pairs ys → All (λ x. All (R x) ys) xs → Pairs (xs ++ ys)
  Pairs-append [] ys h k a = k
  Pairs-append (x ∷ xs) ys (p, h) k (q, a) = (All-append (R x) xs ys p q, Pairs-append xs ys h k a)
