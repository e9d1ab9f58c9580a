-- ===== src/Api/Websites/Uids.antt =====
-- On the UIDs that websites.go gives to owners.
use kubecp.Api.Crd.Client.{Unstructured}
use kubecp.Common.{
  Option, negsuc, none, pos, some, suc, to_int32, ℕ, ℤ, ◌<◌, ◌≡◌, ◌≤◌, All, Bool-cases, List, [],
  arith, inl, inr, ltb, refl, ◌∷◌,
}
use kubecp.Api.Websites.Checks.{int32_or_zero, larger, max_uid, next_uid, uid_of}

-- A UID of a website that leaves room for one more int32.
abbrev pub Fits : Option ℤ → Type 0
Fits none = Unit
Fits (some (pos n)) = n < 2147483647
Fits (some (negsuc n)) = n < 2147483648

abbrev pub Below : Option ℤ → ℕ → Type 0
Below none m = Unit
Below (some (pos n)) m = n < m
Below (some (negsuc n)) m = Unit

-- The largest UID so far is a number that an int32 holds.
abbrev Largest : ℤ → ℕ → Type 0
Largest v m = (v ≡ pos m) × (1999 ≤ m) × (m < 2147483647)

to_int32-pos : (n : ℕ) → n < 2147483648 → to_int32 (pos n) ≡ pos n
unfolding to_int32
to_int32-pos n h = ground arith

to_int32-negsuc : (n : ℕ) → n < 2147483648 → to_int32 (negsuc n) ≡ negsuc n
unfolding to_int32
to_int32-negsuc n h = ground arith

larger-Largest :
    (m : ℕ) (uid : Option ℤ)
    → 1999 ≤ m
    → m < 2147483647
    → Fits uid
    → (k : ℕ) × Largest (larger (pos m) (int32_or_zero uid)) k × (m ≤ k) × Below uid (suc k)
larger-Largest m none low high fits = (m, (ground arith, low, high), omega arith, tt)
larger-Largest m (some (pos n)) low high fits = elim (Bool-cases (ltb m n)) [
  | inl e ↦
      rw (to_int32-pos n (omega arith), e)
        (n, (refl, ground arith, fits), ground arith, omega arith)
  | inr e ↦ rw (to_int32-pos n (omega arith), e) (m, (refl, low, high), omega arith, ground arith)
]
larger-Largest m (some (negsuc n)) low high fits =
    rw (to_int32-negsuc n fits) (m, (refl, low, high), omega arith, tt)

Below-mono : (uid : Option ℤ) (m k : ℕ) → m ≤ k → Below uid m → Below uid k
Below-mono none m k h b = tt
Below-mono (some (pos n)) m k h b = omega arith
Below-mono (some (negsuc n)) m k h b = tt

max_uid-Largest :
    (m : ℕ) (l : List Unstructured)
    → 1999 ≤ m
    → m < 2147483647
    → All (λ o. Fits (uid_of o)) l
    → (k : ℕ) × Largest (max_uid (pos m) l) k × (m ≤ k) × All (λ o. Below (uid_of o) (suc k)) l
unfolding max_uid
max_uid-Largest m [] low high fits = (m, (refl, low, high), omega arith, tt)
max_uid-Largest m (o ∷ l) low high fits =
    let (j, (e, jl, jh), mj, below) = larger-Largest m (uid_of o) low high fits.0 in
    let (k, big, jk, rest) = max_uid-Largest j l jl jh fits.1 in
    (k, rw e big, omega arith, (Below-mono (uid_of o) (suc j) (suc k) (omega arith) below, rest))

-- The UID for an owner without websites is at least 2000 and above that of every listed website,
-- as long as none of these is the largest int32.
pub next_uid-Fresh :
    (l : List Unstructured)
    → All (λ o. Fits (uid_of o)) l
    → (m : ℕ) × (next_uid l ≡ pos m) × (2000 ≤ m) × All (λ o. Below (uid_of o) m) l
unfolding next_uid
next_uid-Fresh l fits =
    let (k, (e, low, high), _, below) = max_uid-Largest 1999 l (omega arith) (omega arith) fits in
    (suc k, rw e (to_int32-pos (suc k) (omega arith)), omega arith, below)
