-- ===== src/Api/Websites/Domains.antt =====
-- On the check of domains in websites.go.
use kubecp.Common.Text.{equal_fold_by, fold_case}
use kubecp.Common.{
  All, Char, List, Option, Pairs, String, [], any, arith, eq_iff, false, none, refl, some, true,
  ◌↔◌, ◌∷◌, ◌≡◌, Pairs-append, sym, ◌++◌,
}
use kubecp.Api.Crd.Values.{Fields}
use kubecp.Api.Crd.Client.{Unstructured, spec_of}
use kubecp.Api.Websites.Checks.{taken, domains_of, taken_in, taken_at}

-- `strings.EqualFold`
abbrev pub Same : (Char → Char) → String → String → Type 0
Same fold s t = fold_case fold s ≡ fold_case fold t

-- No domain of the one list is also in the other, up to case.
abbrev pub Apart : (Char → Char) → List String → List String → Type 0
Apart fold xs ys = All (λ x. All (λ y. ¬ Same fold x y) ys) xs

-- The domains of a website, primary and aliases.
abbrev pub site_domains : Option Fields → List String
site_domains none = []
site_domains (some spec) = domains_of spec

-- Any two websites of a list are apart.
abbrev pub Distinct : (Char → Char) → List Unstructured → Type 0
Distinct fold = Pairs (λ a b. Apart fold (site_domains (spec_of a)) (site_domains (spec_of b)))

module _ (fold : Char → Char) where
  equal_fold_iff : (s t : String) → (equal_fold_by fold s t ≡ true) ↔ Same fold s t
  unfolding equal_fold_by
  equal_fold_iff s t = eq_iff (fold_case fold s) (fold_case fold t)

  any-false_iff :
      (s : String) (l : List String)
      → (any (equal_fold_by fold s) l ≡ false) ↔ All (λ y. ¬ Same fold s y) l
  any-false_iff s [] = (λ h. tt, λ h. refl)
  any-false_iff s (y ∷ l) = ground (arith, equal_fold_iff s y, any-false_iff s l)

  taken_in-none_iff :
      (existing checks : List String)
      → (taken_in fold existing checks ≡ none) ↔ Apart fold checks existing
  unfolding taken_in
  taken_in-none_iff existing [] = (λ h. tt, λ h. refl)
  taken_in-none_iff existing (c ∷ checks) =
      ground (arith, any-false_iff c existing, taken_in-none_iff existing checks)

  Apart-nil : (xs : List String) → Apart fold xs []
  Apart-nil [] = tt
  Apart-nil (x ∷ xs) = (tt, Apart-nil xs)

  taken_at-none_iff :
      (checks : List String) (spec : Option Fields) (next : Option String)
      → (taken_at fold checks spec next ≡ none)
        ↔ (Apart fold checks (site_domains spec) × (next ≡ none))
  taken_at-none_iff checks none next = (λ h. (Apart-nil checks, h), λ h. h.1)
  taken_at-none_iff checks (some spec) next =
      ground (arith, taken_in-none_iff (domains_of spec) checks)

  -- The check passes exactly if no domain of the request is one of a listed website's domains,
  -- primary or alias, up to case.
  pub taken-none_iff :
      (checks : List String) (sites : List Unstructured)
      → (taken fold checks sites ≡ none)
        ↔ All (λ o. Apart fold checks (site_domains (spec_of o))) sites
  unfolding taken
  taken-none_iff checks [] = (λ h. tt, λ h. refl)
  taken-none_iff checks (o ∷ sites) =
      let (f, g) = taken_at-none_iff checks (spec_of o) (taken fold checks sites) in
      let (f', g') = taken-none_iff checks sites in
      (λ h. ((f h).0, f' (f h).1), λ h. g (h.0, g' h.1))

  Apart-cons :
      (x : String) (ys xs : List String)
      → All (λ y. ¬ Same fold x y) ys
      → Apart fold ys xs
      → Apart fold ys (x ∷ xs)
  Apart-cons x [] xs h k = tt
  Apart-cons x (y ∷ ys) xs h k = ((λ e. h.0 (sym e), k.0), Apart-cons x ys xs h.1 k.1)

  Apart-symm : (xs ys : List String) → Apart fold xs ys → Apart fold ys xs
  Apart-symm [] ys h = Apart-nil ys
  Apart-symm (x ∷ xs) ys h = Apart-cons x ys xs h.0 (Apart-symm xs ys h.1)

  Apart-site :
      (xs : List String) (o : Unstructured) (sites : List Unstructured)
      → site_domains (spec_of o) ≡ xs
      → All (λ p. Apart fold xs (site_domains (spec_of p))) sites
      → All
          (λ p.
            All (λ q. Apart fold (site_domains (spec_of p)) (site_domains (spec_of q))) (o ∷ []))
          sites
  Apart-site xs o [] e h = tt
  Apart-site xs o (p ∷ sites) e h =
      ((rw e (Apart-symm xs (site_domains (spec_of p)) h.0), tt), Apart-site xs o sites e h.1)

  -- A website whose domains passed the check may join the listed ones: the domains of any two
  -- websites stay apart.
  pub taken-Distinct :
      (checks : List String) (sites : List Unstructured) (o : Unstructured)
      → site_domains (spec_of o) ≡ checks
      → taken fold checks sites ≡ none
      → Distinct fold sites
      → Distinct fold (sites ++ o ∷ [])
  taken-Distinct checks sites o e h k =
      Pairs-append _ sites (o ∷ []) k (tt, tt)
        (Apart-site checks o sites e ((taken-none_iff checks sites).0 h))
