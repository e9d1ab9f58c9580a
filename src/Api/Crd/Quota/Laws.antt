-- ===== src/Api/Crd/Quota/Laws.antt =====
-- On the comparison with the quota of the first hosting plan.
use kubecp.Http.{Exit}
use kubecp.Common.Exec.{
  Keeps, Keeps-attempt, Keeps-bind, Keeps-pure, Result, attempt, attempt_ok, bind_ok, err, ok,
  ok-injective, pure, raise, ◌>>◌,
}
use kubecp.Common.{
  List, Option, String, arith, inl, inr, le_int, length, lt_int, negsuc, none, pos, refl, some,
  true, ℤ, ◌≡◌, ◌⊎◌,
}
use kubecp.Api.Crd.Quota.{
  QuotaError, check_quota, compare_quota, get_limit, over_quota, plan_limit, refuse_quota,
}
use kubecp.Api.Crd.Owned.{Effect, hosting_namespace}
use kubecp.Api.Crd.Client.{
  Call, Dynamic, Panel, Resource, Unstructured, calling, hosting_plans, list_call, list_objects,
}
use kubecp.Api.Crd.Owned.Laws.{Called, calling-Keeps}

-- The limit is not reached, or there is none; a list that failed is not looked at.
abbrev pub Unfilled :
    String → Result String (List Unstructured) → Result String (List Unstructured) → Type 0
Unfilled key (err e) plans = Unit
Unfilled key (ok l) plans =
    (le_int (plan_limit key plans) (pos 0) ≡ true)
    ⊎ (lt_int (pos (length l)) (plan_limit key plans) ≡ true)

not_over :
    (current limit : ℤ)
    → over_quota current limit ≡ none
    → (le_int limit (pos 0) ≡ true) ⊎ (lt_int current limit ≡ true)
unfolding over_quota
not_over (pos m) (pos n) h = ground arith
not_over (pos m) (negsuc n) h = inl refl
not_over (negsuc m) (pos n) h = inr refl
not_over (negsuc m) (negsuc n) h = inl refl

module _ (d : Dynamic) (P : Type 0) (r : Resource) (key : String) where
  abbrev plans_at : d.State → Result String (List Unstructured)
  plans_at s = (d.list hosting_plans none "" s).0

  -- The server's lists of the resource and of the plans leave room, each at its time.
  abbrev pub HasRoom : Type 0
  HasRoom =
      (s : d.State) × (t : d.State) × Unfilled key (d.list r (some hosting_namespace) "" s).0
        (d.list hosting_plans none "" t).0

  limit_known :
      (w : Panel d.State) (limit : ℤ)
      → (get_limit d P key w).0 ≡ ok limit
      → plan_limit key (plans_at w.state) ≡ limit
  unfolding get_limit calling pure
  limit_known w limit h =
      let (plans, got, rest) = bind_ok _ _ w limit h in
      let known = attempt_ok {F = Exit P} _ w plans got in rw known (ok-injective rest)

  quota_seen :
      (l : Result String (List Unstructured)) (w : Panel d.State)
      → (compare_quota d P key l w).0 ≡ ok none
      → Unfilled key l (plans_at w.state)
  unfolding compare_quota pure
  quota_seen (err e) w h = tt
  quota_seen (ok l) w h =
      let (limit, got, rest) = bind_ok _ _ w none h in
      rw (limit_known w limit got) (not_over _ _ (ok-injective rest))

  -- A check that finds no excess has seen room.
  pub check_quota-HasRoom : (w : Panel d.State) → (check_quota d P r key w).0 ≡ ok none → HasRoom
  unfolding check_quota calling
  check_quota-HasRoom w h =
      let (l, got, rest) = bind_ok _ _ w none h in
      let known = attempt_ok {F = Exit P} _ w l got in
      (
        w.state,
        (attempt {F = Exit P} (list_objects d r (some hosting_namespace) "") w).1.state,
        rw known (quota_seen l _ rest),
      )

  module _ (Q : Call → Type 0)
      (reads : (r' : Resource) (scope : Option String) (s : String)
        → Q (list_call r' scope s)) where
    compare_quota-Keeps :
        (l : Result String (List Unstructured)) → Keeps (Called Q) (compare_quota d P key l)
    unfolding compare_quota get_limit
    compare_quota-Keeps (err e) = Keeps-pure _
    compare_quota-Keeps (ok l) =
        Keeps-bind _ _
          (Keeps-bind _ _ (Keeps-attempt _ (calling-Keeps d Q _ _ (reads _ _ _)))
            (λ plans. Keeps-pure _))
          (λ limit. Keeps-pure _)

    pub check_quota-Keeps : Keeps (Called Q) (check_quota d P r key)
    unfolding check_quota
    check_quota-Keeps =
        Keeps-bind _ _ (Keeps-attempt _ (calling-Keeps d Q _ _ (reads _ _ _))) compare_quota-Keeps

pub refuse_quota-Keeps :
    (d : Dynamic) (P : Type 0) (I : Panel d.State → Type 0) {B : Type 0}
    (show : QuotaError → String) (resource : String) (q : Option QuotaError) (m : Effect d P B)
    → (q ≡ none → Keeps I m)
    → Keeps I (refuse_quota d P show resource q >> m)
unfolding refuse_quota ◌>>◌ pure raise
refuse_quota-Keeps d P I show resource none m k = record { at = λ w h. (k refl).at w h }
refuse_quota-Keeps d P I show resource (some e) m k = record { at = λ w h. h }
