-- ===== src/Api/Plans/RoundTrip.antt =====
-- On a new plan of hostingplans.go, read back by the handlers and by the quotas.
use kubecp.Common.Text.{is_empty}
use kubecp.Common.Exec.{ok}
use kubecp.Common.{
  List, String, false, none, refl, str_eq, ◌∷◌, ◌≡◌, ◌⊎◌, Bool-cases, Option, inl, inr, some, ◌∙◌,
}
use kubecp.Api.Plans.Data.{
  CreateHostingPlanRequest, UpdateHostingPlanRequest, new_plan, updated_plan, HostingPlanLimits,
  put_limits, put_name,
}
use kubecp.Api.Crd.Values.{get, or_empty, Fields, get-put}
use kubecp.Api.Crd.Quota.{plan_limit}
use kubecp.Api.Crd.Client.{Unstructured, spec_of}

-- A request that changes the limits.
abbrev pub change : String → HostingPlanLimits → UpdateHostingPlanRequest
change name l = record { display_name = name; limits = some l }

-- The limits that a creation or an update writes into a plan are those that the creation of websites
-- and of databases is then checked against, where the plan is the first of the list.
pub plan_limit-written :
    (req : CreateHostingPlanRequest) (name : String) (l : HostingPlanLimits) (o : Unstructured)
    (plans : List Unstructured)
    → (plan_limit "websites" (ok (new_plan req ∷ plans)) ≡ req.limits.websites)
      × (plan_limit "databases" (ok (new_plan req ∷ plans)) ≡ req.limits.databases)
      × (plan_limit "websites" (ok (updated_plan (change name l) o ∷ plans)) ≡ l.websites)
      × (plan_limit "databases" (ok (updated_plan (change name l) o ∷ plans)) ≡ l.databases)
unfolding plan_limit new_plan updated_plan get
plan_limit-written req name l o plans = (refl, refl, rw get-put refl, rw get-put refl)

put_name-other :
    (name key : String) (m : Fields)
    → str_eq "displayName" key ≡ false
    → get key (put_name name m) ≡ get key m
put_name-other name key m h = elim (Bool-cases (is_empty name)) [
  | inl e ↦ rw e refl
  | inr e ↦ rw (e, get-put, h) refl
]

put_limits-other :
    (l : Option HostingPlanLimits) (key : String) (m : Fields)
    → (str_eq "limits" key ≡ false) ⊎ (l ≡ none)
    → get key (put_limits l m) ≡ get key m
put_limits-other none key m h = refl
put_limits-other (some l) key m (inl h) = rw (get-put, h) refl
put_limits-other (some l) key m (inr h) = cc

-- An update keeps every entry of a plan's spec but the display name and the limits, and the limits
-- as well where the request has none.
updated_plan-other :
    (req : UpdateHostingPlanRequest) (o : Unstructured) (key : String)
    → str_eq "displayName" key ≡ false
    → (str_eq "limits" key ≡ false) ⊎ (req.limits ≡ none)
    → get key (or_empty (spec_of (updated_plan req o))) ≡ get key (or_empty (spec_of o))
unfolding updated_plan
updated_plan-other req o key h k =
    put_limits-other req.limits key _ k ∙ put_name-other req.display_name key _ h
