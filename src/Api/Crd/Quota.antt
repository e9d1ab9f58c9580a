-- ===== src/Api/Crd/Quota.antt =====
-- The quota of the first hosting plan, as websites.go compares a count with it; databases.go and
-- emails.go repeat these lines for their own resources and entries of the plan.
pub mod Laws
use kubecp.Http.{text, number, reply, write_quota_exceeded}
use kubecp.Common.Text.{show_int}
use kubecp.Common.Exec.{Result, attempt, err, ok, pure, raise, ◌>>=◌, ◌>>◌}
use kubecp.Common.{
  List, Option, String, [], if◌then◌else◌, le_int, length, lt_int, none, pos, some, ℤ, ◌&&◌, ◌<>◌,
  ◌∷◌,
}
use kubecp.Api.Crd.Values.{Fields, as_map, get, int_or_zero}
use kubecp.Api.Crd.Owned.{Effect, hosting_namespace}
use kubecp.Api.Crd.Client.{Dynamic, Resource, Unstructured, hosting_plans, list_objects, spec_of}

-- `quotaError`
pub record QuotaError : Type 0 where
  pub current : ℤ
  pub limit : ℤ

-- `%d/%d`
abbrev pub out_of : QuotaError → String
out_of e = show_int e.current <> "/" <> show_int e.limit

-- An entry of the limits of a plan.
abbrev limit_in : String → Option Fields → ℤ
limit_in key none = pos 0
limit_in key (some limits) = int_or_zero (get key limits)

abbrev limit_of : String → Option Fields → ℤ
limit_of key none = pos 0
limit_of key (some spec) = limit_in key (as_map (get "limits" spec))

-- The limit of the first plan, 0 where there is none.
unfoldable pub plan_limit : String → Result String (List Unstructured) → ℤ
plan_limit key (err e) = pos 0
plan_limit key (ok []) = pos 0
plan_limit key (ok (plan ∷ l)) = limit_of key (spec_of plan)

unfoldable pub over_quota : ℤ → ℤ → Option QuotaError
over_quota current limit =
    if lt_int (pos 0) limit && le_int limit current
    then some (record { current = current; limit = limit })
    else none

module _ (d : Dynamic) (P : Type 0) where
  -- `getWebsiteLimit`
  unfoldable pub get_limit : String → Effect d P ℤ
  get_limit key = do
    plans ← attempt (list_objects d hosting_plans none "")
    pure (plan_limit key plans)

  -- An error of the list does not count.
  unfoldable pub compare_quota :
      String → Result String (List Unstructured) → Effect d P (Option QuotaError)
  compare_quota key (err e) = pure none
  compare_quota key (ok l) = do limit ← get_limit key; pure (over_quota (pos (length l)) limit)

  -- `checkWebsiteQuota`
  unfoldable pub check_quota : Resource → String → Effect d P (Option QuotaError)
  check_quota r key = do
    l ← attempt (list_objects d r (some hosting_namespace) "")
    compare_quota key l

  -- `WriteQuotaExceeded(w, qErr.Error(), …)`, where the check returned a quota error
  unfoldable pub refuse_quota :
      (QuotaError → String) → String → Option QuotaError → Effect d P (Unit {0})
  refuse_quota show resource none = pure tt
  refuse_quota show resource (some e) = raise (
      reply (
        write_quota_exceeded (show e) (
          some (
            ("resource", text resource)
            ∷ ("current", number e.current)
            ∷ ("limit", number e.limit)
            ∷ []))))
