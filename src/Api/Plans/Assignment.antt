-- ===== src/Api/Plans/Assignment.antt =====
-- On `AssignPlan` of hostingplans.go.
use kubecp.Common.Text.{trim_space}
use kubecp.Common.Exec.{
  Exec, Keeps, Keeps-attempt, Keeps-bind, Keeps-bind_known, Keeps-fail_if, Keeps-if, Keeps-on_error,
  Keeps-pure, Keeps-then, Result, err, ok, on_error_ok,
}
use kubecp.Common.{Option, String, [], inl, inr, none, refl, some, ◌≡◌, ◌⊎◌}
use kubecp.Api.Plans.Quotas.{quota_object, range_object}
use kubecp.Api.Plans.Handlers.{
  PlanSettings, apply_limit_range, apply_resource_quota, assign_plan, label_namespace_with_plan,
  labelled, namespace_of, no_plan, put_object, write_object,
}
use kubecp.Api.Plans.Data.{PlanView, limits_of}
use kubecp.Api.Crd.Values.{Fields}
use kubecp.Api.Crd.Owned.Laws.{Called, calling-Keeps, decoded-Keeps}
use kubecp.Api.Crd.Owned.{get_error}
use kubecp.Api.Crd.Client.{
  Call, Dynamic, Namespace, Panel, Resource, Unstructured, calling, core_v1, create_call,
  create_zone_call, create_user_call, list_users_call, set_password_call, delete_call, get_call,
  get_namespace_call, hosting_plans, list_call, put_namespace_call, spec_of, status_call,
  update_call,
}

module _ (d : Dynamic) (id username : String) where
  abbrev pub namespace : String
  namespace = namespace_of username

  -- The server answered a read of the plan with these limits.
  abbrev pub Planned : Option Fields → Type 0
  Planned limits =
      (plan : Unstructured) × (limits ≡ limits_of (spec_of plan))
      × ((s : d.State) × ((d.get hosting_plans none id s).0 ≡ ok plan))

  -- The object that a call writes, its version aside.
  abbrev Same : Unstructured → Unstructured → Type 0
  Same o wanted = (version : String) × (o ≡ record wanted { resource_version = version })

  -- The quota of the namespace for the limits, or its range.
  abbrev pub Wanted : Resource → Unstructured → Type 0
  Wanted r o =
      (limits : Option Fields) × Planned limits
      × (((r ≡ core_v1 "resourcequotas") × Same o (quota_object namespace id limits))
          ⊎ ((r ≡ core_v1 "limitranges") × Same o (range_object namespace id limits)))

  -- The namespace as the server answered with it, and the label.
  abbrev pub Labels : Namespace → Type 0
  Labels n =
      (old : Namespace) × (n ≡ labelled old id)
      × ((s : d.State) × ((d.get_namespace namespace s).0 ≡ ok old))

  abbrev pub Assigned : Call → Type 0
  Assigned (list_call r scope selector) = ⊥
  Assigned (get_call r scope name) = Unit
  Assigned (create_call r scope o) = (scope ≡ some namespace) × Wanted r o
  Assigned (update_call r scope o) = (scope ≡ some namespace) × Wanted r o
  Assigned (status_call r scope o) = ⊥
  Assigned (delete_call r scope name) = ⊥
  Assigned (get_namespace_call name) = name ≡ namespace
  Assigned (put_namespace_call n) = Labels n
  Assigned (create_zone_call zone servers) = ⊥
  Assigned (create_user_call user) = ⊥
  Assigned (list_users_call search) = ⊥
  Assigned (set_password_call user password) = ⊥

  abbrev Keeping : {E A : Type 0} → Exec E (Panel d.State) A → Type 0
  Keeping m = Keeps (Called Assigned) m

  write_object-Keeping :
      (r : Resource) (o : Unstructured) (existing : Result String Unstructured)
      → ((version : String) → Wanted r (record o { resource_version = version }))
      → Keeping (write_object d r namespace o existing)
  unfolding write_object
  write_object-Keeping r o (err e) h =
      Keeps-bind _ _ (calling-Keeps d _ _ _ (refl, h o.resource_version)) (λ created. Keeps-pure _)
  write_object-Keeping r o (ok existing) h =
      Keeps-bind _ _ (calling-Keeps d _ _ _ (refl, h existing.resource_version))
        (λ updated. Keeps-pure _)

  put_object-Keeping :
      (r : Resource) (o : Unstructured)
      → ((version : String) → Wanted r (record o { resource_version = version }))
      → Keeping (put_object d r namespace o)
  unfolding put_object
  put_object-Keeping r o h =
      Keeps-bind _ _ (Keeps-attempt _ (calling-Keeps d _ _ _ tt))
        (λ e. write_object-Keeping r o e h)

  apply_resource_quota-Keeping :
      (h : PlanSettings) (limits : Option Fields)
      → Planned limits
      → Keeping (apply_resource_quota d h namespace id limits)
  unfolding apply_resource_quota
  apply_resource_quota-Keeping h limits p = Keeps-then _ _ (Keeps-fail_if _ _) (
      Keeps-if _ (put_object-Keeping _ _ (λ version. (limits, p, inl (refl, (version, refl)))))
        (Keeps-pure _))

  apply_limit_range-Keeping :
      (h : PlanSettings) (limits : Option Fields)
      → Planned limits
      → Keeping (apply_limit_range d h namespace id limits)
  unfolding apply_limit_range
  apply_limit_range-Keeping h limits p = Keeps-then _ _ (Keeps-fail_if _ _) (
      Keeps-if _ (Keeps-pure _)
        (put_object-Keeping _ _ (λ version. (limits, p, inr (refl, (version, refl))))))

  label_namespace_with_plan-Keeping :
      (h : PlanSettings) → Keeping (label_namespace_with_plan d h namespace id)
  unfolding label_namespace_with_plan calling
  label_namespace_with_plan-Keeping h = Keeps-then _ _ (Keeps-fail_if _ _) (
      Keeps-bind_known _ _ (calling-Keeps d _ _ _ refl)
        (λ w n got. calling-Keeps d _ _ _ (n, refl, (w.state, got))))

module _ (d : Dynamic) (h : PlanSettings) (id asked : String) where
  assign_plan-Keeping :
      Keeps (Called (Assigned d id (trim_space asked))) (assign_plan d h id (some asked))
  unfolding assign_plan calling
  assign_plan-Keeping = decoded-Keeps d _ _ asked _ (
      Keeps-then _ _ (Keeps-fail_if _ _) (
        Keeps-bind_known _ _ (Keeps-on_error _ _ (calling-Keeps d _ _ _ tt)) (λ w plan got.
          let known = on_error_ok (get_error {P = PlanView} no_plan) _ w plan got in
          let p : Planned d id (trim_space asked) (limits_of (spec_of plan)) =
            (plan, refl, (w.state, known)) in
          Keeps-then _ _ (Keeps-on_error _ _ (label_namespace_with_plan-Keeping d id _ h)) (
            Keeps-then _ _ (Keeps-on_error _ _ (apply_resource_quota-Keeping d id _ h _ p)) (
              Keeps-then _ _ (Keeps-on_error _ _ (apply_limit_range-Keeping d id _ h _ p))
                (Keeps-pure _))))))

-- What `AssignPlan` writes: the namespace of the trimmed user name, as it was read and with the
-- plan's label, and in that namespace the quota and the limit range made of the limits that the plan
-- was read with, whatever their version. It lists and deletes nothing.
pub assign_plan-Assigned :
    (d : Dynamic) (h : PlanSettings) (id asked : String) (w : Panel d.State)
    → w.calls ≡ []
    → Called (Assigned d id (trim_space asked)) (assign_plan d h id (some asked) w).1
assign_plan-Assigned d h id asked w fresh = (assign_plan-Keeping d h id asked).at w (rw fresh tt)
