-- ===== src/Api/Websites/Tenants.antt =====
-- On the calls of the handlers of websites.go below a website.
use kubecp.Http.{TokenClaims}
use kubecp.Common.Exec.{
  Keeps, Keeps-attempt, Keeps-bind, Keeps-fail_if, Keeps-on_error, Keeps-pure, Keeps-raise,
  Keeps-then,
}
use kubecp.Common.{List, Option, String, [], inl, none, refl, some, ◌≡◌}
use kubecp.Api.Websites.Specs.{with_phase, with_spec, with_alias, without_alias}
use kubecp.Api.Websites.Routes.{
  WebsiteAction, adds_alias, lists_aliases, reads, reads_stats, removes, removes_alias,
  serve_website, suspends, unsuspends, updates,
}
use kubecp.Api.Websites.Handlers.{
  add_alias, asked_alias, delete_website, get_website, get_website_stats, list_aliases,
  refuse_taken, remove_alias, set_website_phase, store, update_website,
}
use kubecp.Api.Websites.Data.{UpdateWebsiteRequest, WebsiteView}
use kubecp.Api.Websites.Checks.{check_domain_uniqueness}
use kubecp.Api.Crd.Values.{Fields, object}
use kubecp.Api.Crd.Client.{Call, Dynamic, Panel, Unicode, Unstructured, websites}
use kubecp.Api.Crd.Owned.Laws.{
  Called, Allowed, May, Own, calling-Keeps, claims-Keeps, decode_body-Keeps, load_for-Allowed,
  load_owned-Allowed, no_claims-Keeps, no_object-Keeps, spec-SameIdentity, status-SameIdentity,
}
use kubecp.Api.Crd.Owned.{Effect}

module _ (d : Dynamic) (u : Unicode) (claims : TokenClaims) (id : String) where
  abbrev Keeping : {A : Type 0} → Effect d WebsiteView A → Type 0
  Keeping m = Keeps (Called (Allowed d websites claims id)) m

  store-Keeping :
      (o : Unstructured) (m : Fields)
      → Own d websites claims id o
      → Keeping (store d u (with_spec o m))
  unfolding store
  store-Keeping o m own =
      Keeps-on_error _ _
        (calling-Keeps d _ _ _ (refl, refl, (o, own, spec-SameIdentity o (object m))))

  check_domain_uniqueness-Keeping :
      (primary : String) (aliases : List String)
      → Keeping (check_domain_uniqueness d WebsiteView u primary aliases)
  unfolding check_domain_uniqueness
  check_domain_uniqueness-Keeping primary aliases =
      Keeps-bind _ _ (Keeps-attempt _ (calling-Keeps d _ _ _ tt)) (λ sites. Keeps-pure _)

  refuse_taken-Keeping : (clash : Option String) → Keeping (refuse_taken d u clash)
  unfolding refuse_taken
  refuse_taken-Keeping none = Keeps-pure tt
  refuse_taken-Keeping (some s) = Keeps-raise _

  asked_alias-Keeping : (body : Option String) → Keeping (asked_alias d u body)
  unfolding asked_alias
  asked_alias-Keeping body =
      Keeps-bind _ _ (decode_body-Keeps d _ _ body)
        (λ asked. Keeps-then _ _ (Keeps-fail_if _ _) (Keeps-pure _))

  add_alias-Keeping : (body : Option String) → Keeping (add_alias d u (some claims) id body)
  unfolding add_alias with_alias
  add_alias-Keeping body = claims-Keeps d _ _ claims _ (
      Keeps-bind _ _ (asked_alias-Keeping body) (λ alias.
        Keeps-bind _ _ (check_domain_uniqueness-Keeping alias []) (λ clash.
          Keeps-then _ _ (refuse_taken-Keeping clash) (
            load_owned-Allowed d websites claims id _ _ _ (λ o own.
              Keeps-then _ _ (Keeps-fail_if _ _)
                (Keeps-bind _ _ (store-Keeping o _ own) (λ stored. Keeps-pure _)))))))

  remove_alias-Keeping : (body : Option String) → Keeping (remove_alias d u (some claims) id body)
  unfolding remove_alias without_alias
  remove_alias-Keeping body = claims-Keeps d _ _ claims _ (
      Keeps-bind _ _ (asked_alias-Keeping body) (λ alias.
        load_owned-Allowed d websites claims id _ _ _ (λ o own.
          Keeps-then _ _ (Keeps-fail_if _ _)
            (Keeps-then _ _ (store-Keeping o _ own) (Keeps-pure _)))))

  update_website-Keeping :
      (body : Option UpdateWebsiteRequest) → Keeping (update_website d u (some claims) id body)
  unfolding update_website
  update_website-Keeping body = load_for-Allowed d websites claims id _ _ _ (λ o own.
      Keeps-bind _ _ (decode_body-Keeps d _ _ body) (λ req.
        Keeps-then _ _ (Keeps-fail_if _ _)
          (Keeps-bind _ _ (store-Keeping o _ own) (λ stored. Keeps-pure _))))

  delete_website-Keeping : Keeping (delete_website d u (some claims) id)
  unfolding delete_website
  delete_website-Keeping = load_for-Allowed d websites claims id _ _ _ (λ o own.
      Keeps-then _ _ (Keeps-on_error _ _ (calling-Keeps d _ _ _ (refl, refl, refl, (o, own))))
        (Keeps-pure _))

  set_website_phase-Keeping :
      (phase : String) → Keeping (set_website_phase d u (some claims) id phase)
  unfolding set_website_phase with_phase
  set_website_phase-Keeping phase = load_for-Allowed d websites claims id _ _ _ (λ o own.
      Keeps-then _ _
        (Keeps-on_error _ _
          (calling-Keeps d _ _ _ (refl, refl, (o, own, (o, inl refl, status-SameIdentity o _)))))
        (Keeps-pure _))

  serve-Keeping : (a : WebsiteAction) → Keeping (serve_website d u (some claims) id a)
  unfolding serve_website get_website list_aliases get_website_stats
  serve-Keeping reads = load_for-Allowed d websites claims id _ _ _ (λ o own. Keeps-pure _)
  serve-Keeping removes = delete_website-Keeping
  serve-Keeping lists_aliases = load_for-Allowed d websites claims id _ _ _ (λ o own. Keeps-pure _)
  serve-Keeping suspends = set_website_phase-Keeping "Suspended"
  serve-Keeping unsuspends = set_website_phase-Keeping "Running"
  serve-Keeping (updates body) = update_website-Keeping body
  serve-Keeping (adds_alias body) = add_alias-Keeping body
  serve-Keeping (removes_alias body) = remove_alias-Keeping body
  serve-Keeping (reads_stats period) =
      load_for-Allowed d websites claims id _ _ _ (λ o own. Keeps-pure _)

serve_none-Keeps :
    (d : Dynamic) (u : Unicode) (Q : Call → Type 0) (id : String) (a : WebsiteAction)
    → Keeps (Called Q) (serve_website d u none id a)
unfolding serve_website get_website delete_website list_aliases set_website_phase update_website
    add_alias remove_alias get_website_stats
serve_none-Keeps d u Q id reads = no_object-Keeps d _ _ _ _ _ _
serve_none-Keeps d u Q id removes = no_object-Keeps d _ _ _ _ _ _
serve_none-Keeps d u Q id lists_aliases = no_object-Keeps d _ _ _ _ _ _
serve_none-Keeps d u Q id suspends = no_object-Keeps d _ _ _ _ _ _
serve_none-Keeps d u Q id unsuspends = no_object-Keeps d _ _ _ _ _ _
serve_none-Keeps d u Q id (updates body) = no_object-Keeps d _ _ _ _ _ _
serve_none-Keeps d u Q id (adds_alias body) = no_claims-Keeps d _ _ _
serve_none-Keeps d u Q id (removes_alias body) = no_claims-Keeps d _ _ _
serve_none-Keeps d u Q id (reads_stats period) = no_object-Keeps d _ _ _ _ _ _

-- Every call of a handler below /api/websites/{id} only reads, or it changes the website of this
-- name, which the server answered with and which the caller owns, and leaves its kind, name,
-- namespace and labels as they are, or deletes it. Without claims nothing is called.
pub serve_website-Owned :
    (d : Dynamic) (u : Unicode) (c : Option TokenClaims) (id : String) (a : WebsiteAction)
    (w : Panel d.State)
    → w.calls ≡ []
    → Called (May d websites c id) (serve_website d u c id a w).1
serve_website-Owned d u none id a w fresh = (serve_none-Keeps d u _ id a).at w (rw fresh tt)
serve_website-Owned d u (some claims) id a w fresh =
    (serve-Keeping d u claims id a).at w (rw fresh tt)
