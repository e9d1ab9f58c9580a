-- ===== src/Api/Websites/Creation.antt =====
-- On `CreateWebsite` of websites.go.
use kubecp.Api.Crd.Quota.Laws.{HasRoom, check_quota-HasRoom, check_quota-Keeps, refuse_quota-Keeps}
use kubecp.Api.Websites.Handlers.{
  WebsiteSettings, add_email_domain, add_zone, create_website, refuse_taken,
}
use kubecp.Http.{TokenClaims, Exit}
use kubecp.Common.Text.{is_empty}
use kubecp.Common.Exec.{
  Keeps, Result, err, ok, attempt_ok, bind_ok, pure, Keeps-attempt, Keeps-bind, Keeps-if,
  Keeps-ignore, Keeps-pure, attempt, ok-injective, raise, ◌>>◌, Keeps-bind_known, Keeps-on_error,
  Keeps-then, Keeps-unless,
}
use kubecp.Common.{
  All, Char, List, String, false, none, some, true, ℤ, ◌<>◌, ◌∷◌, ◌≡◌, ◌⊎◌, inl, inr, refl, Option,
  ◌&&◌, [], ap, ◌∙◌, not-false,
}
use kubecp.Api.Websites.Specs.{completed, is_php_version, new_email_domain, new_website}
use kubecp.Api.Websites.Domains.{Apart, site_domains, taken-none_iff}
use kubecp.Api.Websites.Data.{CreateWebsiteRequest, WebsiteView}
use kubecp.Api.Websites.Checks.{
  check_domain_uniqueness, clash_text, fresh_uid, resolve_owner_uid, taken_among, or_fresh,
  reuse_or_fresh, reused_uid,
}
use kubecp.Api.Crd.Owned.{Effect, hosting_namespace}
use kubecp.Api.Crd.Client.{
  Call, Dynamic, Panel, Unicode, Unstructured, create_call, create_zone_call, create_user_call,
  list_users_call, set_password_call, delete_call, email_domains, get_call, get_namespace_call,
  list_call, put_namespace_call, status_call, update_call, websites, calling, Resource,
  list_objects, spec_of,
}
use kubecp.Api.Crd.Owned.Laws.{Called, calling-Keeps, claims-Keeps, decoded-Keeps}

-- None of the domains belongs to a website of the answer; a list that failed is not looked at.
abbrev pub Unused : (Char → Char) → List String → Result String (List Unstructured) → Type 0
Unused fold checks (err e) = Unit
Unused fold checks (ok sites) = All (λ o. Apart fold checks (site_domains (spec_of o))) sites

clash_none : (u : Unicode) (o : Option String) → clash_text u o ≡ none → o ≡ none
clash_none u none h = refl
clash_none u (some s) h = cc

module _ (d : Dynamic) (u : Unicode) (claims : TokenClaims) (asked : CreateWebsiteRequest) where
  abbrev pub request : CreateWebsiteRequest
  request = completed asked

  abbrev pub sites_at : d.State → Result String (List Unstructured)
  sites_at s = (d.list websites (some hosting_namespace) "" s).0

  -- What the checks before the creation have found, each at the time of its list.
  pub record Checked : Type 0 where
    pub has_domain : is_empty request.primary_domain ≡ false
    pub good_php : is_php_version request.php ≡ true
    pub has_room : HasRoom d WebsiteView websites "websites"
    pub unused :
        (s : d.State) × Unused u.fold (request.primary_domain ∷ request.aliases) (sites_at s)

  abbrev pub Admitted : Call → Type 0
  Admitted (list_call r scope selector) = Unit
  Admitted (create_call r scope o) =
      (scope ≡ some hosting_namespace)
      × (((r ≡ websites) × ((uid : ℤ) × (o ≡ new_website request claims.username uid)) × Checked)
          ⊎ ((r ≡ email_domains) × (o ≡ new_email_domain request.primary_domain claims.username)))
  Admitted (create_zone_call zone servers) = zone ≡ request.primary_domain <> "."
  Admitted (create_user_call user) = ⊥
  Admitted (list_users_call search) = ⊥
  Admitted (set_password_call user password) = ⊥
  Admitted (get_call r scope name) = ⊥
  Admitted (update_call r scope o) = ⊥
  Admitted (status_call r scope o) = ⊥
  Admitted (delete_call r scope name) = ⊥
  Admitted (get_namespace_call name) = ⊥
  Admitted (put_namespace_call n) = ⊥

  abbrev Keeping : {A : Type 0} → Effect d WebsiteView A → Type 0
  Keeping m = Keeps (Called Admitted) m

  Unused-of :
      (sites : Result String (List Unstructured))
      → clash_text u (taken_among u.fold (request.primary_domain ∷ request.aliases) sites) ≡ none
      → Unused u.fold (request.primary_domain ∷ request.aliases) sites
  Unused-of (err e) h = tt
  Unused-of (ok l) h = (taken-none_iff u.fold _ l).0 (clash_none u _ h)

  clash_known :
      (w : Panel d.State)
      → (check_domain_uniqueness d WebsiteView u request.primary_domain request.aliases w).0
        ≡ ok none
      → (s : d.State) × Unused u.fold (request.primary_domain ∷ request.aliases) (sites_at s)
  unfolding check_domain_uniqueness calling pure
  clash_known w h =
      let (sites, got, rest) = bind_ok _ _ w none h in
      let known = attempt_ok {F = Exit WebsiteView} _ w sites got in
      (w.state, rw known (Unused-of sites (ok-injective rest)))

  reads-Keeping :
      (r : Resource) (scope : Option String) (selector : String)
      → Keeping (attempt (list_objects d r scope selector))
  reads-Keeping r scope selector = Keeps-attempt _ (calling-Keeps d _ _ _ tt)

  check_domain_uniqueness-Keeping :
      (primary : String) (aliases : List String)
      → Keeping (check_domain_uniqueness d WebsiteView u primary aliases)
  unfolding check_domain_uniqueness
  check_domain_uniqueness-Keeping primary aliases =
      Keeps-bind _ _ (reads-Keeping _ _ _) (λ sites. Keeps-pure _)

  fresh_uid-Keeping : Keeping (fresh_uid d WebsiteView)
  unfolding fresh_uid
  fresh_uid-Keeping = Keeps-bind _ _ (reads-Keeping _ _ _) (λ sites. Keeps-pure _)

  or_fresh-Keeping : (uid : Option ℤ) → Keeping (or_fresh d WebsiteView uid)
  or_fresh-Keeping none = fresh_uid-Keeping
  or_fresh-Keeping (some uid) = Keeps-pure uid

  reuse_or_fresh-Keeping :
      (mine : Result String (List Unstructured)) → Keeping (reuse_or_fresh d WebsiteView mine)
  reuse_or_fresh-Keeping (err e) = Keeps-pure _
  reuse_or_fresh-Keeping (ok l) = or_fresh-Keeping (reused_uid l)

  resolve_owner_uid-Keeping : Keeping (resolve_owner_uid d WebsiteView claims.username)
  unfolding resolve_owner_uid
  resolve_owner_uid-Keeping = Keeps-bind _ _ (reads-Keeping _ _ _) reuse_or_fresh-Keeping

  refuse_taken-Keeping :
      {B : Type 0} (clash : Option String) (m : Effect d WebsiteView B)
      → (clash ≡ none → Keeping m)
      → Keeping (refuse_taken d u clash >> m)
  unfolding refuse_taken ◌>>◌ pure raise
  refuse_taken-Keeping none m k = record { at = λ w h. (k refl).at w h }
  refuse_taken-Keeping (some s) m k = record { at = λ w h. h }

  add_zone-Keeping : (h : WebsiteSettings) → Keeping (add_zone d u h request)
  unfolding add_zone
  add_zone-Keeping h =
      Keeps-if (request.create_dns_zone && h.has_dns) (Keeps-ignore _ (calling-Keeps d _ _ _ refl))
        (Keeps-pure tt)

  add_email_domain-Keeping : Keeping (add_email_domain d u request claims.username)
  unfolding add_email_domain
  add_email_domain-Keeping =
      Keeps-if request.create_email_domain
        (Keeps-ignore _ (calling-Keeps d _ _ _ (refl, inr (refl, refl)))) (Keeps-pure tt)

  create_website-Keeping :
      (h : WebsiteSettings) → Keeping (create_website d u h (some claims) (some asked))
  unfolding create_website
  create_website-Keeping h = claims-Keeps d _ _ claims _ (
      decoded-Keeps d _ _ asked _ (
        Keeps-unless _ _ _ (λ domain. Keeps-unless _ _ _ (λ php.
          Keeps-bind_known _ _ (check_quota-Keeps d _ _ _ _ (λ r s t. tt)) (λ w q quota.
            refuse_quota-Keeps d _ _ _ _ q _ (λ fits.
              Keeps-bind_known _ _ (check_domain_uniqueness-Keeping _ _) (λ w' clash seen.
                refuse_taken-Keeping clash _ (λ free.
                  Keeps-bind _ _ resolve_owner_uid-Keeping (λ uid.
                    Keeps-bind _ _
                      (Keeps-on_error _ _ (
                        calling-Keeps d _ _ _ (
                          refl,
                          inl (
                            refl,
                            (uid, refl),
                            record {
                              has_domain = domain;
                              good_php = not-false _ php;
                              has_room =
                                  check_quota-HasRoom d WebsiteView websites "websites" w
                                    (quota ∙ ap ok fits);
                              unused = clash_known w' (seen ∙ ap ok free);
                            },
                          ),
                        )))
                      (λ created.
                        Keeps-then _ _ (add_zone-Keeping h)
                          (Keeps-then _ _ add_email_domain-Keeping (Keeps-pure _))))))))))))

-- What `CreateWebsite` calls: lists; the creation of the requested website, completed and for the
-- caller, after the name and the PHP version were found good, the first plan's limit not reached and
-- none of the domains in use, as far as the lists could be read; and what the wizard adds, the zone
-- and the e-mail domain of the primary domain.
pub create_website-Admitted :
    (d : Dynamic) (u : Unicode) (claims : TokenClaims) (asked : CreateWebsiteRequest)
    (h : WebsiteSettings) (w : Panel d.State)
    → w.calls ≡ []
    → Called (Admitted d u claims asked) (create_website d u h (some claims) (some asked) w).1
create_website-Admitted d u claims asked h w fresh =
    (create_website-Keeping d u claims asked h).at w (rw fresh tt)
