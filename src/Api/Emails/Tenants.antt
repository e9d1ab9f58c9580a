-- ===== src/Api/Emails/Tenants.antt =====
-- On the calls of the handlers of emails.go below an e-mail account.
use kubecp.Api.Emails.Keycloak.{fresh}
use kubecp.Api.Websites.Specs.{with_spec}
use kubecp.Http.{Exit, TokenClaims, panic, write_json}
use kubecp.Common.Exec.{
  Keeps, Keeps-bind, Keeps-fail_if, Keeps-on_error, Keeps-pure, Keeps-then, pure, raise, ◌>>=◌,
}
use kubecp.Common.{Option, String, [], none, refl, some, ℤ, ◌≡◌}
use kubecp.Api.Emails.Objects.{email_response, without_forwarding}
use kubecp.Api.Emails.Handlers.{
  EmailAction, delete_email, delete_forwarding, forwards, get_email, get_forwarding, limits, reads,
  reads_forwarding, removes, removes_forwarding, serve_email, store_email, update_forwarding,
  update_quota, with_entry,
}
use kubecp.Api.Emails.Data.{EmailForwarding, EmailView, email_view}
use kubecp.Api.Crd.Values.{Fields, Value, object, put}
use kubecp.Api.Crd.Owned.Laws.{
  Allowed, Called, May, Own, calling-Keeps, claims-Keeps, decode_body-Keeps, load_for-Allowed,
  load_owned-Allowed, no_claims-Keeps, no_object-Keeps, spec-SameIdentity,
}
use kubecp.Api.Crd.Owned.{Effect}
use kubecp.Api.Crd.Client.{Call, Dynamic, Panel, Unicode, Unstructured, email_accounts, spec_of}

module _ (d : Dynamic) (u : Unicode) (claims : TokenClaims) (id : String) where
  abbrev Keeping : {A : Type 0} → Effect d EmailView A → Type 0
  Keeping m = Keeps (Called (Allowed d email_accounts claims id)) m

  store-Keeping :
      (o : Unstructured) (v : Value)
      → Own d email_accounts claims id o
      → Keeping (store_email d u (record o { spec = v }))
  unfolding store_email
  store-Keeping o v own =
      Keeps-on_error _ _ (calling-Keeps d _ _ _ (refl, refl, (o, own, spec-SameIdentity o v)))

  -- How the two changes of one entry end.
  entered-Keeping :
      (o : Unstructured) (key : String) (v : Value) (spec : Option Fields)
      → Own d email_accounts claims id o
      → Keeping (
          (elim spec [ none ↦ raise panic | some m ↦ pure (with_spec o (put key v m)) ])
          >>= λ changed. store_email d u changed >>= λ stored.
              pure {E = Exit EmailView} (write_json 200 (email_view (email_response stored))))
  unfolding ◌>>=◌ raise pure
  entered-Keeping o key v none own = record { at = λ w h. h }
  entered-Keeping o key v (some m) own = record {
    at = λ w h.
        (Keeps-bind _ _ (store-Keeping o (object (put key v m)) own) (λ stored. Keeps-pure _)).at w
          h;
  }

  update_forwarding-Keeping :
      (body : Option EmailForwarding) → Keeping (update_forwarding d u (some claims) id body)
  unfolding update_forwarding with_entry
  update_forwarding-Keeping body = claims-Keeps d _ _ claims _ (
      Keeps-bind _ _ (decode_body-Keeps d _ _ body) (λ req.
        load_owned-Allowed d email_accounts claims id _ _ _
          (λ o own. entered-Keeping o _ _ (spec_of o) own)))

  update_quota-Keeping : (body : Option ℤ) → Keeping (update_quota d u (some claims) id body)
  unfolding update_quota with_entry
  update_quota-Keeping body = claims-Keeps d _ _ claims _ (
      Keeps-bind _ _ (decode_body-Keeps d _ _ body) (λ quota. Keeps-then _ _ (Keeps-fail_if _ _) (
        load_owned-Allowed d email_accounts claims id _ _ _
          (λ o own. entered-Keeping o _ _ (spec_of o) own))))

  serve-Keeping : (a : EmailAction) → Keeping (serve_email d u (some claims) id a)
  unfolding serve_email get_email delete_email get_forwarding delete_forwarding without_forwarding
  serve-Keeping reads = load_for-Allowed d email_accounts claims id _ _ _ (λ o own. Keeps-pure _)
  serve-Keeping removes = load_for-Allowed d email_accounts claims id _ _ _ (λ o own.
      Keeps-then _ _ (Keeps-on_error _ _ (calling-Keeps d _ _ _ (refl, refl, refl, (o, own))))
        (Keeps-pure _))
  serve-Keeping reads_forwarding =
      load_for-Allowed d email_accounts claims id _ _ _ (λ o own. Keeps-pure _)
  serve-Keeping removes_forwarding =
      load_for-Allowed d email_accounts claims id _ _ _
        (λ o own. Keeps-then _ _ (store-Keeping o _ own) (Keeps-pure _))
  serve-Keeping (forwards body) = update_forwarding-Keeping body
  serve-Keeping (limits body) = update_quota-Keeping body

serve_none-Keeps :
    (d : Dynamic) (u : Unicode) (Q : Call → Type 0) (id : String) (a : EmailAction)
    → Keeps (Called Q) (serve_email d u none id a)
unfolding serve_email get_email delete_email get_forwarding delete_forwarding update_forwarding
    update_quota
serve_none-Keeps d u Q id reads = no_object-Keeps d _ _ _ _ _ _
serve_none-Keeps d u Q id removes = no_object-Keeps d _ _ _ _ _ _
serve_none-Keeps d u Q id reads_forwarding = no_object-Keeps d _ _ _ _ _ _
serve_none-Keeps d u Q id removes_forwarding = no_object-Keeps d _ _ _ _ _ _
serve_none-Keeps d u Q id (forwards body) = no_claims-Keeps d _ _ _
serve_none-Keeps d u Q id (limits body) = no_claims-Keeps d _ _ _

-- Every call of a handler below /api/email-accounts/{id} only reads, or it changes the account of
-- this name, which the server answered with and which the caller owns, and leaves its kind, name,
-- namespace and labels as they are, or deletes it. Without claims nothing is called.
pub serve_email-Owned :
    (d : Dynamic) (u : Unicode) (c : Option TokenClaims) (id : String) (a : EmailAction)
    (w : Panel d.State)
    → w.calls ≡ []
    → Called (May d email_accounts c id) (serve_email d u c id a w).1
serve_email-Owned d u none id a w fresh = (serve_none-Keeps d u _ id a).at w (rw fresh tt)
serve_email-Owned d u (some claims) id a w fresh =
    (serve-Keeping d u claims id a).at w (rw fresh tt)
