-- ===== src/Api/MailDomains/Tenants.antt =====
-- On the calls of the handlers of email_domains.go below a domain.
use kubecp.Api.Websites.Specs.{with_spec}
use kubecp.Http.{Exit, TokenClaims, panic}
use kubecp.Common.Exec.{
  Keeps, Keeps-attempt, Keeps-bind, Keeps-bind_known, Keeps-if, Keeps-ignore, Keeps-on_error,
  Keeps-pure, Keeps-then, Result, attempt_ok, err, ok, pure, raise, ◌>>=◌,
}
use kubecp.Common.{Bool, List, Option, String, [], inl, inr, none, refl, some, ◌∷◌, ◌≡◌, ◌⊎◌}
use kubecp.Api.MailDomains.Handlers.{
  DomainAction, accounts_of, catches, delete_accounts, delete_accounts_of, delete_email_domain,
  delete_listed, filters, get_email_domain, get_spam_config, reads, reads_filter, removes,
  rotate_dkim, rotates, serve_domain, store_domain, update_catch_all, update_spam_config,
  with_entry, with_filter,
}
use kubecp.Api.MailDomains.Data.{EmailDomainView, domain_name, without_dkim}
use kubecp.Api.Crd.Values.{Fields, Value, bool, object, put}
use kubecp.Api.Crd.Owned.Laws.{
  Allowed, Called, Own, calling-Keeps, claims-Keeps, decode_body-Keeps, load_for-Keeps,
  load_owned-Keeps, no_claims-Keeps, no_object-Keeps, spec-SameIdentity, status-SameIdentity,
}
use kubecp.Api.Crd.Owned.{Effect, hosting_namespace}
use kubecp.Api.Crd.Client.{
  Call, Dynamic, Panel, Unstructured, calling, delete_call, email_accounts, email_domains, spec_of,
  list_objects,
}

abbrev Among : Unstructured → List Unstructured → Type 0
Among o [] = ⊥
Among o (x ∷ l) = (o ≡ x) ⊎ Among o l

-- The server's list has this object.
abbrev pub Listed : Unstructured → Result String (List Unstructured) → Type 0
Listed o (err e) = ⊥
Listed o (ok l) = Among o l

module _ (d : Dynamic) (claims : TokenClaims) (id : String) where
  abbrev pub OwnDomain : Unstructured → Type 0
  OwnDomain o = Own d email_domains claims id o

  -- The account that is deleted is one that the server listed for a domain of the caller.
  abbrev pub OfDomain : String → Type 0
  OfDomain name =
      (o : Unstructured) × OwnDomain o
      × ((account : Unstructured) × (name ≡ account.name)
          × ((s : d.State) × Listed account
                (d.list email_accounts (some hosting_namespace) (accounts_of (domain_name o)) s).0))

  abbrev Cascades : Call → Type 0
  Cascades (delete_call r scope name) =
      (r ≡ email_accounts) × (scope ≡ some hosting_namespace) × OfDomain name
  Cascades _ = ⊥

  -- What the handlers of every owned object may call, or the deletion of an account of the domain.
  abbrev pub Admits : Call → Type 0
  Admits x = Allowed d email_domains claims id x ⊎ Cascades x

  abbrev Keeping : {A : Type 0} → Effect d EmailDomainView A → Type 0
  Keeping m = Keeps (Called Admits) m

  store_domain-Keeping :
      (o : Unstructured) (v : Value)
      → OwnDomain o
      → Keeping (store_domain d (record o { spec = v }))
  unfolding store_domain
  store_domain-Keeping o v own =
      Keeps-bind _ _
        (Keeps-on_error _ _
          (calling-Keeps d _ _ _ (inl (refl, refl, (o, own, spec-SameIdentity o v)))))
        (λ updated. Keeps-pure _)

  entered-Keeping :
      (o : Unstructured) (key : String) (v : Value) (spec : Option Fields)
      → OwnDomain o
      → Keeping (
          (elim spec [ none ↦ raise panic | some m ↦ pure (with_spec o (put key v m)) ])
          >>= store_domain d)
  unfolding ◌>>=◌ raise pure
  entered-Keeping o key v none own = record { at = λ w h. h }
  entered-Keeping o key v (some m) own = record {
    at = λ w h. (store_domain-Keeping o (object (put key v m)) own).at w h;
  }

  filtered-Keeping :
      (o : Unstructured) (asked : Option Bool)
      → OwnDomain o
      → Keeping (with_filter d asked o >>= store_domain d)
  unfolding with_filter with_entry ◌>>=◌ pure
  filtered-Keeping o none own = record { at = λ w h. (store_domain-Keeping o _ own).at w h }
  filtered-Keeping o (some b) own = entered-Keeping o "spamFilter" (bool b) (spec_of o) own

  delete_accounts-Keeping :
      (l : List Unstructured)
      → ((account : Unstructured) → Among account l → OfDomain account.name)
      → Keeping (delete_accounts d l)
  unfolding delete_accounts
  delete_accounts-Keeping [] h = Keeps-pure _
  delete_accounts-Keeping (account ∷ l) h =
      Keeps-then _ _
        (Keeps-ignore _ (calling-Keeps d _ _ _ (inr (refl, refl, h account (inl refl)))))
        (delete_accounts-Keeping l (λ other among. h other (inr among)))

  delete_listed-Keeping :
      (r : Result String (List Unstructured))
      → ((account : Unstructured) → Listed account r → OfDomain account.name)
      → Keeping (delete_listed d r)
  unfolding delete_listed
  delete_listed-Keeping (err e) h = Keeps-pure _
  delete_listed-Keeping (ok l) h = delete_accounts-Keeping l h

  delete_accounts_of-Keeping :
      (o : Unstructured) → OwnDomain o → Keeping (delete_accounts_of d (domain_name o))
  unfolding delete_accounts_of calling
  delete_accounts_of-Keeping o own =
      let read =
        list_objects d email_accounts (some hosting_namespace) (accounts_of (domain_name o)) in
      Keeps-if _ (Keeps-pure _) (
        Keeps-bind_known _ _ (Keeps-attempt read (calling-Keeps d _ _ _ (inl tt))) (λ w r h.
          let known = attempt_ok {F = Exit EmailDomainView} read w r h in
          delete_listed-Keeping r
            (λ account listed. (o, own, (account, refl, (w.state, rw known listed))))))

  serve-Keeping : (a : DomainAction) → Keeping (serve_domain d (some claims) id a)
  unfolding serve_domain get_email_domain delete_email_domain rotate_dkim get_spam_config
      update_spam_config update_catch_all with_entry without_dkim
  serve-Keeping reads =
      load_for-Keeps d email_domains claims id _ _ _ (inl tt) _ (λ o own. Keeps-pure _)
  serve-Keeping removes = load_for-Keeps d email_domains claims id _ _ _ (inl tt) _ (λ o own.
      Keeps-then _ _ (delete_accounts_of-Keeping o own) (
        Keeps-then _ _
          (Keeps-on_error _ _ (calling-Keeps d _ _ _ (inl (refl, refl, refl, (o, own)))))
          (Keeps-pure _)))
  serve-Keeping rotates = load_for-Keeps d email_domains claims id _ _ _ (inl tt) _ (λ o own.
      Keeps-then _ _
        (Keeps-ignore _ (
          calling-Keeps d _ _ _
            (inl (refl, refl, (o, own, (o, inl refl, status-SameIdentity o _))))))
        (Keeps-pure _))
  serve-Keeping reads_filter =
      load_for-Keeps d email_domains claims id _ _ _ (inl tt) _ (λ o own. Keeps-pure _)
  serve-Keeping (filters body) = claims-Keeps d _ _ claims _ (
      Keeps-bind _ _ (decode_body-Keeps d _ _ body) (λ asked.
        load_owned-Keeps d email_domains claims id _ _ _ (inl tt) _
          (λ o own. filtered-Keeping o asked own)))
  serve-Keeping (catches body) = claims-Keeps d _ _ claims _ (
      Keeps-bind _ _ (decode_body-Keeps d _ _ body) (λ asked.
        load_owned-Keeps d email_domains claims id _ _ _ (inl tt) _
          (λ o own. entered-Keeping o _ _ (spec_of o) own)))

serve_none-Keeps :
    (d : Dynamic) (Q : Call → Type 0) (id : String) (a : DomainAction)
    → Keeps (Called Q) (serve_domain d none id a)
unfolding serve_domain get_email_domain delete_email_domain rotate_dkim get_spam_config
    update_spam_config update_catch_all
serve_none-Keeps d Q id reads = no_object-Keeps d _ _ _ _ _ _
serve_none-Keeps d Q id removes = no_object-Keeps d _ _ _ _ _ _
serve_none-Keeps d Q id rotates = no_object-Keeps d _ _ _ _ _ _
serve_none-Keeps d Q id reads_filter = no_object-Keeps d _ _ _ _ _ _
serve_none-Keeps d Q id (filters body) = no_claims-Keeps d _ _ _
serve_none-Keeps d Q id (catches body) = no_claims-Keeps d _ _ _

abbrev pub MayDomain : (d : Dynamic) → Option TokenClaims → String → Call → Type 0
MayDomain d none id x = ⊥
MayDomain d (some claims) id x = Admits d claims id x

-- Every call of a handler below /api/email-domains/{id} only reads, or it changes or deletes the
-- domain of this name, which the server answered with and which the caller owns, and leaves its kind,
-- name, namespace and labels as they are, or it deletes an account that the server listed for such a
-- domain. Without claims nothing is called.
pub serve_domain-Owned :
    (d : Dynamic) (c : Option TokenClaims) (id : String) (a : DomainAction) (w : Panel d.State)
    → w.calls ≡ []
    → Called (MayDomain d c id) (serve_domain d c id a w).1
serve_domain-Owned d none id a w fresh = (serve_none-Keeps d _ id a).at w (rw fresh tt)
serve_domain-Owned d (some claims) id a w fresh = (serve-Keeping d claims id a).at w (rw fresh tt)
