-- ===== src/Api/Dns/Handlers/Replacing.antt =====
-- On `DeleteRecord` and `UpdateSecondaryConfig` of dns.go.
use kubecp.Common.{String, ◌≡◌, refl, Option, none, some, List, ℤ}
use kubecp.Common.Exec.{Result, ok, err, Exec, ◌>>=◌, ◌>>◌, resume, pure, ignore}
use kubecp.Http.{TokenClaims, Response, Exit}
use kubecp.Powerdns.{Network, World, Client, notify_zone}
use kubecp.Api.Dns.Data.{Platform, View, RecordRequest, SecondaryConfigRequest}
use kubecp.Api.Dns.Handlers.Load.{Effect, load_zone, body_of}
use kubecp.Api.Dns.Handlers.Records.{handle_delete_record}
use kubecp.Api.Dns.Handlers.Secondary.{
  first_invalid, check_ips, allow_axfr, handle_update_secondary_config,
}

-- `DeleteRecord` does not read the content: two requests that differ in their content and TTL alone
-- have the same effect and the same answer, so the other records of the set go as well.
handle_delete_record_ignores_content :
    (p : Platform) (net : Network) (c : Client) (claims : Option TokenClaims) (id : String)
    (req : RecordRequest) (content : String) (ttl : ℤ) (w : World net.Remote)
    → handle_delete_record p net c claims id (some (record req { content = content; ttl = ttl })) w
      ≡ handle_delete_record p net c claims id (some req) w
unfolding handle_delete_record ◌>>=◌ body_of pure
handle_delete_record_ignores_content p net c claims id req content ttl w = refl

-- Binds whose continuations leave the same world do so too.
module _ {E W A B : Type 0} (f g : A → Exec E W B)
    (same : (a : A) (w : W) → (f a w).1 ≡ (g a w).1) where
  resume_world : (s : Result E A × W) → (resume f s).1 ≡ (resume g s).1
  resume_world (ok a, w) = same a w
  resume_world (err e, w) = refl

  bind_world : (m : Exec E W A) (w : W) → ((m >>= f) w).1 ≡ ((m >>= g) w).1
  unfolding ◌>>=◌
  bind_world m w = resume_world (m w)

module _ {E W A B : Type 0} (k l : Exec E W B) (same : (w : W) → (k w).1 ≡ (l w).1) where
  then_world : (m : Exec E W A) (w : W) → ((m >> k) w).1 ≡ ((m >> l) w).1
  unfolding ◌>>◌
  then_world m w = resume_world (λ _. k) (λ _. l) (λ _. same) (m w)

check_ips_valid :
    (p : Platform) (net : Network) (c : Client) (what : String) (ips : List String)
    → first_invalid p ips ≡ none
    → check_ips p net c what ips ≡ pure tt
unfolding check_ips
check_ips_valid p net c what ips e = rw (e, check_ips)

module _ (p : Platform) (net : Network) (c : Client) (id : String) (axfr : List String) where
  -- The steps of `UpdateSecondaryConfig` from the first check on.
  abbrev steps : List String → Response View → Effect net (Response View)
  steps masters r =
      check_ips p net c "Invalid IP in allowAxfrIps: " axfr
      >> (check_ips p net c "Invalid IP in masters: " masters
          >> (allow_axfr p net c id axfr >> (ignore (notify_zone net c id) >> pure r)))

  abbrev ending : Response View → Effect net (Response View)
  ending r = allow_axfr p net c id axfr >> (ignore (notify_zone net c id) >> pure r)

  pure_world :
      (r s : Response View) (w : World net.Remote)
      → (pure {E = Exit View} r w).1 ≡ (pure {E = Exit View} s w).1
  unfolding pure
  pure_world r s w = refl

  ending_world : (r s : Response View) (w : World net.Remote) → (ending r w).1 ≡ (ending s w).1
  ending_world r s w =
      then_world _ _ (then_world _ _ (pure_world r s) (ignore (notify_zone net c id)))
        (allow_axfr p net c id axfr) w

  masters_world :
      (ms : List String) (r : Response View) (w : World net.Remote)
      → first_invalid p ms ≡ none
      → (check_ips p net c "Invalid IP in masters: " ms >> ending r) w ≡ ending r w
  unfolding ◌>>◌ pure
  masters_world ms r w e = rw (check_ips_valid p net c "Invalid IP in masters: " ms e)

  steps_world :
      (ms ns : List String) (r s : Response View) (w : World net.Remote)
      → first_invalid p ms ≡ none
      → first_invalid p ns ≡ none
      → (steps ms r w).1 ≡ (steps ns s w).1
  steps_world ms ns r s w e f =
      then_world (check_ips p net c "Invalid IP in masters: " ms >> ending r)
        (check_ips p net c "Invalid IP in masters: " ns >> ending s)
        (λ w'. rw (masters_world ms r w' e, masters_world ns s w' f) (ending_world r s w'))
        (check_ips p net c "Invalid IP in allowAxfrIps: " axfr) w

-- `UpdateSecondaryConfig` sends the same calls whatever valid masters it is given: they reach no zone.
handle_update_secondary_config_ignores_masters :
    (p : Platform) (net : Network) (c : Client) (claims : Option TokenClaims) (id : String)
    (req : SecondaryConfigRequest) (masters : List String) (w : World net.Remote)
    → first_invalid p req.masters ≡ none
    → first_invalid p masters ≡ none
    → (handle_update_secondary_config p net c claims id
        (some (record req { masters = masters }))
        w).1
      ≡ (handle_update_secondary_config p net c claims id (some req) w).1
unfolding handle_update_secondary_config ◌>>=◌ body_of pure
handle_update_secondary_config_ignores_masters p net c claims id req masters w e f =
    bind_world _ _ (λ zone w'. steps_world p net c id req.allow_axfr masters req.masters _ _ w' f e)
      (load_zone net c claims id) w
