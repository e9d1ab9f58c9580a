-- ===== src/Api/Websites/Checks.antt =====
-- The checks of websites.go before a website is created: the domains, the quota and the owner's UID.
use kubecp.Api.Crd.Quota.{QuotaError, check_quota}
use kubecp.Common.{
  zero, suc, ℤ, pos, negsuc, lt_int, le_int, to_int32, String, ◌<>◌, Option, none, some, List, [],
  ◌∷◌, any, Char, if◌then◌else◌,
}
use kubecp.Common.Text.{equal_fold_by}
use kubecp.Common.Exec.{Result, ok, err, pure, attempt, ◌>>=◌}
use kubecp.Api.Crd.Values.{Fields, get, as_text, as_int}
use kubecp.Api.Crd.Client.{Unstructured, Dynamic, Unicode, list_objects, websites, spec_of}
use kubecp.Api.Crd.Owned.{hosting_namespace, Effect}
use kubecp.Api.Websites.Objects.{extract_alias_strings}

-- `append([]string{existingPrimary}, existingAliases...)`
unfoldable pub domains_of : Fields → List String
domains_of spec = as_text (get "primaryDomain" spec) ∷ extract_alias_strings (some spec)

-- The first domain of the request that is also one of these.
unfoldable pub taken_in : (Char → Char) → List String → List String → Option String
taken_in fold existing [] = none
taken_in fold existing (check ∷ checks) =
    if any (equal_fold_by fold check) existing then some check else taken_in fold existing checks

abbrev pub or_next : Option String → Option String → Option String
or_next none next = next
or_next (some s) next = some s

abbrev pub taken_at : (Char → Char) → List String → Option Fields → Option String → Option String
taken_at fold checks none next = next
taken_at fold checks (some spec) next = or_next (taken_in fold (domains_of spec) checks) next

-- The loop over the websites.
unfoldable pub taken : (Char → Char) → List String → List Unstructured → Option String
taken fold checks [] = none
taken fold checks (o ∷ l) = taken_at fold checks (spec_of o) (taken fold checks l)

abbrev pub taken_among :
    (Char → Char) → List String → Result String (List Unstructured) → Option String
taken_among fold checks (err e) = none
taken_among fold checks (ok l) = taken fold checks l

-- `fmt.Errorf("domain %q is already in use", check)`
abbrev pub clash_text : Unicode → Option String → Option String
clash_text u none = none
clash_text u (some check) = some ("domain " <> u.quote check <> " is already in use")

-- A site's UID as the spec has it.
abbrev uid_in : Option Fields → Option ℤ
uid_in none = none
uid_in (some spec) = as_int (get "ownerUID" spec)

abbrev pub uid_of : Unstructured → Option ℤ
uid_of o = uid_in (spec_of o)

abbrev or_later : Option ℤ → Option ℤ → Option ℤ
or_later none later = later
or_later (some uid) later = if le_int (pos 1000) uid then some (to_int32 uid) else later

-- The UID of the first of the user's websites that has one.
unfoldable pub reused_uid : List Unstructured → Option ℤ
reused_uid [] = none
reused_uid (o ∷ l) = or_later (uid_of o) (reused_uid l)

abbrev pub int32_or_zero : Option ℤ → ℤ
int32_or_zero none = pos 0
int32_or_zero (some n) = to_int32 n

abbrev pub larger : ℤ → ℤ → ℤ
larger max uid = if lt_int max uid then uid else max

-- The loop over all websites.
unfoldable pub max_uid : ℤ → List Unstructured → ℤ
max_uid max [] = max
max_uid max (o ∷ l) = max_uid (larger max (int32_or_zero (uid_of o))) l

abbrev pub add_one : ℤ → ℤ
add_one (pos n) = pos (suc n)
add_one (negsuc zero) = pos 0
add_one (negsuc (suc n)) = negsuc n

-- `maxUID + 1`, an int32
unfoldable pub next_uid : List Unstructured → ℤ
next_uid l = to_int32 (add_one (max_uid (pos 1999) l))

abbrev next_or_default : Result String (List Unstructured) → ℤ
next_or_default (err e) = pos 2000
next_or_default (ok l) = next_uid l

module _ (d : Dynamic) (P : Type 0) where
  abbrev pub list_websites : String → Effect d P (Result String (List Unstructured))
  list_websites selector = attempt (list_objects d websites (some hosting_namespace) selector)

  -- `none` for nil, and otherwise the error's text
  unfoldable pub check_domain_uniqueness :
      Unicode → String → List String → Effect d P (Option String)
  check_domain_uniqueness u primary aliases = do
    sites ← list_websites ""
    pure (clash_text u (taken_among u.fold (primary ∷ aliases) sites))

  abbrev pub check_website_quota : Effect d P (Option QuotaError)
  check_website_quota = check_quota d P websites "websites"

  unfoldable pub fresh_uid : Effect d P ℤ
  fresh_uid = do sites ← list_websites ""; pure (next_or_default sites)

  abbrev pub or_fresh : Option ℤ → Effect d P ℤ
  or_fresh none = fresh_uid
  or_fresh (some uid) = pure uid

  abbrev pub reuse_or_fresh : Result String (List Unstructured) → Effect d P ℤ
  reuse_or_fresh (err e) = pure (pos 2000)
  reuse_or_fresh (ok l) = or_fresh (reused_uid l)

  -- `resolveOwnerUID`, whose error is always nil
  unfoldable pub resolve_owner_uid : String → Effect d P ℤ
  resolve_owner_uid username = do
    mine ← list_websites ("hosting.panel/user=" <> username)
    reuse_or_fresh mine
