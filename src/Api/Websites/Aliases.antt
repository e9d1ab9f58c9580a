-- ===== src/Api/Websites/Aliases.antt =====
-- On the aliases of a website in websites.go.
use kubecp.Common.Text.{is_empty}
use kubecp.Api.Websites.Data.{UpdateWebsiteRequest, WebsiteDomainSsl, WebsiteResources}
use kubecp.Common.{
  Bool-cases, List, String, [], any, ap, arith, eq_refl, false, inl, inr, keep, not, refl, str_eq,
  ◌++◌, ◌∷◌, ◌≡◌, Bool, Option, none, some, ℤ, ◌||◌, ◌∙◌,
}
use kubecp.Api.Websites.Specs.{
  with_alias, with_aliases, without_alias, put_aliases, put_php, put_replicas, put_resources,
  put_ssl, put_text, updated_spec,
}
use kubecp.Api.Websites.Objects.{extract_alias_strings, extract_aliases}
use kubecp.Api.Crd.Values.{get-put, texts_of-of_texts, Fields, get}
use kubecp.Api.Crd.Client.{Unstructured}

extract_aliases-with_aliases :
    (o : Unstructured) (l : List String) → extract_aliases (with_aliases o l) ≡ l
unfolding extract_alias_strings
extract_aliases-with_aliases o l = simp (get-put, texts_of-of_texts)

without_added :
    (l : List String) (a : String)
    → any (λ b. str_eq b a) l ≡ false
    → keep (λ b. not (str_eq b a)) (l ++ a ∷ []) ≡ l
without_added [] a h = rw (eq_refl a) refl
without_added (b ∷ l) a h = elim (Bool-cases (str_eq b a)) [
  | inl e ↦ ground arith
  | inr e ↦ rw e (ap (λ r. b ∷ r) (without_added l a (ground arith)))
]

-- Removing the alias that was just added gives the aliases that were there, in their order, where
-- the alias was new.
pub remove-add :
    (o : Unstructured) (alias : String)
    → any (λ b. str_eq b alias) (extract_aliases o) ≡ false
    → extract_aliases (without_alias (with_alias o alias) alias) ≡ extract_aliases o
unfolding without_alias with_alias
remove-add o alias h = simp extract_aliases-with_aliases (without_added (extract_aliases o) alias h)

module _ (key : String) (m : Fields) where
  -- A key with another spelling than the one that is put.
  put_text-other : (j s : String) → str_eq j key ≡ false → get key (put_text j s m) ≡ get key m
  put_text-other j s h = elim (Bool-cases (is_empty s)) [
    | inl e ↦ rw e refl
    | inr e ↦ rw (e, get-put, h) refl
  ]

  put_replicas-other :
      (n : Option ℤ) → str_eq "replicas" key ≡ false → get key (put_replicas n m) ≡ get key m
  put_replicas-other none h = refl
  put_replicas-other (some n) h = rw (get-put, h) refl

  put_aliases-other :
      (l : Option (List String))
      → str_eq "aliases" key ≡ false
      → get key (put_aliases l m) ≡ get key m
  put_aliases-other none h = refl
  put_aliases-other (some l) h = rw (get-put, h) refl

  put_resources-other :
      (r : Option WebsiteResources)
      → str_eq "resources" key ≡ false
      → get key (put_resources r m) ≡ get key m
  put_resources-other none h = refl
  put_resources-other (some r) h = rw (get-put, h) refl

  put_php-other : (v : Option String) → str_eq "php" key ≡ false → get key (put_php v m) ≡ get key m
  put_php-other none h = refl
  put_php-other (some v) h = rw (get-put, h) refl

  put_ssl-other :
      (s : Option WebsiteDomainSsl) → str_eq "ssl" key ≡ false → get key (put_ssl s m) ≡ get key m
  put_ssl-other none h = refl
  put_ssl-other (some s) h = rw (get-put, h) refl

-- The keys that an update may write.
abbrev pub is_updatable : String → Bool
is_updatable key =
    str_eq "storageSize" key
    || str_eq "resources" key
    || str_eq "ssl" key
    || str_eq "aliases" key
    || str_eq "replicas" key
    || str_eq "phpConfigProfile" key
    || str_eq "php" key

-- An update keeps every entry of the spec but those that a request names: the owner, his UID and the
-- primary domain among them.
updated_spec-other :
    (req : UpdateWebsiteRequest) (m : Fields) (key : String)
    → is_updatable key ≡ false
    → get key (updated_spec req m) ≡ get key m
unfolding updated_spec
updated_spec-other req m key h =
    put_text-other key _ "storageSize" req.storage_size (ground arith)
    ∙ put_resources-other key _ req.resources (ground arith)
    ∙ put_ssl-other key _ req.ssl (ground arith)
    ∙ put_aliases-other key _ req.aliases (ground arith)
    ∙ put_replicas-other key _ req.replicas (ground arith)
    ∙ put_text-other key _ "phpConfigProfile" req.php_config_profile (ground arith)
    ∙ put_php-other key m req.php (ground arith)
