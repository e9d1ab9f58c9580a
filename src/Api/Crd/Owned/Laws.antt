-- ===== src/Api/Crd/Owned/Laws.antt =====
-- On the calls of handlers of owned resources.
use kubecp.Api.Crd.Values.{Value}
use kubecp.Api.Import.{base}
use kubecp.Common.{
  String, ◌≡◌, ◌⊎◌, true, not, some, [], ◌∷◌, All, subst, All-append, Option, none, not-false, refl,
}
use kubecp.Common.Exec.{
  Result, ok, pure, ◌>>=◌, Keeps, Keeps-bind_known, Keeps-bind, Keeps-then, Keeps-on_error,
  Keeps-fail_if, Keeps-pure, bind_ok, on_error_ok, Keeps-raise, raise, ok-injective, unless_ok,
}
use kubecp.Http.{TokenClaims}
use kubecp.Api.Crd.Client.{
  Resource, Unstructured, Dynamic, Panel, Call, list_call, get_call, create_call, update_call,
  status_call, delete_call, get_namespace_call, put_namespace_call, create_zone_call,
  create_user_call, list_users_call, set_password_call, calling,
}
use kubecp.Api.Crd.Owned.{
  hosting_namespace, owns, Refusals, get_error, Effect, load_owned, decode_body, load_for,
  require_claims,
}

-- Every call on record has `Q`.
abbrev pub Called : {State : Type 0} → (Call → Type 0) → Panel State → Type 0
Called Q w = All Q w.calls

pub calling-Keeps :
    (d : Dynamic) (Q : Call → Type 0) {E A : Type 0} (x : Call) (f : d.State → Result E A × d.State)
    → Q x
    → Keeps (Called Q) (calling d x f)
unfolding calling
calling-Keeps d Q x f q = record { at = λ w h. All-append Q w.calls (x ∷ []) h (q, tt) }

module _ (d : Dynamic) (P : Type 0) (I : Panel d.State → Type 0) where
  pub require_claims-Keeps : (c : Option TokenClaims) → Keeps I (require_claims d P c)
  unfolding require_claims
  require_claims-Keeps none = Keeps-raise _
  require_claims-Keeps (some claims) = Keeps-pure claims

  pub claims-Keeps :
      {B : Type 0} (claims : TokenClaims) (f : TokenClaims → Effect d P B)
      → Keeps I (f claims)
      → Keeps I (require_claims d P (some claims) >>= f)
  unfolding require_claims ◌>>=◌ pure
  claims-Keeps claims f k = record { at = λ w h. k.at w h }

  pub decoded-Keeps :
      {A B : Type 0} (body : A) (f : A → Effect d P B)
      → Keeps I (f body)
      → Keeps I (decode_body d P (some body) >>= f)
  unfolding decode_body ◌>>=◌ pure
  decoded-Keeps body f k = record { at = λ w h. k.at w h }

  pub no_claims-Keeps :
      {B : Type 0} (f : TokenClaims → Effect d P B) → Keeps I (require_claims d P none >>= f)
  unfolding require_claims ◌>>=◌ raise
  no_claims-Keeps f = record { at = λ w h. h }

  pub no_object-Keeps :
      {B : Type 0} (r : Resource) (texts : Refusals) (id : String) (f : Unstructured → Effect d P B)
      → Keeps I (load_for d P r texts none id >>= f)
  unfolding load_for require_claims ◌>>=◌ raise
  no_object-Keeps r texts id f = record { at = λ w h. h }

  pub decode_body-Keeps : {A : Type 0} (body : Option A) → Keeps I (decode_body d P body)
  unfolding decode_body
  decode_body-Keeps none = Keeps-raise _
  decode_body-Keeps (some a) = Keeps-pure a

-- The same object as before, for the same user.
pub record SameIdentity (old new : Unstructured) : Type 0 where
  pub same_kind : new.kind ≡ old.kind
  pub same_name : new.name ≡ old.name
  pub same_namespace : new.namespace ≡ old.namespace
  pub same_labels : new.labels ≡ old.labels

pub spec-SameIdentity : (o : Unstructured) (v : Value) → SameIdentity o (record o { spec = v })
spec-SameIdentity o v = record {
  same_kind = refl;
  same_name = refl;
  same_namespace = refl;
  same_labels = refl;
}

pub status-SameIdentity : (o : Unstructured) (v : Value) → SameIdentity o (record o { status = v })
status-SameIdentity o v = record {
  same_kind = refl;
  same_name = refl;
  same_namespace = refl;
  same_labels = refl;
}

module _ (d : Dynamic) (r : Resource) (claims : TokenClaims) (id : String) where
  -- The server answered a read of `id` with this object, and the caller owns it.
  abbrev pub Own : Unstructured → Type 0
  Own o =
      ((s : d.State) × ((d.get r (some hosting_namespace) id s).0 ≡ ok o)) × (owns claims o ≡ true)

  -- The object is the one that was read, or the server's answer to an update of it.
  abbrev pub Stored : Unstructured → Unstructured → Type 0
  Stored old base =
      (base ≡ old)
      ⊎ ((x : Unstructured) × (s : d.State) × SameIdentity old x
          × ((d.update r (some hosting_namespace) x s).0 ≡ ok base))

  -- A call only reads, or it changes or deletes the object `id`, which the caller owns, and leaves
  -- its name and its labels as they are.
  abbrev pub Allowed : Call → Type 0
  Allowed (list_call r' scope selector) = Unit
  Allowed (get_call r' scope name) = Unit
  Allowed (get_namespace_call name) = Unit
  Allowed (create_call r' scope o) = ⊥
  Allowed (put_namespace_call n) = ⊥
  Allowed (create_zone_call zone servers) = ⊥
  Allowed (create_user_call user) = ⊥
  Allowed (list_users_call search) = ⊥
  Allowed (set_password_call user password) = ⊥
  Allowed (update_call r' scope new) =
      (r' ≡ r)
      × (scope ≡ some hosting_namespace)
      × ((old : Unstructured) × Own old × SameIdentity old new)
  Allowed (status_call r' scope new) =
      (r' ≡ r)
      × (scope ≡ some hosting_namespace)
      × ((old : Unstructured) × Own old
          × ((base : Unstructured) × Stored old base × SameIdentity base new))
  Allowed (delete_call r' scope name) =
      (r' ≡ r) × (scope ≡ some hosting_namespace) × (name ≡ id) × ((old : Unstructured) × Own old)

  module _ (P : Type 0) (texts : Refusals) where
    pub load_owned-Own :
        (w : Panel d.State) (o : Unstructured)
        → (load_owned d P r texts claims id w).0 ≡ ok o
        → Own o
    unfolding load_owned calling pure
    load_owned-Own w o h =
        let (o', got, rest) = bind_ok _ _ w o h in
        let known = on_error_ok (get_error texts) _ w o' got in
        let (mine, same) = unless_ok (not (owns claims o')) _ (pure o') _ o rest in
        subst Own (ok-injective same) ((w.state, known), not-false _ mine)

    load_for-Own :
        (w : Panel d.State) (o : Unstructured)
        → (load_for d P r texts (some claims) id w).0 ≡ ok o
        → Own o
    unfolding load_for require_claims ◌>>=◌ pure
    load_for-Own w o h = load_owned-Own w o h

    module _ (Q : Call → Type 0) (reads : Q (get_call r (some hosting_namespace) id)) where
      load_owned-reads : Keeps (Called Q) (load_owned d P r texts claims id)
      unfolding load_owned
      load_owned-reads =
          Keeps-bind _ _ (Keeps-on_error _ _ (calling-Keeps d Q _ _ reads))
            (λ o. Keeps-then _ _ (Keeps-fail_if _ _) (Keeps-pure o))

      load_for-reads : Keeps (Called Q) (load_for d P r texts (some claims) id)
      unfolding load_for require_claims ◌>>=◌ pure
      load_for-reads = record { at = λ w h. load_owned-reads.at w h }

      -- What the handler does with the object may rely on who owns it.
      pub load_owned-Keeps :
          {B : Type 0} (f : Unstructured → Effect d P B)
          → ((o : Unstructured) → Own o → Keeps (Called Q) (f o))
          → Keeps (Called Q) (load_owned d P r texts claims id >>= f)
      load_owned-Keeps f k =
          Keeps-bind_known _ f load_owned-reads (λ w o h. k o (load_owned-Own w o h))

      pub load_for-Keeps :
          {B : Type 0} (f : Unstructured → Effect d P B)
          → ((o : Unstructured) → Own o → Keeps (Called Q) (f o))
          → Keeps (Called Q) (load_for d P r texts (some claims) id >>= f)
      load_for-Keeps f k = Keeps-bind_known _ f load_for-reads (λ w o h. k o (load_for-Own w o h))

    pub load_owned-Allowed :
        {B : Type 0} (f : Unstructured → Effect d P B)
        → ((o : Unstructured) → Own o → Keeps (Called Allowed) (f o))
        → Keeps (Called Allowed) (load_owned d P r texts claims id >>= f)
    load_owned-Allowed f k = load_owned-Keeps Allowed tt f k

    pub load_for-Allowed :
        {B : Type 0} (f : Unstructured → Effect d P B)
        → ((o : Unstructured) → Own o → Keeps (Called Allowed) (f o))
        → Keeps (Called Allowed) (load_for d P r texts (some claims) id >>= f)
    load_for-Allowed f k = load_for-Keeps Allowed tt f k

-- Without claims a handler calls nothing.
abbrev pub May : (d : Dynamic) → Resource → Option TokenClaims → String → Call → Type 0
May d r none id x = ⊥
May d r (some claims) id x = Allowed d r claims id x
