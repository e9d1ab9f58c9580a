-- ===== src/Operator/Users/Laws.antt =====
-- On the list of users in sftp_volumes.go.
use Prim.Native.String.{[], ◌∷◌}
use kubecp.Common.{
  String, str_eq, eq_iff, ◌≡◌, ◌≢◌, refl, sym, subst, ◌∙◌, ◌↔◌, ◌⊎◌, inl, inr, true, false, List,
  [], ◌∷◌, Any, any, any_iff, Bool-cases, Bool-decides, ◌||◌, if◌then◌else◌, arith,
}
use kubecp.Common.Text.{is_empty}
use kubecp.Common.Text.Laws.{is_empty_iff}
use kubecp.Operator.Data.{Website}
use kubecp.Operator.Users.{owner_of, user_set, str_leb, insert, sort, users_of}

-- Each text is at most the next one.
abbrev pub IsSorted : List String → Type 0
IsSorted [] = Unit
IsSorted (x ∷ []) = Unit
IsSorted (x ∷ y ∷ l) = (str_leb x y ≡ true) × IsSorted (y ∷ l)

str_leb_total : (s t : String) → str_leb s t ≡ false → str_leb t s ≡ true
unfolding str_leb
str_leb_total [] t h = ground arith
str_leb_total (c ∷ s) [] h = refl
str_leb_total (c ∷ s) (d ∷ t) h = ground (arith, str_leb_total s t)

insert-IsSorted :
    (x y : String) (ys : List String)
    → str_leb y x ≡ true
    → IsSorted (y ∷ ys)
    → IsSorted (y ∷ insert x ys)
unfolding insert
insert-IsSorted x y [] h s = (h, tt)
insert-IsSorted x y (z ∷ zs) h (b, s) = elim (Bool-cases (str_leb x z)) [
  | inl e ↦ rw (e, insert) (h, (e, s))
  | inr e ↦ rw (e, insert) (b, insert-IsSorted x z zs (str_leb_total x z e) s)
]

insert_front-IsSorted : (x : String) (l : List String) → IsSorted l → IsSorted (insert x l)
unfolding insert
insert_front-IsSorted x [] s = tt
insert_front-IsSorted x (y ∷ ys) s = elim (Bool-cases (str_leb x y)) [
  | inl e ↦ rw (e, insert) (e, s)
  | inr e ↦ rw (e, insert) (insert-IsSorted x y ys (str_leb_total x y e) s)
]

sort-IsSorted : (l : List String) → IsSorted (sort l)
unfolding sort
sort-IsSorted [] = tt
sort-IsSorted (x ∷ l) = insert_front-IsSorted x (sort l) (sort-IsSorted l)

module _ (P : String → Type 0) where
  Any-insert : (x : String) (l : List String) → Any P (insert x l) ↔ (P x ⊎ Any P l)
  unfolding insert
  Any-insert x [] = ground arith
  Any-insert x (y ∷ l) = elim (Bool-cases (str_leb x y)) [
    | inl e ↦ rw (e, insert) (ground arith)
    | inr e ↦ rw (e, insert) (ground (arith, Any-insert x l))
  ]

  Any-sort : (l : List String) → Any P (sort l) ↔ Any P l
  unfolding sort
  Any-sort [] = ground arith
  Any-sort (x ∷ l) = ground (arith, Any-insert x (sort l), Any-sort l)

module _ (u : String) where
  abbrev Listed : List String → Type 0
  Listed = Any (λ v. v ≡ u)

  added_iff :
      (o : String) (rest : List String)
      → Listed (if is_empty o || any (λ v. str_eq v o) rest then rest else o ∷ rest)
        ↔ (((u ≢ "") × (o ≡ u)) ⊎ Listed rest)
  added_iff o rest = elim (Bool-decides (is_empty o) (is_empty_iff o)) [
    | inl (q, t) ↦ rw t (inr, λ h. elim h [ inl (n, e) ↦ absurd (n (sym e ∙ q)) | inr l ↦ l ])
    | inr (q, t) ↦
        elim (Bool-decides (any (λ v. str_eq v o) rest)
          (any_iff (λ v. v ≡ o) (λ v. str_eq v o) (λ v. eq_iff v o) rest)) [
            | inl (m, t') ↦
                rw (t, t')
                  (
                    inr,
                    λ h. elim h [ inl (n, e) ↦ subst (λ v. Any (λ x. x ≡ v) rest) e m | inr l ↦ l ],
                  )
            | inr (m, t') ↦
                rw (t, t')
                  (
                    (λ h. elim h [ inl e ↦ inl ((λ z. q (e ∙ z)), e) | inr l ↦ inr l ]),
                    λ h. elim h [ inl (n, e) ↦ inl e | inr l ↦ inr l ],
                  )
          ]
  ]

  user_set_iff :
      (sites : List Website)
      → Listed (user_set sites) ↔ ((u ≢ "") × Any (λ s. owner_of s ≡ u) sites)
  unfolding user_set
  user_set_iff [] = ground arith
  user_set_iff (s ∷ sites) =
      ground (arith, added_iff (owner_of s) (user_set sites), user_set_iff sites)

-- The users are in order, and they are exactly the owners of the websites, by the spec or else by the
-- label.
users_of-IsSorted :
    (sites : List Website)
    → IsSorted (users_of sites)
      × ((u : String)
          → Any (λ v. v ≡ u) (users_of sites) ↔ ((u ≢ "") × Any (λ s. owner_of s ≡ u) sites))
unfolding users_of
users_of-IsSorted sites = (
  sort-IsSorted (user_set sites),
  λ u. ground (arith, Any-sort (λ v. v ≡ u) (user_set sites), user_set_iff u sites),
)
