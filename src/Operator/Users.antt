-- ===== src/Operator/Users.antt =====
-- hosting-operator/internal/controller/sftp_volumes.go: the users whose volumes the SFTP server mounts: the owners of the websites, each once, in order.
pub mod Laws
use Prim.Native.Char.{code}
use Prim.Native.String.{[], ◌∷◌}
use kubecp.Common.{
  String, ◌<>◌, str_eq, Bool, true, false, ltb, ◌==◌, ◌||◌, ◌&&◌, List, [], ◌∷◌, any, if◌then◌else◌,
}
use kubecp.Common.Text.{is_empty}
use kubecp.Operator.Data.{label, Website}

-- The owner of a website, or "" if it has none.
abbrev pub owner_of : Website → String
owner_of site =
    if is_empty site.spec.owner then label "hosting.panel/user" site.labels else site.spec.owner

-- The set of the owners, as a list.
unfoldable pub user_set : List Website → List String
user_set [] = []
user_set (site ∷ sites) =
    let rest = user_set sites in
    let owner = owner_of site in
    if is_empty owner || any (λ u. str_eq u owner) rest then rest else owner ∷ rest

-- `a <= b` on texts: the order of the code points, which is the order of the bytes in UTF-8.
unfoldable pub str_leb : String → String → Bool
str_leb [] t = true
str_leb (c ∷ s) [] = false
str_leb (c ∷ s) (d ∷ t) =
    let rest = str_leb s t in if ltb (code c) (code d) then true else code c == code d && rest

unfoldable pub insert : String → List String → List String
insert x [] = x ∷ []
insert x (y ∷ ys) = let rest = insert x ys in if str_leb x y then x ∷ y ∷ ys else y ∷ rest

-- `sort.Strings`
unfoldable pub sort : List String → List String
sort [] = []
sort (x ∷ xs) = insert x (sort xs)

unfoldable pub users_of : List Website → List String
users_of sites = sort (user_set sites)

-- `strings.Join(users, ",")`
unfoldable pub join : List String → String
join [] = ""
join (x ∷ []) = x
join (x ∷ y ∷ rest) = x <> "," <> join (y ∷ rest)
