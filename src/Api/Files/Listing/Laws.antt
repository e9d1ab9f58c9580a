-- ===== src/Api/Files/Listing/Laws.antt =====
-- On `parseLsOutput` of filemanager.go.
use text.Mathlib.Text.{starts_with}
use kubecp.Common.{
  String, str_eq, eq_iff, ◌≡◌, ◌≢◌, refl, inl, inr, ◌||◌, List, [], ◌∷◌, All, Bool-cases, arith,
  Option, none, some, some-injective, subst,
}
use kubecp.Common.Text.{is_empty, trim_space, split}
use kubecp.Api.Files.Listing.{
  FileEntry, child_path, fields, join_words, entry_of, cons_entry, parse_lines, parse_ls_output,
}

-- The entry is neither the directory nor its parent, and its path is that of its name in the
-- directory.
pub record IsChild (base : String) (e : FileEntry) : Type 0 where
  pub not_here : e.name ≢ "."
  pub not_parent : e.name ≢ ".."
  pub below : e.path ≡ child_path base e.name

cons_entry-IsChild :
    (base : String) (e : Option FileEntry) (rest : List FileEntry)
    → ((x : FileEntry) → e ≡ some x → IsChild base x)
    → All (IsChild base) rest
    → All (IsChild base) (cons_entry e rest)
cons_entry-IsChild base none rest h k = k
cons_entry-IsChild base (some x) rest h k = (h x refl, k)

entry_of-IsChild :
    (base : String) (l : List String) (x : FileEntry) → entry_of base l ≡ some x → IsChild base x
unfolding entry_of
entry_of-IsChild base (a ∷ b ∷ c ∷ d ∷ e ∷ f ∷ g ∷ h ∷ first ∷ more) x q =
    let name = join_words (first ∷ more) in
    elim (Bool-cases (str_eq name "." || str_eq name "..")) [
      | inl t ↦ cc (rw t at q)
      | inr t ↦ subst (IsChild base) (some-injective _ _ (rw t at q)) (record {
        not_here = ground (arith, eq_iff name ".");
        not_parent = ground (arith, eq_iff name "..");
        below = refl;
      })
    ]
entry_of-IsChild base l x q = cc

lines-IsChild : (base : String) (lines : List String) → All (IsChild base) (parse_lines base lines)
unfolding parse_lines
lines-IsChild base [] = tt
lines-IsChild base (l ∷ lines) =
    let rest = lines-IsChild base lines in
    elim (Bool-cases (is_empty (trim_space l) || starts_with (trim_space l) "total")) [
      | inl t ↦ rw t rest
      | inr t ↦
          rw t (cons_entry-IsChild base _ _ (entry_of-IsChild base (fields (trim_space l))) rest)
    ]

-- Whatever the pod prints, every entry of a listing is a child of the listed directory: its path is
-- that of its name in the directory, and it is neither of the two dot entries.
parse_ls_output-Children : (output base : String) → All (IsChild base) (parse_ls_output output base)
unfolding parse_ls_output
parse_ls_output-Children output base = lines-IsChild base (split 0x0a output)
