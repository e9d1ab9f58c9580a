-- ===== src/Api/Files/Paths/Laws.antt =====
-- On `sanitizePath` of filemanager.go.
use Prim.Native.Char.{Char, code}
use Prim.Native.String.{[], ◌∷◌}
use text.Mathlib.TextLemmas.{nil-append, cons-append}
use kubecp.Common.{
  String, ◌<>◌, str_eq, eq_iff, ◌≡◌, ◌≢◌, refl, ap, ◌∙◌, ◌⊎◌, inl, inr, Bool, true, false, ◌==◌,
  List, [], ◌∷◌, All, arith, Bool-cases, Bool-decides,
}
use kubecp.Common.Text.{is_empty, split, cons_head}
use kubecp.Common.Text.Laws.{is_empty_iff}
use kubecp.Api.Files.Paths.{
  has_dots, is_rooted, go_up, clean_parts, join_path, cleaned, clean, trim_slash, sanitize_path,
}

-- No slash is in the text.
abbrev pub NoSlash : String → Type 0
NoSlash [] = Unit
NoSlash (c ∷ s) = ((code c == b'/') ≡ false) × NoSlash s

-- The name of a file or a directory: not empty, without a slash, and not the parent directory.
pub record IsName (n : String) : Type 0 where
  pub some_char : n ≢ ""
  pub no_slash : NoSlash n
  pub no_parent : n ≢ ".."

-- An element that is kept, the parent directory included.
record IsPart (n : String) : Type 0 where
  filled : n ≢ ""
  whole : NoSlash n

split-NoSlash : (s : String) → All NoSlash (split b'/' s)
unfolding split
split-NoSlash [] = (tt, tt)
split-NoSlash (c ∷ s) = elim (Bool-cases (code c == b'/')) [
  | inl e ↦ rw e (tt, split-NoSlash s)
  | inr e ↦ rw e (cons_head-NoSlash c (split b'/' s) e (split-NoSlash s))
]
  where
    cons_head-NoSlash :
        (c : Char) (l : List String)
        → (code c == b'/') ≡ false
        → All NoSlash l
        → All NoSlash (cons_head c l)
    cons_head-NoSlash c [] e h = ((e, tt), tt)
    cons_head-NoSlash c (a ∷ l) e (h, k) = ((e, h), k)

parent-IsPart : IsPart ".."
parent-IsPart = record { filled = ground (arith, eq_iff ".." ""); whole = (refl, (refl, tt)) }

go_up-IsPart :
    (rooted : Bool) (kept : List String) → All IsPart kept → All IsPart (go_up rooted kept)
unfolding go_up
go_up-IsPart true [] h = tt
go_up-IsPart false [] h = (parent-IsPart, tt)
go_up-IsPart rooted (top ∷ rest) (h, k) = elim (Bool-cases (str_eq top "..")) [
  | inl e ↦ rw e (parent-IsPart, (h, k))
  | inr e ↦ rw e k
]

clean_parts-IsPart :
    (rooted : Bool) (kept xs : List String)
    → All IsPart kept
    → All NoSlash xs
    → All IsPart (clean_parts rooted kept xs)
unfolding clean_parts
clean_parts-IsPart rooted kept [] h k = h
clean_parts-IsPart rooted kept (x ∷ xs) h (q, k) =
    elim (Bool-decides (is_empty x) (is_empty_iff x)) [
      | inl (e, t) ↦ rw t (clean_parts-IsPart rooted kept xs h k)
      | inr (e, t) ↦ elim (Bool-cases (str_eq x ".")) [
        | inl d ↦ rw (t, d) (clean_parts-IsPart rooted kept xs h k)
        | inr d ↦ elim (Bool-cases (str_eq x "..")) [
          | inl u ↦
              rw (t, d, u)
                (clean_parts-IsPart rooted (go_up rooted kept) xs (go_up-IsPart rooted kept h) k)
          | inr u ↦
              rw (t, d, u)
                (clean_parts-IsPart rooted (x ∷ kept) xs (record { filled = e; whole = q }, h) k)
        ]
      ]
    ]

has_dots_front : (s t : String) → has_dots s ≡ true → has_dots (s <> t) ≡ true
unfolding has_dots
has_dots_front [] t h = ground arith
has_dots_front (c ∷ []) t h = ground arith
has_dots_front (c ∷ d ∷ s) t h =
    let ih : has_dots (d ∷ s) ≡ true → has_dots (d ∷ (s <> t)) ≡ true =
      λ q. rw cons-append at (has_dots_front (d ∷ s) t q) in
    rw (cons-append, cons-append) (ground (arith, ih))

has_dots_cons : (c : Char) (t : String) → has_dots t ≡ true → has_dots (c ∷ t) ≡ true
unfolding has_dots
has_dots_cons c [] h = ground arith
has_dots_cons c (d ∷ t) h = ground arith

has_dots_back : (s t : String) → has_dots t ≡ true → has_dots (s <> t) ≡ true
has_dots_back [] t h = rw nil-append h
has_dots_back (c ∷ s) t h = rw cons-append (has_dots_cons c (s <> t) (has_dots_back s t h))

-- No part of a text without dots has dots.
no_dots : (s t : String) → has_dots (s <> t) ≡ false → (has_dots s ≡ false) × (has_dots t ≡ false)
no_dots s t h = ground (arith, has_dots_front s t, has_dots_back s t)

-- An element of a path without dots is not the parent directory.
part-IsName : (x : String) → IsPart x → has_dots x ≡ false → IsName x
unfolding has_dots
part-IsName x p h = record {
  some_char = p.filled;
  no_slash = p.whole;
  no_parent = λ e. cc (h, ap has_dots e);
}

join_path-IsName : (l : List String) → All IsPart l → has_dots (join_path l) ≡ false → All IsName l
unfolding join_path
join_path-IsName [] k h = tt
join_path-IsName (x ∷ []) (p, k) h = (part-IsName x p h, tt)
join_path-IsName (x ∷ y ∷ l) (p, k) h =
    let (front, back) = no_dots (join_path (y ∷ l)) ("/" <> x) h in
    (part-IsName x p (no_dots "/" x back).1, join_path-IsName (y ∷ l) k front)

-- A path of elements begins with a character that is not a slash.
record Begins (s : String) : Type 0 where
  first : Char
  others : String
  begins : s ≡ first ∷ others
  no_slash : (code first == b'/') ≡ false

part-Begins : (x : String) → IsPart x → Begins x
part-Begins [] p = absurd (p.filled refl)
part-Begins (c ∷ s) p = record { first = c; others = s; begins = refl; no_slash = p.whole.0 }

join_path-Begins : (x : String) (l : List String) → All IsPart (x ∷ l) → Begins (join_path (x ∷ l))
unfolding join_path
join_path-Begins x [] (p, k) = part-Begins x p
join_path-Begins x (y ∷ l) (p, k) =
    let b = join_path-Begins y l k in
    record {
      first = b.first;
      others = b.others <> "/" <> x;
      begins = ap (λ s. s <> ("/" <> x)) b.begins ∙ cons-append b.first b.others ("/" <> x);
      no_slash = b.no_slash;
    }

trim_slash_lem : (s : String) → Begins s → trim_slash s ≡ s
unfolding trim_slash
trim_slash_lem s b = rw (b.begins, trim_slash, b.no_slash)

trim_slash_front : (s : String) → trim_slash ("/" <> s) ≡ s
unfolding trim_slash
trim_slash_front s = rw (cons-append, nil-append)

-- Below the directory that the path is appended to: nothing, the directory itself, or names.
abbrev pub Below : String → Type 0
Below q = (q ≡ "") ⊎ (q ≡ ".") ⊎ ((names : List String) × All IsName names × (q ≡ join_path names))

-- The path without its slash is one of the directory, or of kept elements.
trimmed :
    (rooted : Bool) (kept : List String)
    → All IsPart kept
    → (trim_slash (cleaned rooted kept) ≡ ".") ⊎ (trim_slash (cleaned rooted kept) ≡ join_path kept)
unfolding trim_slash
trimmed true kept k = inr (trim_slash_front (join_path kept))
trimmed false [] k = inl refl
trimmed false (x ∷ kept) k = inr (trim_slash_lem _ (join_path-Begins x kept k))

-- Whatever path a request names, the sanitized one is empty, or ".", or consists of names of files
-- below the directory: it is not absolute, and no element of it is the parent directory.
pub sanitize_path-Below : (path : String) → Below (sanitize_path path)
unfolding sanitize_path clean
sanitize_path-Below path =
    let parts = clean_parts-IsPart (is_rooted path) [] (split b'/' path) tt (split-NoSlash path) in
    elim (Bool-cases (has_dots (trim_slash (clean path)))) [
      | inl e ↦ rw e (inl refl)
      | inr e ↦ elim (trimmed (is_rooted path) _ parts) [
        | inl d ↦ inr (inl (rw (e) d))
        | inr j ↦ inr (inr (_, join_path-IsName _ parts (rw j at e), rw (e) j))
      ]
    ]
