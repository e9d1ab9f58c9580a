-- ===== src/Api/Import/Tests.antt =====
-- `sanitizeName` at concrete names, those of backup_import_test.go among them.
use Prim.Native.Char.{Char}
use kubecp.Common.{String, ◌<>◌, ◌≡◌, refl, true}
use kubecp.Common.Text.{split, trim_slashes, to_lower, has_suffix, replace_char}
use kubecp.Api.Import.{
  is_name_char, keep_name_chars, trim_left_dashes, trim_right_dashes, take, base, sanitize_name,
}
use kubecp.Api.Import.Laws.{IsName, sanitize_name-IsName}

abbrev same_letter : Char → Char
same_letter c = c

abbrev fifty : String
fifty = "aaaaaaaaaaaaaaaaaaaaaaaaaaaaaaaaaaaaaaaaaaaaaaaaaa"

-- A name of 252 letters, a hyphen and one letter more.
abbrev long_name : String
long_name = fifty <> fifty <> fifty <> fifty <> fifty <> "aa-b"

domain_name : sanitize_name same_letter "Example.com" ≡ "example-com"
unfolding sanitize_name to_lower replace_char is_name_char keep_name_chars trim_left_dashes
    trim_right_dashes take base split trim_slashes
domain_name = refl

mail_name : sanitize_name same_letter "_user@domain.com--" ≡ "user-at-domain-com"
unfolding sanitize_name to_lower replace_char is_name_char keep_name_chars trim_left_dashes
    trim_right_dashes take base split trim_slashes
mail_name = refl

no_name : sanitize_name same_letter "!/#" ≡ "imported"
unfolding sanitize_name to_lower replace_char is_name_char keep_name_chars trim_left_dashes
    trim_right_dashes take base split trim_slashes
no_name = refl

-- The cut at 253 characters comes behind the trimming, and leaves a hyphen at the end.
dashed_end : has_suffix (sanitize_name same_letter long_name) "-" ≡ true
unfolding sanitize_name to_lower replace_char is_name_char keep_name_chars trim_left_dashes
    trim_right_dashes take base split trim_slashes has_suffix
dashed_end = refl

sanitize_name-IsName_example : IsName (sanitize_name same_letter "_User@domain.com--")
sanitize_name-IsName_example = sanitize_name-IsName same_letter "_User@domain.com--"
