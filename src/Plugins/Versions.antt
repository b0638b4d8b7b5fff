-- ===== src/Plugins/Versions.antt =====
-- plugins/registry.py: versions. `int(part)`, where `part.isdigit()`, is a parameter.
use nanexus_event_intelligen.Prelude.{
  ℕ, String, Bool, ◌&&◌, ◌||◌, Option, none, some, List, [], ◌∷◌, eqb, ltb, ◌==◌, string_eq,
  if◌then◌else◌,
}
use nanexus_event_intelligen.Prelude.Texts.{append}
use nanexus_event_intelligen.Core.{Result, ok, err, value_error}

pub record Version : Type 0 where
  pub major : ℕ
  pub minor : ℕ
  pub patch : ℕ

-- `text.split(sep, 1)[0]`, for a separator of one character.
unfoldable pub before : String → String → String
before sep String.[] = ""
before sep (String.◌∷◌ c s) =
    let rest = before sep s in if String.◌∷◌ c String.[] == sep then "" else String.◌∷◌ c rest

abbrev prepend : String → List String → List String
prepend c [] = c ∷ []
prepend c (part ∷ parts) = append c part ∷ parts

-- `text.split(".")`
unfoldable pub split_dots : String → List String
split_dots String.[] = "" ∷ []
split_dots (String.◌∷◌ c s) =
    let rest = split_dots s in
    if String.◌∷◌ c String.[] == "." then "" ∷ rest else prepend (String.◌∷◌ c String.[]) rest

abbrev numbers : Option ℕ → Option ℕ → Option ℕ → Option Version
numbers (some a) (some b) (some c) = some (record { major = a; minor = b; patch = c })
numbers _ _ _ = none

abbrev parts_of : (String → Option ℕ) → List String → Option Version
parts_of int (a ∷ b ∷ c ∷ []) = numbers (int a) (int b) (int c)
parts_of int _ = none

abbrev or_invalid : String → Option Version → Result Version
or_invalid version none = err (value_error (append "invalid semantic version: " version))
or_invalid version (some v) = ok v

-- `_version_tuple`
unfoldable pub version_tuple : (String → Option ℕ) → String → Result Version
version_tuple int version =
    or_invalid version (parts_of int (split_dots (before "+" (before "-" version))))

-- `a > b` on tuples.
abbrev pub is_later : Version → Version → Bool
is_later a b =
    ltb b.major a.major
    || (eqb a.major b.major
        && (ltb b.minor a.minor || (eqb a.minor b.minor && ltb b.patch a.patch)))
