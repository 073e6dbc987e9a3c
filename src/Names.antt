-- ===== src/Names.antt =====
-- The textual values of the API: src/v1/fs.rs (`Expire`, `ParentOrBase`, `ParentOrNone`) and
-- src/v1/dirs.rs (`ContentKind`). A string is the list of its UTF-8 bytes. The crate `uuid` is a
-- parameter.
pub mod Expires
pub mod Parents
use rust_filen.Base.{
  ℕ, ◌+◌, ◌-◌, ◌≡◌, ◌≢◌, ◌↔◌, refl, List, [], ◌∷◌, ◌++◌, Option, none, some, Bool, true, false,
  Result, ok, err, Outcome, returns, panics, ltb, ◌==◌, if◌then◌else◌, length, take, drop, map_err,
  is_empty, map_ok, All,
}
use rust_filen.Base.Text.{Bytes, codes, bytes_eq, eq_ignore_ascii_case, is_continuation}
use rust_filen.Base.Decimal.{ParseIntError, decimal, parse_unsigned, u32_max}

-- The crate `uuid`: `Uuid::parse_str`, `as_hyphenated().to_string()` and `==`.
pub record Uuids : Type 1 where
  pub Uuid : Type 0
  pub parse_str : Bytes → Option Uuid
  pub hyphenated : Uuid → Bytes
  pub eq : Uuid → Uuid → Bool

-- What the crate documents: the hyphenated form has 36 characters, hexadecimal digits and hyphens, so no
-- slash, and is read back; `==` is equality.
pub record IsUuids (u : Uuids) : Type 0 where
  pub parse_str-hyphenated : (id : u.Uuid) → u.parse_str (u.hyphenated id) ≡ some id
  pub length-hyphenated : (id : u.Uuid) → length (u.hyphenated id) ≡ 36
  pub hyphenated-All : (id : u.Uuid) → All (λ b. b ≢ b'/') (u.hyphenated id)
  pub eq_iff : (a b : u.Uuid) → (u.eq a b ≡ true) ↔ (a ≡ b)

pub data Expire : Type 0 where
  never : Expire
  hours : ℕ → Expire
  days : ℕ → Expire

-- The errors of src/v1/fs.rs and src/v1/dirs.rs that parsing returns.
pub data ParseError : Type 0 where
  duration_is_too_short : Bytes → ParseError
  duration_unit_unsupported : Bytes → ParseError
  duration_value_is_not_num : Bytes → ParseIntError → ParseError
  cannot_parse_parent_or_base : ℕ → ParseError
  cannot_parse_parent_or_none : ℕ → ParseError
  cannot_parse_content_kind : ℕ → ParseError

-- The two parts of a split, unless the second begins inside a character.
abbrev pub at_boundary : Bytes → Bytes → Outcome (Bytes × Bytes)
at_boundary before [] = returns (before, [])
at_boundary before (c ∷ rest) = if is_continuation c then panics else returns (before, c ∷ rest)

-- `str::split_at` within the string, which panics inside a character.
abbrev pub split_at : Bytes → ℕ → Outcome (Bytes × Bytes)
split_at s mid = at_boundary (take mid s) (drop mid s)

abbrev unit_of : Bytes → ℕ → Result Expire ParseError
unit_of unit value =
    if bytes_eq unit (codes "d")
    then ok (days value)
    else if bytes_eq unit (codes "h")
    then ok (hours value)
    else err (duration_unit_unsupported unit)

-- The duration branch of `from_str`, with its two parts.
abbrev duration_of : Bytes → Bytes × Bytes → Result Expire ParseError
duration_of text (raw_value, unit) = elim (parse_unsigned u32_max raw_value) [
  | ok value ↦ unit_of unit value
  | err e ↦ err (duration_value_is_not_num text e)
]

-- `<Expire as FromStr>::from_str`
unfoldable pub parse_expire : Bytes → Outcome (Result Expire ParseError)
parse_expire text =
    if eq_ignore_ascii_case text (codes "never")
    then returns (ok never)
    else if ltb (length text) 2
    then returns (err (duration_is_too_short text))
    else elim (split_at text (length text - 1)) [
      | panics ↦ panics
      | returns parts ↦ returns (duration_of text parts)
    ]

-- `<Expire as Serialize>::serialize`
unfoldable pub print_expire : Expire → Bytes
print_expire never = codes "never"
print_expire (hours n) = decimal n ++ codes "h"
print_expire (days n) = decimal n ++ codes "d"

module _ (u : Uuids) where
  pub data ParentOrBase : Type 0 where
    base : ParentOrBase
    folder : u.Uuid → ParentOrBase

  pub data ParentOrNone : Type 0 where
    no_parent : ParentOrNone
    parent : u.Uuid → ParentOrNone

  pub data ContentKind : Type 0 where
    trash : ContentKind
    content : u.Uuid → ContentKind

  -- The shape that the three `FromStr` implementations share.
  abbrev keyword_or_uuid :
      {A : Type 0} → Bytes → A → (u.Uuid → A) → ParseError → Bytes → Result A ParseError
  keyword_or_uuid keyword value wrap e text =
      if eq_ignore_ascii_case text keyword
      then ok value
      else elim (u.parse_str text) [ some id ↦ ok (wrap id) | none ↦ err e ]

  unfoldable pub parse_parent_or_base : Bytes → Result ParentOrBase ParseError
  parse_parent_or_base text =
      keyword_or_uuid (codes "base") base folder (cannot_parse_parent_or_base (length text)) text

  unfoldable pub parse_parent_or_none : Bytes → Result ParentOrNone ParseError
  parse_parent_or_none text =
      keyword_or_uuid (codes "none") no_parent parent (cannot_parse_parent_or_none (length text))
        text

  unfoldable pub parse_content_kind : Bytes → Result ContentKind ParseError
  parse_content_kind text =
      keyword_or_uuid (codes "trash") trash content (cannot_parse_content_kind (length text)) text

  unfoldable pub print_parent_or_base : ParentOrBase → Bytes
  print_parent_or_base base = codes "base"
  print_parent_or_base (folder id) = u.hyphenated id

  unfoldable pub print_parent_or_none : ParentOrNone → Bytes
  print_parent_or_none no_parent = codes "none"
  print_parent_or_none (parent id) = u.hyphenated id

  unfoldable pub print_content_kind : ContentKind → Bytes
  print_content_kind trash = codes "trash"
  print_content_kind (content id) = u.hyphenated id

  -- `ParentOrBase::as_parent_or_none`, `ParentOrNone::as_parent_or_base`
  unfoldable pub as_parent_or_none : ParentOrBase → ParentOrNone
  as_parent_or_none base = no_parent
  as_parent_or_none (folder id) = parent id

  unfoldable pub as_parent_or_base : ParentOrNone → ParentOrBase
  as_parent_or_base no_parent = base
  as_parent_or_base (parent id) = folder id

six_hours : parse_expire (codes "6h") ≡ returns (ok (hours 6))
unfolding parse_expire eq_ignore_ascii_case parse_unsigned
six_hours = refl

any_case_never : parse_expire (codes "NeVeR") ≡ returns (ok never)
unfolding parse_expire eq_ignore_ascii_case
any_case_never = refl
