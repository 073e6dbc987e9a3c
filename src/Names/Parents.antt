-- ===== src/Names/Parents.antt =====
-- Round trips of `ParentOrBase`, `ParentOrNone` (src/v1/fs.rs) and `ContentKind` (src/v1/dirs.rs).
use rust_filen.Base.{◌≡◌, ◌≢◌, refl, false, ok, arith, length}
use rust_filen.Base.Text.{Bytes, codes, eq_ignore_ascii_case, eq_ignore_ascii_case-length}
use rust_filen.Names.{
  Uuids, IsUuids, ParentOrBase, ParentOrNone, ContentKind, base, folder, no_parent, parent, trash,
  content, parse_parent_or_base, parse_parent_or_none, parse_content_kind, print_parent_or_base,
  print_parent_or_none, print_content_kind, as_parent_or_none, as_parent_or_base,
}

module _ (u : Uuids) (lawful : IsUuids u) where
  not_keyword :
      (id : u.Uuid) (keyword : Bytes)
      → length keyword ≢ 36
      → eq_ignore_ascii_case (u.hyphenated id) keyword ≡ false
  not_keyword id keyword h =
      eq_ignore_ascii_case-length (u.hyphenated id) keyword
        (λ e. h (omega (arith, lawful.length-hyphenated id)))

  parse_base : (p : ParentOrBase u) → parse_parent_or_base u (print_parent_or_base u p) ≡ ok p
  unfolding parse_parent_or_base print_parent_or_base
  parse_base base = unfold eq_ignore_ascii_case in refl
  parse_base (folder id) =
      rw (not_keyword id (codes "base") (omega arith), lawful.parse_str-hyphenated id)

  parse_none : (p : ParentOrNone u) → parse_parent_or_none u (print_parent_or_none u p) ≡ ok p
  unfolding parse_parent_or_none print_parent_or_none
  parse_none no_parent = unfold eq_ignore_ascii_case in refl
  parse_none (parent id) =
      rw (not_keyword id (codes "none") (omega arith), lawful.parse_str-hyphenated id)

  parse_kind : (k : ContentKind u) → parse_content_kind u (print_content_kind u k) ≡ ok k
  unfolding parse_content_kind print_content_kind
  parse_kind trash = unfold eq_ignore_ascii_case in refl
  parse_kind (content id) =
      rw (not_keyword id (codes "trash") (omega arith), lawful.parse_str-hyphenated id)

  as_parent_or_base-as_parent_or_none :
      (p : ParentOrBase u) → as_parent_or_base u (as_parent_or_none u p) ≡ p
  unfolding as_parent_or_base as_parent_or_none
  as_parent_or_base-as_parent_or_none base = refl
  as_parent_or_base-as_parent_or_none (folder id) = refl

-- A parent that was read as a "base" reference and is sent on as a "none" reference is read by the
-- other side as the same folder, the base folder included, for a crate `uuid` that reads its
-- hyphenated form of 36 characters back.
pub parents-print :
    (u : Uuids)
    → IsUuids u
    → (p : ParentOrBase u)
    → (parse_parent_or_base u (print_parent_or_base u p) ≡ ok p)
      × (parse_parent_or_none u (print_parent_or_none u (as_parent_or_none u p))
          ≡ ok (as_parent_or_none u p))
      × (as_parent_or_base u (as_parent_or_none u p) ≡ p)
parents-print u l p = (
  parse_base u l p,
  parse_none u l (as_parent_or_none u p),
  as_parent_or_base-as_parent_or_none u l p,
)

-- Every content kind is read back from its text, for such a crate `uuid`.
pub parse_content_kind-print :
    (u : Uuids)
    → IsUuids u
    → (k : ContentKind u) → parse_content_kind u (print_content_kind u k) ≡ ok k
parse_content_kind-print u l k = parse_kind u l k
