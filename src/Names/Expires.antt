-- ===== src/Names/Expires.antt =====
-- `Expire` of src/v1/fs.rs: print and parse, and the texts on which parsing panics.
use rust_filen.Base.{
  ℕ, ◌-◌, ◌≤◌, ◌<◌, ◌≡◌, ◌≢◌, ◌↔◌, refl, ◌∙◌, ap, [], ◌∷◌, ◌++◌, some, true, false, ok, returns,
  panics, arith, if◌then◌else◌, length, length-append, take-append, drop-append, get_last?, map,
  Bool-cases, inl, inr, le→ltb,
}
use rust_filen.Base.Text.{
  Bytes, codes, bytes_eq, bytes_eq_sound, to_ascii_lowercase, eq_ignore_ascii_case, is_continuation,
}
use rust_filen.Base.Decimal.{decimal, decimal-ne-nil, parse_unsigned-decimal, u32_max}
use rust_filen.Names.{
  Expire, never, hours, days, split_at, unit_of, duration_of, parse_expire, print_expire,
}

get_last?-map_append :
    (s : Bytes) (c : ℕ)
    → get_last? (map to_ascii_lowercase (s ++ c ∷ [])) ≡ some (to_ascii_lowercase c)
get_last?-map_append [] c = refl
get_last?-map_append (a ∷ []) c = refl
get_last?-map_append (a ∷ b ∷ s) c = get_last?-map_append (b ∷ s) c

-- Only a text that ends in `r` can be "never".
not_never :
    (s : Bytes) (c : ℕ)
    → to_ascii_lowercase c ≢ b'r'
    → eq_ignore_ascii_case (s ++ c ∷ []) (codes "never") ≡ false
unfolding eq_ignore_ascii_case
not_never s c h =
    elim (Bool-cases (bytes_eq (map to_ascii_lowercase (s ++ c ∷ [])) (codes "never"))) [
      | inl e ↦ absurd (
          h (
            cc (
              get_last?-map_append s c,
              ap get_last?
                  (bytes_eq_sound (map to_ascii_lowercase (s ++ c ∷ [])) (codes "never") e),
            )))
      | inr e ↦ e
    ]

split_at_last :
    (s : Bytes) (c : ℕ)
    → split_at (s ++ c ∷ []) (length (s ++ c ∷ []) - 1)
      ≡ (if is_continuation c then panics else returns (s, c ∷ []))
split_at_last s c =
    let e : length (s ++ c ∷ []) - 1 ≡ length s = omega (arith, length-append s (c ∷ [])) in
    rw (e, drop-append s (c ∷ []), take-append s (c ∷ []))

length_pos : (s : Bytes) → s ≢ [] → 0 < length s
length_pos [] h = absurd (h refl)
length_pos (a ∷ s) h = omega arith

parse_expire_last :
    (s : Bytes) (c : ℕ)
    → s ≢ []
    → to_ascii_lowercase c ≢ b'r'
    → parse_expire (s ++ c ∷ [])
      ≡ (if is_continuation c then panics else returns (duration_of (s ++ c ∷ []) (s, c ∷ [])))
unfolding parse_expire
parse_expire_last s c ne h =
    let long : 2 ≤ length (s ++ c ∷ []) =
      omega (arith, length-append s (c ∷ []), length_pos s ne) in
    rw (not_never s c h, le→ltb (length (s ++ c ∷ [])) 2 long, split_at_last s c, parse_expire)
      (ground arith)

-- The amount is a `u32`, as its type in the source says.
abbrev pub IsU32 : Expire → Type 0
IsU32 never = Unit
IsU32 (hours n) = n ≤ u32_max
IsU32 (days n) = n ≤ u32_max

duration_of-decimal :
    (n c : ℕ)
    → n ≤ u32_max
    → duration_of (decimal n ++ c ∷ []) (decimal n, c ∷ []) ≡ unit_of (c ∷ []) n
duration_of-decimal n c h = rw (parse_unsigned-decimal u32_max n h (omega arith), duration_of)

-- Every expiration is read back from its text, and reading it does not panic.
pub parse_expire-print_expire :
    (e : Expire) → IsU32 e → parse_expire (print_expire e) ≡ returns (ok e)
unfolding print_expire
parse_expire-print_expire never h = unfold parse_expire eq_ignore_ascii_case in refl
parse_expire-print_expire (hours n) h =
    parse_expire_last (decimal n) b'h' (decimal-ne-nil n) (omega arith)
    ∙ ap returns (duration_of-decimal n b'h' h)
parse_expire-print_expire (days n) h =
    parse_expire_last (decimal n) b'd' (decimal-ne-nil n) (omega arith)
    ∙ ap returns (duration_of-decimal n b'd' h)

no_panic : (s : Bytes) (c : ℕ) → is_continuation c ≡ false → parse_expire (s ++ c ∷ []) ≢ panics
unfolding parse_expire
no_panic s c h = rw (split_at_last s c, parse_expire, h) (ground arith)

one_byte : (c : ℕ) → parse_expire (c ∷ []) ≢ panics
unfolding parse_expire
one_byte c = ground arith

-- A text panics in `Expire::from_str` exactly when it has two bytes or more and the last one does
-- not begin a character, as at the end of "1é": the split before the last byte is then inside it.
pub parse_expire-panics_iff :
    (s : Bytes) (c : ℕ)
    → (parse_expire (s ++ c ∷ []) ≡ panics) ↔ ((s ≢ []) × (is_continuation c ≡ true))
parse_expire-panics_iff s c = (forward, λ h. parse_expire_last s c h.0 (ground arith) ∙ rw h.1 refl)
  where
    forward : parse_expire (s ++ c ∷ []) ≡ panics → (s ≢ []) × (is_continuation c ≡ true)
    forward e = (
      λ empty. one_byte c (rw empty at e),
      elim (Bool-cases (is_continuation c)) [ inl t ↦ t | inr f ↦ absurd (no_panic s c f e) ],
    )
