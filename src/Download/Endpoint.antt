-- ===== src/Download/Endpoint.antt =====
-- `filen_file_location_to_api_endpoint` of src/utils.rs: where the chunk of a file is asked for.
use rust_filen.Base.{
  ℕ, ◌≤◌, ◌≡◌, ◌≢◌, refl, sym, ap, ◌∙◌, [], ◌∷◌, ◌++◌, append-nil, false, ◌==◌, All, All-imp,
  length, arith,
}
use rust_filen.Base.Text.{Bytes}
use rust_filen.Base.Decimal.{
  IsDigit, decimal, decimal-All, decimal-ne-nil, parse_unsigned, parse_unsigned-decimal, u32_max,
}
use rust_filen.Names.{Uuids, IsUuids}
use rust_filen.Download.{
  FileChunkLocation, replace_double_slash, filen_file_address_to_api_endpoint,
  filen_file_location_to_api_endpoint,
}

-- A part of a path.
abbrev pub IsPart : Bytes → Type 0
IsPart = All (λ b. b ≢ b'/')

kept :
    (a b : ℕ) (s : Bytes)
    → a ≢ b'/'
    → replace_double_slash (a ∷ b ∷ s) ≡ a ∷ replace_double_slash (b ∷ s)
kept a b s h =
    let other : (a == b'/') ≡ false = ground (arith, h) in rw (other, replace_double_slash) refl

copy-part :
    (p s : Bytes)
    → IsPart p
    → replace_double_slash (p ++ b'/' ∷ s) ≡ p ++ replace_double_slash (b'/' ∷ s)
copy-part [] s h = refl
copy-part (a ∷ []) s (ha, _) = kept a b'/' s ha
copy-part (a ∷ b ∷ p) s (ha, hs) =
    kept a b (p ++ b'/' ∷ s) ha ∙ ap (λ t. a ∷ t) (copy-part (b ∷ p) s hs)

last-part : (p : Bytes) → IsPart p → replace_double_slash p ≡ p
last-part [] h = refl
last-part (a ∷ []) h = refl
last-part (a ∷ b ∷ p) (ha, hs) = kept a b p ha ∙ ap (λ t. a ∷ t) (last-part (b ∷ p) hs)

after-slash :
    (p s : Bytes)
    → IsPart p
    → p ≢ []
    → replace_double_slash (b'/' ∷ p ++ s) ≡ b'/' ∷ replace_double_slash (p ++ s)
after-slash [] s h full = absurd (full refl)
after-slash (b ∷ p) s (hb, _) full =
    let other : (b == b'/') ≡ false = ground (arith, hb) in rw (other, replace_double_slash) refl

last-segment : (x : Bytes) → IsPart x → x ≢ [] → replace_double_slash (b'/' ∷ x) ≡ b'/' ∷ x
last-segment x hx full =
    ap (λ t. replace_double_slash (b'/' ∷ t)) (sym (append-nil x))
    ∙ after-slash x [] hx full
    ∙ ap (λ t. b'/' ∷ t) (ap replace_double_slash (append-nil x) ∙ last-part x hx)

-- Parts that are not empty are joined as they are.
joined :
    (r b d e : Bytes)
    → IsPart r
    → IsPart b
    → b ≢ []
    → IsPart d
    → d ≢ []
    → IsPart e
    → e ≢ []
    → replace_double_slash (r ++ (b'/' ∷ b ++ (b'/' ∷ d ++ (b'/' ∷ e))))
      ≡ r ++ (b'/' ∷ b ++ (b'/' ∷ d ++ (b'/' ∷ e)))
joined r b d e hr hb full_b hd full_d he full_e =
    copy-part r (b ++ (b'/' ∷ d ++ (b'/' ∷ e))) hr
    ∙ ap (λ t. r ++ t)
        (after-slash b (b'/' ∷ d ++ (b'/' ∷ e)) hb full_b
          ∙ ap (λ t. b'/' ∷ t)
              (copy-part b (d ++ (b'/' ∷ e)) hb
                ∙ ap (λ t. b ++ t)
                    (after-slash d (b'/' ∷ e) hd full_d
                      ∙ ap (λ t. b'/' ∷ t)
                          (copy-part d e hd ∙ ap (λ t. d ++ t) (last-segment e he full_e)))))

-- A part behind a slash; nothing for an empty part.
abbrev pub segment : Bytes → Bytes
segment [] = []
segment (b ∷ p) = b'/' ∷ b ∷ p

-- The parts of a location's address that are not empty behind the region, with single slashes.
abbrev pub path_of : (u : Uuids) → FileChunkLocation u → Bytes
path_of u l =
    l.region
    ++ (segment l.bucket ++ (b'/' ∷ u.hyphenated l.file_uuid ++ (b'/' ∷ decimal l.chunk_index)))

-- An empty part is left out with its slash.
joined_segment :
    (r b d e : Bytes)
    → IsPart r
    → IsPart b
    → IsPart d
    → d ≢ []
    → IsPart e
    → e ≢ []
    → replace_double_slash (r ++ (b'/' ∷ b ++ (b'/' ∷ d ++ (b'/' ∷ e))))
      ≡ r ++ (segment b ++ (b'/' ∷ d ++ (b'/' ∷ e)))
joined_segment r [] d e hr hb hd full_d he full_e =
    copy-part r (b'/' ∷ d ++ (b'/' ∷ e)) hr
    ∙ ap (λ t. r ++ b'/' ∷ t) (copy-part d e hd ∙ ap (λ t. d ++ t) (last-segment e he full_e))
joined_segment r (b ∷ p) d e hr hb hd full_d he full_e =
    joined r (b ∷ p) d e hr hb (λ x. cc x) hd full_d he full_e

-- A path has one first part and one rest.
parts : (p q s t : Bytes) → IsPart p → IsPart q → p ++ b'/' ∷ s ≡ q ++ b'/' ∷ t → (p ≡ q) × (s ≡ t)
parts [] [] s t hp hq h = (refl, cc h)
parts [] (b ∷ q) s t hp (hb, _) h = let same : b'/' ≡ b = cc h in absurd (hb (sym same))
parts (a ∷ p) [] s t (ha, _) hq h = let same : a ≡ b'/' = cc h in absurd (ha same)
parts (a ∷ p) (b ∷ q) s t (ha, hp) (hb, hq) h =
    let first : a ≡ b = cc h in
    let (same, rest) = parts p q s t hp hq (cc h) in (cc (first, same), rest)

-- A part holds no slash.
parts-absurd : (e p s : Bytes) → IsPart e → e ≢ p ++ b'/' ∷ s
parts-absurd [] [] s h x = cc x
parts-absurd [] (b ∷ p) s h x = cc x
parts-absurd (a ∷ e) [] s (ha, _) x = let same : a ≡ b'/' = cc x in ha same
parts-absurd (a ∷ e) (b ∷ p) s (_, he) x = parts-absurd e p s he (cc x)

-- The rest of an address tells the bucket, empty or not, and what follows it.
tails :
    (b b' d d' e e' : Bytes)
    → IsPart b
    → IsPart b'
    → IsPart d
    → IsPart d'
    → IsPart e
    → IsPart e'
    → segment b ++ (b'/' ∷ d ++ (b'/' ∷ e)) ≡ segment b' ++ (b'/' ∷ d' ++ (b'/' ∷ e'))
    → (b ≡ b') × (d ≡ d') × (e ≡ e')
tails [] [] d d' e e' hb hb' hd hd' he he' h =
    let (id, index) = parts d d' e e' hd hd' (cc h) in (refl, id, index)
tails [] (b' ∷ q) d d' e e' hb hb' hd hd' he he' h =
    let (_, rest) = parts d (b' ∷ q) e (d' ++ b'/' ∷ e') hd hb' (cc h) in
    absurd (parts-absurd e d' e' he rest)
tails (b ∷ p) [] d d' e e' hb hb' hd hd' he he' h =
    let (_, rest) = parts (b ∷ p) d' (d ++ b'/' ∷ e) e' hb hd' (cc h) in
    absurd (parts-absurd e' d e he' (sym rest))
tails (b ∷ p) (b' ∷ q) d d' e e' hb hb' hd hd' he he' h =
    let (bucket, rest) = parts (b ∷ p) (b' ∷ q) (d ++ b'/' ∷ e) (d' ++ b'/' ∷ e') hb hb' (cc h) in
    let (id, index) = parts d d' e e' hd hd' (cc rest) in (bucket, id, index)

digits-IsPart : (n : ℕ) → IsPart (decimal n)
digits-IsPart n =
    All-imp IsDigit (λ b. b ≢ b'/') (decimal n) (λ b h e. omega (arith, h, e)) (decimal-All n)

-- A location whose region and bucket are parts and whose index is a `u32`.
pub record IsNamed (u : Uuids) (l : FileChunkLocation u) : Type 0 where
  pub region-IsPart : IsPart l.region
  pub bucket-IsPart : IsPart l.bucket
  pub le-chunk_index : l.chunk_index ≤ u32_max

-- What follows the region starts with a slash.
segment_start : (b s : Bytes) → (t : Bytes) × (segment b ++ b'/' ∷ s ≡ b'/' ∷ t)
segment_start [] s = (s, refl)
segment_start (b ∷ p) s = ((b ∷ p) ++ b'/' ∷ s, refl)

module _ (u : Uuids) (ids : IsUuids u) where
  uuid-ne-nil : (id : u.Uuid) → u.hyphenated id ≢ []
  uuid-ne-nil id e = let len = ids.length-hyphenated id in omega (arith, len, ap length e)

  endpoint-path_of :
      (l : FileChunkLocation u)
      → IsNamed u l
      → filen_file_location_to_api_endpoint u l ≡ path_of u l
  unfolding filen_file_address_to_api_endpoint
  endpoint-path_of l named =
      joined_segment l.region l.bucket (u.hyphenated l.file_uuid) (decimal l.chunk_index)
        named.region-IsPart named.bucket-IsPart (ids.hyphenated-All l.file_uuid)
        (uuid-ne-nil l.file_uuid) (digits-IsPart l.chunk_index) (decimal-ne-nil l.chunk_index)

  same-uuid : (a b : u.Uuid) → u.hyphenated a ≡ u.hyphenated b → a ≡ b
  same-uuid a b h = cc (ids.parse_str-hyphenated a, ids.parse_str-hyphenated b, ap u.parse_str h)

  same-index : (m n : ℕ) → m ≤ u32_max → n ≤ u32_max → decimal m ≡ decimal n → m ≡ n
  same-index m n hm hn h = cc (
    parse_unsigned-decimal u32_max m hm (omega (arith, hm)),
    parse_unsigned-decimal u32_max n hn (omega (arith, hn)),
    ap (parse_unsigned u32_max) h,
  )

-- The endpoint of a chunk is its region, its bucket, its file and its index with single slashes between
-- them, an empty bucket left out; and two chunks have one endpoint only if region, bucket, file and
-- index are the same. Stated for regions and buckets without a slash, empty ones included, indices
-- within `u32`, and a uuid crate that keeps its promises.
pub filen_file_location_to_api_endpoint-injective :
    (u : Uuids)
    → IsUuids u
    → (l k : FileChunkLocation u) → IsNamed u l
    → IsNamed u k
    → filen_file_location_to_api_endpoint u l ≡ filen_file_location_to_api_endpoint u k
    → (filen_file_location_to_api_endpoint u l ≡ path_of u l)
      × (l.region ≡ k.region)
      × (l.bucket ≡ k.bucket)
      × (l.file_uuid ≡ k.file_uuid)
      × (l.chunk_index ≡ k.chunk_index)
filen_file_location_to_api_endpoint-injective u ids l k named named' h =
    let path = endpoint-path_of u ids l named in
    let (s, starts) = segment_start l.bucket _ in
    let (t, starts') = segment_start k.bucket _ in
    let whole = sym path ∙ h ∙ endpoint-path_of u ids k named' in
    let (region, rest) =
      parts l.region k.region s t named.region-IsPart named'.region-IsPart
        (ap (λ x. l.region ++ x) (sym starts) ∙ whole ∙ ap (λ x. k.region ++ x) starts') in
    let (bucket, id, index) =
      tails l.bucket k.bucket (u.hyphenated l.file_uuid) (u.hyphenated k.file_uuid)
        (decimal l.chunk_index) (decimal k.chunk_index) named.bucket-IsPart named'.bucket-IsPart
        (ids.hyphenated-All l.file_uuid) (ids.hyphenated-All k.file_uuid)
        (digits-IsPart l.chunk_index) (digits-IsPart k.chunk_index)
        (starts ∙ ap (λ x. b'/' ∷ x) rest ∙ sym starts') in
    (
      path,
      region,
      bucket,
      same-uuid u ids l.file_uuid k.file_uuid id,
      same-index u ids l.chunk_index k.chunk_index named.le-chunk_index named'.le-chunk_index index,
    )
