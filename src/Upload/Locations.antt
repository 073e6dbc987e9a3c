-- ===== src/Upload/Locations.antt =====
-- `FileUploadInfo::get_file_chunk_locations` of src/v1/upload_file.rs.
use rust_filen.Base.{
  ℕ, zero, suc, ◌+◌, ◌^◌, ◌≤◌, ◌<◌, get_elem?, ◌≡◌, refl, sym, ap, ◌∙◌, List, [], ◌∷◌, Option, none,
  some, true, false, Result, ok, err, arith, ◌==◌, if◌then◌else◌, length, map, enumerate,
  length-map, length-enumerate, ◌++◌, Option-cases, inl, inr,
}
use mathlib.Core.Option
use native.Mathlib.Decide.{dec_lt}
use rust_filen.Names.{Uuids}
use rust_filen.Chunks.Machine.{as_u32}
use rust_filen.Crypto.Primitives.{Ciphers}
use rust_filen.Download.{FileChunkLocation}
use rust_filen.Upload.{
  UploadFileChunkResponseData, UploadFileChunkResponsePayload, FileUploadInfo, FileUploadProperties,
  UploadIo, UploadError, chunk_upload_response_missing_data,
}

-- `filter_map(|r| r.data.clone())`
abbrev pub datas : List UploadFileChunkResponsePayload → List UploadFileChunkResponseData
datas [] = []
datas (r ∷ rs) = elim (r.data_) [ none ↦ datas rs | some d ↦ d ∷ datas rs ]

module _ (u : Uuids) (c : Ciphers) {W : Type 0} (io : UploadIo u W) (info : FileUploadInfo u) where
  abbrev pub location_of : ℕ × UploadFileChunkResponseData → FileChunkLocation u
  location_of (index, d) = record {
    region = d.region;
    bucket = d.bucket;
    file_uuid = info.properties.uuid;
    chunk_index = as_u32 index;
  }

  unfoldable pub get_file_chunk_locations : Result (List (FileChunkLocation u)) (UploadError u c io)
  get_file_chunk_locations =
      let locations = map location_of (enumerate 0 (datas info.chunk_responses)) in
      if length locations == length info.chunk_responses
      then ok locations
      else err (chunk_upload_response_missing_data info)

-- A response that Filen gave no data with.
abbrev pub IsMissing : UploadFileChunkResponsePayload → Type 0
IsMissing r = r.data_ ≡ none

datas-some :
    (rs : List UploadFileChunkResponsePayload) (ds : List UploadFileChunkResponseData)
    → map (λ (r : UploadFileChunkResponsePayload). r.data_) rs ≡ map (λ d. some d) ds
    → datas rs ≡ ds
datas-some [] [] h = refl
datas-some [] (d ∷ ds) h = absurd (cc h)
datas-some (r ∷ rs) [] h = absurd (cc h)
datas-some (r ∷ rs) (d ∷ ds) h =
    let here : r.data_ ≡ some d = cc h in
    let later : map (λ (x : UploadFileChunkResponsePayload). x.data_) rs ≡ map (λ x. some x) ds =
      cc h in
    rw (here, datas-some rs ds later)

le-length-datas : (rs : List UploadFileChunkResponsePayload) → length (datas rs) ≤ length rs
le-length-datas [] = omega arith
le-length-datas (r ∷ rs) = elim (Option-cases r.data_) [
  | inl e ↦ rw e (omega (arith, le-length-datas rs))
  | inr (d, e) ↦ rw e (omega (arith, le-length-datas rs))
]

datas-IsMissing :
    (before after : List UploadFileChunkResponsePayload) (r : UploadFileChunkResponsePayload)
    → IsMissing r
    → length (datas (before ++ r ∷ after)) < length (before ++ r ∷ after)
datas-IsMissing [] after r h = rw h (omega (arith, le-length-datas after))
datas-IsMissing (b ∷ before) after r h = elim (Option-cases b.data_) [
  | inl e ↦ rw e (omega (arith, datas-IsMissing before after r h))
  | inr (d, e) ↦ rw e (omega (arith, datas-IsMissing before after r h))
]

get_elem?-enumerate :
    {A : Type 0} (xs : List A) (k i : ℕ)
    → get_elem? (enumerate k xs) i ≡ Option.map (λ x. (k + i, x)) (get_elem? xs i)
get_elem?-enumerate [] k i = refl
get_elem?-enumerate (x ∷ xs) k zero =
    ap (λ (n : ℕ). some (n, x)) (let e : k ≡ k + 0 = omega arith in e)
get_elem?-enumerate {A} (x ∷ xs) k (suc i) =
    get_elem?-enumerate xs (suc k) i
    ∙ ap (λ (n : ℕ). Option.map (λ (y : A). (n, y)) (get_elem? xs i))
        (let e : suc k + i ≡ k + suc i = omega arith in e)

get_elem?-map :
    {A B : Type 0} (f : A → B) (xs : List A) (i : ℕ)
    → get_elem? (map f xs) i ≡ Option.map f (get_elem? xs i)
get_elem?-map f [] i = refl
get_elem?-map f (x ∷ xs) zero = refl
get_elem?-map f (x ∷ xs) (suc i) = get_elem?-map f xs i

map-map :
    {A B C : Type 0} (f : A → B) (g : B → C) (o : Option A)
    → Option.map g (Option.map f o) ≡ Option.map (λ x. g (f x)) o
map-map f g none = refl
map-map f g (some x) = refl

beyond : {A : Type 0} (xs : List A) (i : ℕ) → length xs ≤ i → get_elem? xs i ≡ none
beyond [] i h = refl
beyond (x ∷ xs) zero h = absurd (omega arith)
beyond (x ∷ xs) (suc i) h = beyond xs i (omega arith)

-- A `u32` holds every index within the list.
as_u32-get_elem? :
    {A B : Type 0} (f : ℕ → A → B) (xs : List A) (i : ℕ)
    → length xs < 2 ^ 32
    → Option.map (f (as_u32 i)) (get_elem? xs i) ≡ Option.map (f i) (get_elem? xs i)
as_u32-get_elem? {A} f xs i h = elim (dec_lt i (length xs)) [
  | yes p ↦
      let small : as_u32 i ≡ i = omega arith in
      ap (λ (n : ℕ). Option.map (f n) (get_elem? xs i)) small
  | no p ↦
      let out : get_elem? xs i ≡ none = beyond xs i (omega arith) in
      ap (Option.map (f (as_u32 i))) out ∙ sym (ap (Option.map (f i)) out)
]

-- If every response has data, there are as many locations as responses, and the location of chunk `i`
-- has the region and the bucket that the response of chunk `i` names, the identifier of the uploaded
-- file and the index `i`. Stated for fewer than 2^32 responses.
pub get_file_chunk_locations-ok :
    (u : Uuids) (c : Ciphers) {W : Type 0} (io : UploadIo u W) (info : FileUploadInfo u)
    (ds : List UploadFileChunkResponseData)
    → map (λ (r : UploadFileChunkResponsePayload). r.data_) info.chunk_responses
      ≡ map (λ d. some d) ds
    → length ds < 2 ^ 32
    → (i : ℕ)
    → (locations : List (FileChunkLocation u)) × (get_file_chunk_locations u c io info
        ≡ ok locations)
      × (length locations ≡ length info.chunk_responses)
      × (get_elem? locations i
          ≡ Option.map
              (λ (d : UploadFileChunkResponseData). record {
                region = d.region;
                bucket = d.bucket;
                file_uuid = info.properties.uuid;
                chunk_index = i;
              })
              (get_elem? ds i))
unfolding get_file_chunk_locations
get_file_chunk_locations-ok u c {W} io info ds h few i =
    let find = location_of u c io info in
    let locations = map find (enumerate 0 ds) in
    let same = datas-some info.chunk_responses ds h in
    let numbered : length locations ≡ length ds =
      length-map find (enumerate 0 ds) ∙ length-enumerate 0 ds in
    let all : length info.chunk_responses ≡ length ds =
      sym (length-map (λ (r : UploadFileChunkResponsePayload). r.data_) info.chunk_responses)
      ∙ ap (length {A = Option UploadFileChunkResponseData}) h
      ∙ length-map (λ (d : UploadFileChunkResponseData). some d) ds in
    let test : (length locations == length info.chunk_responses) ≡ true =
      ground (arith, numbered, all) in
    let at_index : ℕ → UploadFileChunkResponseData → FileChunkLocation u = λ n d. record {
      region = d.region;
      bucket = d.bucket;
      file_uuid = info.properties.uuid;
      chunk_index = n;
    } in
    (
      locations,
      rw (same, test),
      numbered ∙ sym all,
      get_elem?-map find (enumerate 0 ds) i
          ∙ ap (Option.map find) (get_elem?-enumerate ds 0 i)
          ∙ map-map (λ (d : UploadFileChunkResponseData). (0 + i, d)) find (get_elem? ds i)
          ∙ ap (λ (n : ℕ). Option.map (at_index (as_u32 n)) (get_elem? ds i))
              (let e : 0 + i ≡ i = omega arith in e)
          ∙ as_u32-get_elem? at_index ds i few,
    )

-- If a response has no data, wherever it stands, there are no locations but an error.
pub get_file_chunk_locations-IsMissing :
    (u : Uuids) (c : Ciphers) {W : Type 0} (io : UploadIo u W) (properties : FileUploadProperties u)
    (before after : List UploadFileChunkResponsePayload) (r : UploadFileChunkResponsePayload)
    → IsMissing r
    → let info : FileUploadInfo u = record {
      properties = properties;
      chunk_responses = before ++ r ∷ after;
    } in
      get_file_chunk_locations u c io info ≡ err (chunk_upload_response_missing_data info)
unfolding get_file_chunk_locations
get_file_chunk_locations-IsMissing u c {W} io properties before after r h =
    let all = before ++ r ∷ after in
    let info : FileUploadInfo u = record { properties = properties; chunk_responses = all } in
    let find = location_of u c io info in
    let fewer = datas-IsMissing before after r h in
    let numbered : length (map find (enumerate 0 (datas all))) ≡ length (datas all) =
      length-map find (enumerate 0 (datas all)) ∙ length-enumerate 0 (datas all) in
    let test : (length (map find (enumerate 0 (datas all))) == length all) ≡ false =
      ground (arith, numbered, fewer) in
    rw (test)
