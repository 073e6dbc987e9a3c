-- ===== src/Tests/Locations.antt =====
-- Where the chunks of an upload are, on concrete responses.
use rust_filen.Base.{◌≡◌, arith, get_elem?, refl, List, [], ◌∷◌, none, some, true, ok, err, length}
use rust_filen.Tests.Instances.{plain_ciphers, two_uuids}
use rust_filen.Upload.{
  UploadFileChunkResponsePayload, FileUploadInfo, chunk_upload_response_missing_data,
}
use rust_filen.Download.{FileChunkLocation}
use rust_filen.Upload.Locations.{
  get_file_chunk_locations, get_file_chunk_locations-ok, get_file_chunk_locations-IsMissing,
}
use rust_filen.Tests.Upload.{stored, answer, server, properties, info}

get_file_chunk_locations-ok_example :
    (locations : List (FileChunkLocation two_uuids)) × (get_file_chunk_locations two_uuids
        plain_ciphers
        (server true true)
        info
      ≡ ok locations)
    × (length locations ≡ 1)
    × (get_elem? locations 0
        ≡ some (record {
          region = stored.region;
          bucket = stored.bucket;
          file_uuid = properties.uuid;
          chunk_index = 0;
        }))
get_file_chunk_locations-ok_example =
    get_file_chunk_locations-ok two_uuids plain_ciphers (server true true) info (stored ∷ []) refl
      (omega arith) 0

abbrev empty_answer : UploadFileChunkResponsePayload
empty_answer = record { status = true; message = none; data_ = none }

abbrev incomplete : FileUploadInfo two_uuids
incomplete = record { properties = properties; chunk_responses = answer true ∷ empty_answer ∷ [] }

get_file_chunk_locations-IsMissing_example :
    get_file_chunk_locations two_uuids plain_ciphers (server true true) incomplete
    ≡ err (chunk_upload_response_missing_data incomplete)
get_file_chunk_locations-IsMissing_example =
    get_file_chunk_locations-IsMissing two_uuids plain_ciphers (server true true) properties
      (answer true ∷ []) [] empty_answer refl
