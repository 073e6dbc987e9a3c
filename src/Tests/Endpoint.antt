-- ===== src/Tests/Endpoint.antt =====
-- The endpoint of a chunk on concrete inputs.
use rust_filen.Base.{◌≡◌, refl, [], ◌++◌, true, arith}
use rust_filen.Base.Decimal.{decimal}
use rust_filen.Base.Text.{codes}
use rust_filen.Download.{
  FileChunkLocation, filen_file_address_to_api_endpoint, filen_file_location_to_api_endpoint,
}
use rust_filen.Download.Endpoint.{IsNamed, path_of, filen_file_location_to_api_endpoint-injective}
use rust_filen.Tests.Instances.{two_uuids, two_uuids-IsUuids}

abbrev third_chunk : FileChunkLocation two_uuids
third_chunk = record {
  region = codes "de-1";
  bucket = codes "filen-1";
  file_uuid = true;
  chunk_index = 2;
}

third_chunk-IsNamed : IsNamed two_uuids third_chunk
third_chunk-IsNamed = record {
  region-IsPart = search (arith, tt);
  bucket-IsPart = search (arith, tt);
  le-chunk_index = omega arith;
}

third_endpoint :
    filen_file_location_to_api_endpoint two_uuids third_chunk
    ≡ codes "de-1/filen-1/" ++ two_uuids.hyphenated true ++ codes "/2"
unfolding filen_file_address_to_api_endpoint decimal
third_endpoint = refl

-- Without a bucket there is one slash behind the region.
abbrev bare_chunk : FileChunkLocation two_uuids
bare_chunk = record { region = codes "de-1"; bucket = []; file_uuid = true; chunk_index = 2 }

bare_endpoint :
    filen_file_location_to_api_endpoint two_uuids bare_chunk
    ≡ codes "de-1/" ++ two_uuids.hyphenated true ++ codes "/2"
unfolding filen_file_address_to_api_endpoint decimal
bare_endpoint = refl

filen_file_location_to_api_endpoint-injective_example :
    (filen_file_location_to_api_endpoint two_uuids third_chunk ≡ path_of two_uuids third_chunk)
    × (third_chunk.region ≡ third_chunk.region)
    × (third_chunk.bucket ≡ third_chunk.bucket)
    × (third_chunk.file_uuid ≡ third_chunk.file_uuid)
    × (third_chunk.chunk_index ≡ third_chunk.chunk_index)
filen_file_location_to_api_endpoint-injective_example =
    filen_file_location_to_api_endpoint-injective two_uuids two_uuids-IsUuids third_chunk
      third_chunk third_chunk-IsNamed third_chunk-IsNamed refl
