-- ===== src/Lib.antt =====
-- A model of rust-filen, a client library for the Filen cloud storage API, and what it promises. Paths
-- are from the repository's root. A string or a buffer is the list of its bytes (UTF-8 for strings), a
-- machine integer a natural number whose operations wrap where they do in a release build.
--
-- The parts and the files that model them:
--
-- - Base: tests, lists, results, effects, bytes and decimal numbers. `Eff` is a call that acts on a
--   state, may fail and may panic; what a failed call did to the state stays done. `traverse` is an
--   iterator of calls collected into a `Result`.
-- - Chunks: src/file_chunk_pos.rs, the iterator that cuts a file into chunks, against the layout of
--   Chunks/Spec.antt; and the chunk count of src/v1/upload_file.rs. `collect` takes a number of calls of
--   `next`, `calculate_chunk_count` a number of rounds; one for each chunk and one more are enough.
-- - Backoff: src/retry_settings.rs and src/limited_exponential.rs, the delays (with the rounding of
--   `f64` written out) and `RetrySettings::call`: `call_operation` with the conversion of what
--   an operation returns, `call` for a `Result`, which is what the library's operations return. The crate
--   `retry` is a parameter with its promise.
--   Progress and Stages are retried requests one after the other; Tasks and its children are retried
--   requests that run at the same time, `RetrySettings::call_async` under `try_join_all`, as a step
--   relation.
-- - Names: the textual values of src/v1/fs.rs and src/v1/dirs.rs: expirations, parents, content kinds.
-- - Api: the responses of src/v1/mod.rs; Accepted has the requests that are answered with a status only.
-- - Crypto: src/crypto.rs. Aes has the OpenSSL framing of AES-CBC and AES-GCM with its IV in front,
--   Metadata the versioned metadata, MasterKeys a list of keys in it, FileChunk the file chunks, Rsa the
--   encryption for other users. The ciphers, the key derivations and base64 are a parameter, `Ciphers`,
--   with what those crates document, `IsCiphers`; so is the crate `rsa`, `Rsa` and `IsKeyPair`; random
--   bytes are arguments.
-- - Files: `FileProperties` of src/v1/files.rs, `LocationNameMetadata` of src/v1/fs.rs, and how
--   src/v1/upload_file.rs makes the upload properties of a file. JSON, MIME types and hashes are a
--   parameter, `Texts`; Json has what is asked of JSON, Shared the metadata for other users.
-- - Folders: src/v1/download_dir.rs, the listing of a folder, with the traits of src/v1/fs.rs that its
--   items implement; Received what a linked and a shared folder hold, Synced what a sync folder of
--   src/v1/sync_dir.rs does, Uploaded the way of a file's metadata from its upload to the listing.
-- - Dirs: src/v1/dirs.rs, the folders of an account and the payloads that create and rename them.
-- - Share: src/v1/share.rs, a file, a folder, and a folder with all that it holds. Receiver says what a
--   share gives to the other user; Accepted and Recursive follow the requests one after the other,
--   Concurrent and Concurrent/Order the asynchronous functions.
-- - Links: src/v1/links.rs and src/v1/dir_links.rs, the links of folders, and src/v1/file_links.rs,
--   Edit, the links of files. Added says what an item added to a link gives to who has the link;
--   Accepted, Recursive and Concurrent follow the requests as in Share.
-- - Keys: src/v1/user_keys.rs and the data of a login of src/v1/auth.rs, the keys of a user as the servers
--   keep them.
-- - Upload: src/v1/upload_file.rs, from reading a chunk to the request that marks the upload as done.
--   Whole.antt composes it for given properties and positions; EncryptAndUpload makes these, the
--   properties with Files/Upload.antt and the positions with the iterator of Chunks. Accepted, Finalized
--   and Complete follow an upload that succeeds, Accepting and Total show when one does, Failures says
--   what becomes of chunks that are not read or not accepted.
-- - Download: src/v1/download_file.rs, one chunk after the other, and Batch in batches; Endpoint the
--   address of a chunk, of src/utils.rs.
-- - Tests: concrete crates, servers, readers and writers, and runs of the model on them.
--
-- Upload and Download call Crypto for the chunks; Share and Links list a folder by Folders and call
-- Crypto by Files for the metadata. All of them call Backoff for the retries and the network through a
-- record of requests on a state. What the model says of servers, readers and writers stands in
-- `IsIo` (Download/Promises.antt), `IsUploadIo`, `IsShareIo`, `IsLinkIo` and `IsEditIo`: a log of the
-- requests that were accepted, and the bytes written so far. How often a call is tried is
-- `max_tries` of its settings and one more; how often an asynchronous call is, an argument.
--
-- The requests of Share/Concurrent and Links/Concurrent take effect in any order; those of a download's
-- batches that run concurrently are taken in the order in which they start. An upload gets `fuel` rounds
-- for the count of its chunks and calls of the iterator; one for each chunk and one more are enough.
-- Not modelled: the asynchronous upload, whose requests overlap and which reports the chunks that cannot
-- be read; the other asynchronous functions, which differ from the synchronous ones in nothing else; the
-- network (src/queries.rs), settings, password hashes, events, authentication and the remaining
-- requests, which are data types and calls of the network; what reaches the servers of a request whose
-- call was dropped; and the debug text of messages in errors.
pub mod Base
pub mod Api
pub mod Backoff
pub mod Chunks
pub mod Crypto
pub mod Dirs
pub mod Download
pub mod Files
pub mod Folders
pub mod Keys
pub mod Links
pub mod Names
pub mod Share
pub mod Upload
pub mod Tests
