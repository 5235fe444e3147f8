-- ===== src/Lib.antt =====
-- xtax is a blob store (crates/xtax-blob-storage) made of layers over a backend, and the trait of
-- the encryption providers (crates/xtax-encryption). A store is an implementation of the trait
-- `BlobStore`; a layer is a store over another store: `PrefixBlobStore` puts a prefix before every
-- key, `EncryptedBlobStore` keeps a ciphertext and a header for every blob, `BlobCleanup` deletes
-- the blobs that a predicate picks. `BlobStoreBuilder` stacks layers on a backend and schedules
-- their maintenance.
--
-- Which file models which part (paths in crates/xtax-blob-storage/src):
--   Base                 bytes of texts, and the methods of `str` and `Vec` that the crate calls
--   Error                error.rs, and the errors of crates/xtax-encryption/src/lib.rs
--   Exec                 fallible code: `Result` for functions, `Exec` for methods on a state
--   Types, Filter        types.rs, list_filter.rs; a stream is its bytes and the error at its end
--   Store                blob_store.rs and visitor.rs: the trait with its default methods
--   Store.Contract       what the trait promises, against a view of the state (key to stream)
--   Validate             validate.rs
--   Prefix               prefix.rs
--   Encrypt              encrypt/store.rs; Encrypt.Provider is crates/xtax-encryption/src/lib.rs,
--                        Encrypt.Layer is encrypt/visitors.rs and the listings with metadata,
--                        Encrypt.Rekey is encrypt/rekey.rs
--   Cleanup              cleanup.rs and cleanup/visitor.rs
--   Fs                   fs.rs: the root and the paths of keys; Fs.Files, Fs.Walk and Fs.Hint are
--                        fs/store.rs, over the calls on files that Fs.Disk lists; what is
--                        documented of these calls is in Fs.Contents, Fs.Finds and Fs.Tree
--   S3                   s3.rs, s3/: the client of the SDK is a record of its requests, and what the
--                        documentation of S3 says of them is in S3.Service
--   Schedule             builder/strategies.rs and builder/maintenance.rs: the loops, the queue and
--                        the worker (Schedule.Background)
--   Builder              builder.rs, with the strategies of builder/strategies.rs as `build` sees
--                        them and the scheduling of builder/maintenance.rs
--   Tests                a store in memory, a provider, runs and concrete cases
--
-- A method of a store is a function from the state to an outcome, which has the state at its end
-- also where it is an error: what was written before an error stays written. A definition has the
-- name of its Rust function; a loop is a function by clauses over the list that it goes through,
-- so that no fuel is needed, except in the backends. In S3 the loop of the parts has one round for
-- each byte and one more (S3.Termination shows that they are enough); the loops of the pages, and
-- the walk of the file-system store, have their number of rounds as a parameter (Fs.Lists shows
-- how many the walk needs: Fs.Tree counts them by `rounds_at`). A visitor keeps a
-- value beside the state of the store, and may call the store while it is visited. Sizes and
-- counts are natural numbers; the counts of 64 bits of rekeying, of cleanup and of an upload keep
-- their wrap-around.
--
-- The encryption task of `put` runs beside the write of the inner store, over a pipe; here it is
-- what the task writes to its pipe and the way in which it ends: a header, an error, a panic, or
-- the timeout. The reader of a decryption is the plaintext, with an I/O error at the end where the
-- task failed. Clocks are parameters. Encryption providers are parameters too; their documented
-- behaviour is `Encrypt.Provider.IsSound`. A view through the layers is built by `logical`
-- (Prefix.Reads) and `decrypted` (Encrypt.View).
--
-- The background of a build is a step relation: the loops of the registrations, the worker, the
-- drop of the store and the calls of `Manual::trigger` take steps in any order. The queue is a
-- channel of tokio, a parameter with its documented behaviour (`Schedule.Queue.IsFifo`); a
-- cancellation token is a flag, and a watch receiver the mark that its documentation describes.
--
-- Not modelled: strategies of users, dropped stores, the conversion of file times, and logging.
-- `do_build` takes what `build_raw_arc` (Builder.Backend) returns as an argument.
pub mod Base
pub mod Error
pub mod Exec
pub mod Types
pub mod Filter
pub mod Store
pub mod Validate
pub mod Prefix
pub mod Encrypt
pub mod Cleanup
pub mod Fs
pub mod S3
pub mod Schedule
pub mod Builder
pub mod Tests
