-- ===== src/Lib.antt =====
-- The t-sync Go SDK: incremental, deduplicated, encrypted backups in an object store.
--
-- A store holds one metadata object, ".tsync", and one object for each distinct file content, under
-- a key made of its CRC-32 and size. The metadata lists versions, each with the hash of a root tree
-- node; the tree nodes, by hash; and the file records, by key. A backup uploads the parts that the
-- metadata does not list, builds the tree of the new version, and commits with a single write of
-- ".tsync". Deleting a version and collecting garbage rewrite the metadata without what no version
-- needs, and then delete parts.
--
-- The parts, and the files that model them:
--   Base        Go's strings, byte slices, maps (association lists, whose order is the visiting
--               order of a `range` loop), and tests on numbers.
--   Errors      storage_clients/errors.go and tsync/errors.go: error values as trees of wrappers,
--               `errors.Is`, `errors.As`, `IsRetryable`.
--   Retry       storage_clients/retry.go: `RetryPolicy.Do` over a stream of attempts, with int64
--               arithmetic written out. The loop's fuel is the largest attempt limit.
--   Writer      tsync/storage.go: `objectStorageWriter`. Its state keeps the calls that the client
--               has seen; the client answers as a function of them. `Write` has fuel for one round
--               per byte.
--   Names       tsync/backup.go and tsync/client.go: names of path components, file and part keys.
--   Metadata    gen/go/com/github/abyii/tsync/v2: the messages; `loadMetadata` of tsync/client.go;
--               and the `Storage` interface of tsync/storage.go as a record of operations.
--   Tree        tsync/backup.go (`tempDirNode`, `buildAndHash`), tsync/restore.go (`walkTree`) and
--               tsync/client.go (`walkCollect`). `walkCollect` has fuel for one level more than
--               there are tree nodes. `walkTree` has its fuel as an
--               argument; the levels of the tree are enough.
--   Client      tsync/client.go: `DeleteVersion`, `GC` and the queries.
--   Crypto      tsync/crypto.go: the random ZIP password and its envelope.
--   Backup      tsync/backup.go: `RunBackup`. Backup/Options has the options and the versions' order,
--               Backup/Part and Backup/Upload the upload of one entry, Backup/Secrets what is settled
--               before, Backup/Gather the workers and their results, Backup/Commit the commit, and
--               Backup/Run the whole. The workers are a schedule of turns: each takes one of the
--               entries that are left in the task channel, which is processed before the next, or is
--               a cancellation by the caller; the entries that no turn takes come last. So each
--               entry is taken once. A turn says too whether the caller cancels meanwhile, and which
--               way a `select` goes whose both sides are ready.
--   Streams     Go's `io.Reader` and `io.ReaderAt`, as the content that they give.
--   Objects     tsync/storage.go: `ObjectStorage` and `StorageReaderAt`, over any client of
--               storage_clients/registry.go.
--   Files       what the SDK asks of the operating system's files, and the closing and renaming of a
--               temporary file.
--   Local       tsync/storage.go: `LocalStorage` and its atomic writer; Local/Listing is `List`, over
--               the entries that the operating system's walk visits, and Local/Listing/Shown and
--               Local/Listing/Listed say what it makes of each.
--   Paths       tsync/restore.go: `safeJoin`; `filepath.Clean`, `Join`, `Dir` and `Rel` are written out.
--   Archive     tsync/zip_utils.go: `readZipDirectory` with the zip64 records, the cached reader,
--               `GetZipPartRanges`, `MSDosTimeToTime`. Slice expressions out of range panic.
--               Archive/Records says what the bytes of the end records give, field by field, with
--               the reading of the fields in Archive/Fields.
--   Sources     tsync/source.go: `FolderSource`, `ZipFileSource`, `openZipEntryStream`. The loop over
--               the extra data has fuel for one round per byte, of which each round takes four.
--   Auth        storage_clients/auth.go: `ParseAuthString`, with `strings.TrimSpace` and
--               `strings.ToLower` as parameters; what it has made of a text is in Auth/Given.
--   Restore     tsync/restore.go: what `RunRestore` selects, the password and the header of a part,
--               which failures may be skipped; Restore/Extract is `extractOne`, Restore/Folder
--               `restoreToDir`, whose workers are a schedule like those of a backup; Restore/Zipped
--               is `restoreToZip`.
--   Sample      concrete stand-ins for the parameters, which the tests run on.
--
-- Parameters: the protobuf coding and SHA-256 (`Codec`), the store and its writers (`Storage`,
-- `Writers`), a provider's client (`ObjectClient`), the operating system's files (`FileSystem`),
-- the zip library (`Zip`, `ZipParser`, `PartReader`, `ZipOutput`, `Library`), NaCl box (`Box`), the
-- trimming and the lower case of texts (`Text`), the random source, the clock, the list of entries
-- that a backup is given and the filter. What is asked of them is a hypothesis of the theorems that
-- need it.
--
-- Not modelled: message texts; the provider clients over HTTP; the system call for the disk space,
-- whose answer is an argument. An instant is a number of nanoseconds. Two uploads at once are not
-- interleaved step by step.
pub mod Base
pub mod Errors
pub mod Retry
pub mod Auth
pub mod Writer
pub mod Names
pub mod Metadata
pub mod Streams
pub mod Objects
pub mod Archive
pub mod Tree
pub mod Client
pub mod Crypto
pub mod Paths
pub mod Files
pub mod Local
pub mod Backup
pub mod Sources
pub mod Restore
pub mod Sample
