-- ===== src/Lib.antt =====
-- A model of crate-html, a service that hosts static sites uploaded as tar archives, and of what
-- its parts promise. Go packages stand under internal/ and cmd/.
--
-- The parts and their files:
-- - Prelude: Boolean tests, equality as an interface, lists over the native numbers, byte texts,
--   association lists for Go maps, signed integers, and results with an error.
-- - Name: ValidateName of internal/storage/storage.go (site names) and of internal/token/token.go
--   (token names). The regular expressions are tests over bytes.
-- - Token: internal/token/token.go. `Store` is the struct of that name; `create`, `list`, `revoke`,
--   `verify`, `load_from` and `save_locked` are its methods. Persistence is an interface, and
--   FileStore (load, write to a temporary file, rename) an instance of it. YAML and SHA-256 are the
--   record `Codec`; IsCodec says that a document that was written is read back.
-- - TarPath: SafeTarPath of internal/storage/storage.go, with filepath.Clean over components.
-- - MemFs: internal/s3store/memfs.go, an uploaded archive expanded in memory. A tar stream is the
--   list of what the reader's Next returns, with the bytes of each body. MemFs/Open has Open, ReadDir
--   and the open files and directories.
-- - Pack: WriteDirAsTar of internal/storage/tar.go, which a push sends, over a directory tree.
-- - Cache: internal/s3store/cache.go, the expanded sites by name and version under a byte budget.
-- - Objects: the object store behind internal/s3store as an interface with its laws, and Document
--   of internal/s3store/document.go (Objects/Document), a second instance of Persistence over a
--   bucket whose failed writes were not carried out, which S3 does not promise.
-- - S3Store: internal/s3store/s3store.go. The reads stand in S3Store, the writes in S3Store/Commit
--   (`replace_site` is ReplaceFromTarWithExpiry); S3Store/Frame says what they leave alone.
-- - Disk: SetExpiry, extractTar and replaceFromTar (`replace_dir`, up to its final Stat) of
--   internal/storage/storage.go, over the sites directory and the answers of the file system.
--   Disk/Sites has Open, Exists, Stat, List, Names, Delete, DeleteExpired and the whole
--   replaceFromTar (`replace_from_tar`), and the store as a Backend.
-- - Config: internal/config/config.go, with its file, defaults and environment.
-- - Wire: internal/wire/wire.go, and the interface Backend of internal/server/backend.go.
-- - Server: internal/server/server.go. Server/Auth has the guards, Server/Handlers the handlers of
--   the control plane, Server/Routes which guard stands before which handler, Server/Public and
--   Server/Index the public pages, Server/Surface the handlers of the daemon's three roles.
-- - Client: internal/cliclient/client.go. Client/Commands has what cmd/crate/main.go decides,
--   Client/Update is internal/updater/updater.go with internal/buildinfo/buildinfo.go, and
--   Client/Daemon puts a call of the client to a surface of the server.
-- - Daemon: cmd/crated/main.go, the start of each role, and `Reaches`, the relation between the worlds
--   of a daemon and those that requests and rounds of the expiry watch lead to.
-- - Sort: what the code uses of Go's package sort, a stable sort by a key.
-- - Tests: concrete inputs for the theorems, and runs of the model; a bucket in memory that keeps the
--   laws of an object store, and small document formats that keep those of the codecs.
--
-- How they meet: a push walks a directory with Pack and sends the archive through Client. A request
-- is matched by Server/Surface, and one to the control plane passes a guard of Server, which asks
-- Token, and then a handler, which changes the sites through a Backend. An upload to object storage is
-- checked by TarPath entry by entry, expanded by MemFs, committed by S3Store and kept in Cache until
-- it is evicted or its site is dropped. The tokens live in a file or in a Document. A public request is
-- answered from the Backend, an embedded site, or the index of a group.
--
-- Bounds: the eviction loop of `put` runs on the number of elements and one more, and
-- Cache.Methods.put-IsCut shows that it ends within the budget; the loop of humanSize runs on seven
-- rounds, and Server.Sizes.human_size-IsReadable shows that it ends with a unit that exists for every
-- size of 63 bits; `%d` prints twenty digits, enough for 64 bits. freshIDLocked tries ten draws, as
-- the code does. Other loops are structural recursion.
--
-- Numbers: sizes and times are natural numbers, since the code only passes sizes of buffers and
-- instants behind the zero time; the sizes and durations of the configuration are signed. A limit or
-- budget below zero behaves as zero does in the cache and in the unpacking and is written 0 there.
-- Random draws, the present, and the answers of the file system and of the object store are
-- arguments, an error among them. A mutex makes its method one step.
--
-- Not modelled: telemetry and log lines, the rendering of pages by html/template (the values that a
-- page is made from are), flag parsing and terminal output, signal handling, shutdown and the metrics
-- listener of the daemon, the S3 client and its credentials, the XDG paths of the configuration, and
-- the download and the checksums of an update, which belong to selfupdate.
pub mod Cache
pub mod Client
pub mod Config
pub mod Daemon
pub mod Disk
pub mod MemFs
pub mod Name
pub mod Objects
pub mod Pack
pub mod Prelude
pub mod S3Store
pub mod Server
pub mod Sort
pub mod TarPath
pub mod Tests
pub mod Token
pub mod Wire
