-- ===== src/Lib.antt =====
-- modctl builds model artifacts (OCI artifacts with the files of a model) from a workspace and a
-- Modelfile, and moves them between a local storage and registries. This library models parts of it
-- and proves what makes them correct.
--
-- The parts and their files:
--
-- - Modelfile/Command, Ast, Lexical, Args, Parser: the Modelfile language of
--   pkg/modelfile/command and pkg/modelfile/parser. `parse` is `Parse`, `parse_args` is `parseArgs`
--   (one `step` is one round of its loop), `command_node` is the `switch` of `parseCommandLine`.
--   Lexical holds what these use of `strings` and `bufio`, with the scanner's buffer of 65536 bytes.
-- - Modelfile/Record, HashSet, File: the struct of pkg/modelfile/modelfile.go and `NewModelfile`.
--   The set package is a parameter, the record `HashSet`, with the laws of its documentation.
-- - Modelfile/Content: `Content`, `writeField`, `writeMultiField` and `quoteIfNeeded`; below it the
--   round trip with `NewModelfile`, and the values that do not come back.
-- - Modelfile/Patterns, Glob, FileType: the tables and the tests of pkg/modelfile/constants.go. Glob
--   models `filepath.Match` and `filepath.Base` on the pattern language of the tables.
-- - Modelfile/PathFilter: pkg/modelfile/path_filter.go, over a matcher that stands for doublestar.
-- - Modelfile/Workspace: `NewModelfileByWorkspace`. A workspace is a tree of entries in the order of
--   `filepath.Walk`; an int64 total is its 64 bits. Constructor holds the validation, the model
--   configuration, the values of the command line and the getters.
-- - Artifact: the descriptors, manifests and configs that the operations of pkg/backend share.
-- - Attach: the layers that pkg/backend/attach.go puts together, over media types that are a
--   parameter; Sorting is about `sortLayers`, Replacing about the path that exists already.
--   Command is `Attach` as a whole, over the builder that Build models; Command/Unchanged is about
--   what it comes to if it ends well, Command/Order about what it stores.
-- - Push: pkg/backend/push.go, over a `World` of the local storage and the registry with its `Laws`;
--   Pushed follows one call, Outcome the whole of `Push`, Attempts its retries, StaleTag a push of
--   what is there already.
-- - Cache: internal/cache/cache.go, the digests of files in one JSON file, with `get` and `put`; Items
--   has what the map finds, PutGet what a `get` finds behind a `put`.
-- - Transfer: pkg/backend/pull.go without its Dragonfly branch. A `World` is the registry, the local
--   storage, the codec, JSON and SHA-256; `Laws` is what the code relies on of them. Pulled follows
--   one call, Order and Complete the whole of `Pull`.
-- - Fetch: pkg/backend/fetch.go without its Dragonfly branch, over the same world; Selection is about
--   the layers that the patterns select, Outcome about the files that are there in the end.
-- - Retry: pkg/backend/retry.go, and `retry.Do` by its documentation. The number of attempts is a
--   parameter of what retries, and every theorem holds for any number of them; Rule carries a
--   condition over the attempts, Bounded says how many calls there are.
-- - Codec: which codec pkg/codec/codec.go takes for a media type. Codec/Raw is `Decode` of
--   pkg/codec/raw.go with the attributes of pkg/xattr, over a `System` of calls; Outcome says what one
--   call comes to, Again what the next one does.
-- - Archiver: `Untar` of pkg/archiver/archiver.go over a file system, with `Clean`, `Join` and `Dir` of
--   path/filepath on Unix; a clean path is its components. Inside follows which paths it writes.
-- - Build: pkg/backend/build.go, pkg/backend/build and pkg/backend/processor. Digest is
--   `computeDigestAndSize` with the cache; Fresh is a step relation of writes, removals and
--   builds, and Digested says what it comes to; Output has `localOutput` and `remoteOutput` over a
--   storage and a registry, which are parameters, with Output/Untagged on a second tag; Builder,
--   Config and Described are about `BuildLayer`, `BuildConfig`, `BuildManifest` and
--   `BuildModelConfig`; Process is `Process` of the processors, with Missing on the files that are
--   not there and Schedule on the order of the goroutines; Command is `Build`, and Stored and
--   Command/Order follow what it stores. The outcomes of `os.Stat`, of the paths and of the
--   codec's reader are given by a `Source`, the libraries by `Formats` and `Calls`.
-- - Storage: pkg/storage/distribution/distribution.go over the registry library, a record `Library`;
--   RoundTrip has the laws of its tags and manifests, Hashing those of its blobs.
-- - Local: tag.go, rm.go and list.go of pkg/backend on that storage; Tagging follows `Tag`.
--
-- Text is a list of code points (`Text`), and its length in bytes is that of its UTF-8. A Go error
-- is a constructor without its message. All recursion is structural, so there is no fuel.
--
-- Not modelled: the commands of cmd (flags and printing), the mocks, and what only calls other
-- packages (git, the registry client, terminal bars, loggers); and, as yet, the Dragonfly branches,
-- extraction and pruning, the packing of archives, the model providers, and the checks of the
-- configuration structs. The goroutines of a pull run in their order; those of a processor, of a push
-- and of a fetch end in any order, each taking one step. The order of a range over a Go map is left
-- open where the cache uses it. The letters outside ASCII whose case changes are left alone but for
-- those that fold into ASCII, since no pattern and no command holds any.
pub mod Prelude
pub mod Archiver
pub mod Artifact
pub mod Attach
pub mod Build
pub mod Cache
pub mod Codec
pub mod Fetch
pub mod Local
pub mod Modelfile
pub mod Push
pub mod Retry
pub mod Storage
pub mod Transfer
