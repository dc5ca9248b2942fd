-- ===== src/Lib.antt =====
-- Makisu builds container images from Dockerfiles. This library models the parser of Dockerfiles,
-- the names of images, the distributed layer cache, the planning and building of stages, the file
-- systems of images and their layers, the local storage of files, and the registry client.
--
-- How the parts interact: the parser (lib/parser/dockerfile) turns the text of a Dockerfile and the
-- build arguments into stages, each a FROM with its directives. The builder (lib/builder) plans
-- them: it makes a node of each directive, and puts stages of their own in front for the images
-- that a stage copies from, which it tells from stages by their names (lib/docker/image). For each
-- stage it pulls the layers of the nodes from the cache (lib/cache), and then builds the nodes in
-- order: a node that has its layers, or stands before one that does, is not executed. The layers of
-- the nodes give the configuration and the manifest of the image. A node that commits gets its
-- layer from the file system in memory (lib/snapshot), by a scan of the disk or from copy
-- operations, and layers of the cache and of base images are merged into it. What a node commits is
-- pushed to the cache, whose entries name layers of a registry; the layers themselves are files of
-- the local storage (lib/storage), whose map says which file to evict. The registry client
-- (lib/registry) pushes images and layers from that storage and pulls layers into it.
--
-- Base holds what all parts share: Boolean tests, lists, `Result` for errors, Go strings as lists
-- of bytes, and Go maps as association lists with one entry for each key. Text models what the
-- parser uses of the packages strings and strconv; a Go int has 64 bits there.
--
-- Parser (lib/parser/dockerfile). Three files are state machines over the bytes of a line, each
-- byte taken as a rune, as their loops do. A machine is a type of states, a record of what the
-- states share, `next_rune` and `end_of_input` (the methods nextRune and endOfInput of all states),
-- and `run`, the loop:
--   Parser/SplitArgs      split_args.go
--   Parser/KeyValues      parse_key_values.go
--   Parser/Variables      replace_variables.go; a read of a stack that is empty, a panic in Go, is
--                         the error `index_out_of_range`
--   Parser/Runes          the classes of runes of the package unicode, below 256, and validKeyRune
-- The directives are one data type; a constructor function stands for each newXDirective, and
-- `update` for the methods update, as a function from state to state:
--   Parser/Directive      the types of base.go, state.go and the directives
--   Parser/Line           base.go: comments, commit marks, the type and the arguments of a line
--   Parser/Construct      add.go, add_copy.go, copy.go, cmd.go, entrypoint.go, run.go, volume.go
--   Parser/Healthcheck    healthcheck.go
--   Parser/Dispatch       the other directives, and directive.go
--   Parser/Update         state.go and the methods update
--   Parser/File           parse_file.go; the scanner's limit of 65536 bytes for a line is kept
-- encoding/json and time.ParseDuration are the functions of the record `Decoders`, about which
-- nothing is assumed.
--
-- Cache (lib/cache/cache_manager.go). A pull reads the answers of the key-value store to each of
-- its attempts, of the local store and of the registry from a `PullWorld`; the loop of PullCache is
-- recursion on the two attempts left behind the first, which is its own bound. A push is pending
-- until its goroutine has run: a step relation lets the pending pushes end in any order, with any
-- outcome of the calls to the registry and the store. A goroutine is one step, at its end: it
-- pushes its layer before it takes the manager's lock, and layers are only ever added to the
-- registry.
--
-- Builder (lib/builder). The steps of a stage, the memory file system and the image configuration
-- are an interface, the record `Operations`, about which nothing is assumed:
--   Builder/Node          build_node.go
--   Builder/Stage         build_stage.go: pulling from the cache, skipping, building, the manifest
-- Builder/Plan is processStagesAndAliases of build_plan.go, and the creation of stages of
-- build_stage.go, over a factory of steps that may do anything. Builder/Steps is what the steps of
-- lib/builder/step, but FROM, do to the configuration of the image; the copy of a configuration by
-- way of JSON, os.ExpandEnv and the making of directories are arguments there. Builder/Execute is
-- Execute of build_plan.go, over an interface of stages, the record `StageOperations`. Where a
-- result needs that a step of FROM copies nothing from other stages, it says so. Go visits a map in
-- any order; the model visits the entries in the order in which they were added, which is one of
-- them.
--
-- Image is lib/docker/image/image_name.go. `last_index` is strings.LastIndex plus one, so that 0 is
-- "not found"; the regular expression for host names is a test of the text before the first slash.
--
-- Paths is lib/pathutils/path.go with what it uses of path and path/filepath, on Unix. Env is the
-- merging of environments in lib/utils/utils.go.
--
-- Snapshot is the file system of an image (lib/snapshot). A header of an archive has the fields
-- that the program reads; what a call of the operating system would say is an argument:
--   Snapshot/Header       lib/tario/compare.go
--   Snapshot/Tree         the nodes of mem_fs.go, and the methods updateMemFS of mem_layer.go
--   Snapshot/Overlay      the tree as a map from paths to files
--   Snapshot/Layer        mem_layer.go
--   Snapshot/MemFs        isUpdated, addAncestors and maybeAddToLayer of mem_fs.go, on a pair of the
--                         tree and the layer that is being made
--   Snapshot/CopyOp       copy_op.go: the checks and the destination of a copy operation
--   Snapshot/Walk         utils.go: shouldSkip
--   Snapshot/Links        utils.go: evalSymlinks
--   Snapshot/Merge        UpdateFromTarReader, createLayerByScan and addToLayer of mem_fs.go; the files
--                         of a walk are an argument, and archives are merged without untarring them
--   Snapshot/Compare      CompareFS of mem_fs.go
-- A node is replaced along with its path where Go changes a shared map; the loops that hold an old
-- node only read its children, which are the same then.
--
-- Registry is lib/registry/client.go over lib/utils/httputil and lib/concurrency. The server, the
-- network, the clock and the security options are the record `Outside`, whose answers may depend on
-- all requests so far; nothing is assumed of them but where a result says so. Code that sends
-- requests goes from a history of requests to a result and a longer history:
--   Registry/Http         httputil.go: Send, its retries, the fallback to http, the errors
--   Registry/Upload       client.go: the chunks of a layer; config.go: the defaults, the backoff
--   Registry/Client       client.go: the requests for layers and manifests, pushLayerWithBackoff
--   Registry/Pool         worker_pool.go as a step relation: who takes, ends or drops a task
--   Registry/Push         client.go: Push over a pool in the state in which Wait left it
--   Registry/Pull         client.go: PullLayer into the store of layer_tar_store.go
--   Registry/PullImage    client.go: Pull of an image and the store's manifest of its tag
--   Registry/Session      what a registry has of an upload, told from the requests it accepted
--   Registry/Transport    what the transport read of the bodies of requests
--   Registry/Backoff      client.go: how pushLayerWithBackoff tries again
-- Each task of a pool has its own `Outside` and its own exchanges, so that the answers to it may
-- depend on those to the other tasks in any way. The range of a chunk is kept as its first byte and the one
-- behind its last, so that no number is negative.
--
-- FileStore is file_op.go and file_entry.go of lib/storage/base, one goroutine at a time: the
-- entries in memory, and the disk as a function of a directory and a name. Of the failures of the
-- disk there are files that are missing or there already.
--
-- FileMap is lib/storage/base/file_map.go. An entry is a number and the memory a function, so that
-- the list and the map of names share entries as they do in Go:
--   FileMap               the critical sections under the lock of the map
--   FileMap/Calls         the methods where no other goroutine comes between
--   FileMap/Threads       the methods as they run at the same time: a step is one critical section, and
--                         a goroutine that holds the lock of an entry keeps others out of it
--
-- Loops are structural recursion, on a text, a list or a number of attempts. The calls of
-- addAncestors for the targets of links are recursion on 1024 less their depth, the limit that the
-- code itself sets; at the limit there is the error of the code. The retries of a request and of
-- the push of a layer are recursion on the retries that are left. Three loops have fuel: the chunks
-- of a layer 2 * size + 1, since every second chunk may be empty; the walk along a path its length
-- plus one; and the rounds of evalSymlinks 257, since a link is walked only while fewer than 256
-- are. That they are enough is proved.
--
-- Not modelled: the execution and the cache IDs of build steps (lib/builder/step), the clients of
-- the key-value stores, and of the registry client the security options and the configuration
-- file, each with its state on disk or behind a network; a configuration of it without its
-- defaults, where 0 retries set no limit; of lib/snapshot, what changes the disk (untarring, checkpoints, the execution of copies); of lib/storage, metadata
-- beyond the access time, sandboxes and the directories of manifests; a push_chunk below -1 and a
-- negative concurrency; the timeout of WaitForPush and the no-op cache manager; logs, the texts of
-- error messages beyond their kind, and the times and histories of an image's configuration.
pub mod Base
pub mod Text
pub mod Parser
pub mod Cache
pub mod Builder
pub mod Image
pub mod Paths
pub mod Registry
pub mod Env
pub mod Snapshot
pub mod FileMap
pub mod FileStore
pub mod Tests
