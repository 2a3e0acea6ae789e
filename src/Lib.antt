-- ===== src/Lib.antt =====
-- A model of the MCP server for bundles of OKF concept documents, and what it guarantees.
--
-- The program keeps bundles: directories of Markdown files with a YAML frontmatter, one concept per
-- file. A registry file names the bundles. The tools of the server read and write concepts, and
-- search them by embedding vectors in an approximate nearest neighbour graph. A tool call goes from
-- a handler (internal/adapter/mcp) to a use case (internal/usecase), and from there through the
-- interfaces of internal/domain to the adapters: the node repository with its path resolver
-- (internal/adapter/okf), the vector store (internal/adapter/vectorstore) and the registry
-- (internal/infra/registry).
--
-- Where the parts are:
--   Domain: internal/domain. Scope is ParseScope of chunk.go, Ref is NewConceptRef of concept.go,
--   Types are the records, Interfaces are interfaces.go, and Fakes are the fakes of domaintest/fakes.go.
--   UseCase: internal/usecase. Concept is concept.go, Bundle and Reindex are bundle.go, Search is
--   search.go. Each operation is a function of the same name in snake case. Concept/Writers has the
--   steps of goroutines that call WriteConcept at once.
--   VectorStore: internal/adapter/vectorstore/hnsw.go; Files is New, Persist and Load.
--   Okf: internal/adapter/okf. Resolver is pathresolver.go, Repository is repository.go with Get, Put
--   and ListTypes in Concepts, Document is parser.go and validator.go, Linker is linker.go.
--   Embedding: internal/adapter/embedder. Tokens is tokenize, Bm25 the embedder of bm25.go, Bm25/Scores
--   its Embed, and Chunks is chunker.go; its loop over windows has one round of fuel for each rune.
--   Config: config.go of internal/infra/config. Transport: server.go of internal/infra/transport, with
--   the middleware round the tools; Transport/Server is NewMCPServer. Command: the wiring and the
--   commands of cmd/tahu/main.go, over the state of the whole process in Command/State; Built and
--   Reindex are about what buildServices leaves, Printed, Listed and Levels about what is printed and
--   logged, Refs about the references of the commands.
--   Mcp: handlers.go, validation.go and tools.go of internal/adapter/mcp. Bundles, Concepts and
--   Searches are the handlers, Validation the checks that they share, Tools is RegisterTools.
--   Registry: yaml.go of internal/infra/registry; Processes is several processes at once, which take
--   turns by the lock of flock.go.
--   The use cases rely on contracts, IsReservedStore and IsBundleStore; Okf/Repository/Store/Contract and
--   Registry/Contract are about these and the repositories on disk, Okf/Repository/Store/Stored is about a write of a concept and a read.
--   Go: what the code uses of Go's strings, path/filepath, maps and floats.
--   Exec: errors, and code that changes a state and may fail. Prelude: shared names.
--   Tests: concrete instances, and the theorems at concrete inputs.
--
-- How the code is modelled. A string is a list of bytes. A method with effects is a function from
-- the state of the process to a result and a new state; `S` stands for that state, and the
-- collaborators of a method are records of such functions. An error is its sentinel, or a label for
-- where it was made; message texts are left out. A loop over a slice is recursion on the list, so
-- that no fuel is needed but for the windows of a paragraph. Go's `int` is 64 bits with
-- wrap-around, which the over-fetch of a search keeps. A `time.Time` is a number.
--
-- What is a parameter: the calls of package os and filepath that reach the disk, the YAML and JSON
-- libraries, the Markdown parser, the graph of github.com/coder/hnsw, the requests and results of
-- github.com/mark3labs/mcp-go, the environment, the clock, and the floats with their arithmetic. What
-- a theorem relies on of them is a record of named laws beside it: IsFileSystem, IsYaml, IsGraph,
-- IsReservedStore, IsBundleStore, IsBounded, IsDisk, IsFiles, IsStable, IsTree, IsIndexDisk, IsDecoder, IsRuneText.
-- IsDisk is of files alone; IsFiles is of a disk with directories too, where no link gives a file a second name.
--
-- What is not modelled: contexts, and mutexes but for the lock of the registry and the mutex of a
-- bundle (elsewhere a call is one sequence of steps), the servers of the transport with their dispatch
-- by name, the command library with the declarations of the commands, the lines of the log but for those
-- of the middleware, the message texts of errors, and the lock on Windows, which does nothing.
pub mod Prelude
pub mod Exec
pub mod Go
pub mod Domain
pub mod Mcp
pub mod UseCase
pub mod VectorStore
pub mod Okf
pub mod Registry
pub mod Embedding
pub mod Config
pub mod Command
pub mod Transport
pub mod Tests
