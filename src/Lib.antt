-- ===== src/Lib.antt =====
-- A model of GoGoClaw, an agent that talks to language models over several channels, runs their
-- tool calls and guards what leaves the machine, with the properties that its core parts have.
--
-- Go strings and byte slices are lists of byte values, integers the natural numbers (what is
-- subtracted is written out where the source may go below 0), maps association lists, and a Go
-- pair of a value and an error is an `Outcome`. Locks are left out where a method holds one
-- throughout; where goroutines interleave, a schedule or a list of actions gives their order.
--
--   Base        shared names, tests on numbers, lists, Go strings, results
--   Provider    internal/provider/provider.go: messages and answers; Provider/Router its router.go
--   Channel     internal/channel/telegram.go: the handlers of an update in Channel/Telegram, as the
--               list of what they do, and `SplitMessage` in Channel/Split
--   Tools       internal/tools/dispatcher.go: registration, and a batch of parallel calls
--   Engine      internal/engine: Context (context.go), Session (session.go, and the summaries
--               that a goroutine of engine.go delivers), Turn (`Send`, with the tool loop) and
--               Turn/Stream (`SendStream`) of engine.go, and Manager (session_manager.go,
--               persistence.go), with `AddMessage` and `EnsureConversationAndAddMessage` of
--               internal/storage/conversations.go in Manager/Database; in Persisted the
--               manager is the persistence hook of a turn
--   Security    internal/security: Path (path.go, and the check of internal/skill/host.go) and
--               Network (network.go)
--   Skill       internal/skill/host.go: the capability broker, in Skill/Broker
--   Pii         internal/pii: Luhn and Classifier (classifier.go), and Gate (gate.go)
--   Storage     internal/storage: Encryption (encryption.go), and in Messages the row that a message
--               of conversations.go is written to and read from; Rotation is rotation.go, with the
--               statements and the cursor in Rotation/Statements, the loops over batches in
--               Rotation/Pages (their fuel is a round more than there are rows), and the audit
--               log and `RotateKeys` in Rotation/Audit; Migration is `MigrateToEncrypted` of
--               conversations.go
--   App         internal/app/rotation.go: the staging and promotion of key files, in App/KeyFiles
--   Memory      internal/memory: Facts (`ExtractFacts` of writer.go) and Summarizer (summarizer.go)
--
-- A turn of the engine takes the provider, the dispatcher and the persistence hook as the
-- interface `Services` of Engine/Turn; `Ledger` and `Answers` are what it relies on of them;
-- Engine/Persisted makes `persistMessage` over the store's database such a hook and shows the
-- first of it, and Tools/Dispatcher shows the second of the repository's own dispatcher. The gate
-- and the router stand between the engine and a language model, which is a function of the
-- messages and of a world that it changes.
--
-- Bounds: the tool loop runs on the ten rounds of `maxToolRounds`. `SplitMessage` runs on one
-- more step than the text has bytes, and for a positive limit each step takes a byte at least.
-- The loops over batches of messages run on a round more than there are rows, and each batch that
-- is committed lowers a count of rows. All other loops follow their lists.
--
-- Parameters, for code that is not in the repository: the regular expressions' matches, the file
-- system and `path/filepath`, the vector store's search, a provider's token counts, the cipher
-- and base64, the derivation of a key from a passphrase, SQLite's `datetime`, the answers of the
-- Telegram bot, the fields of a JSON object, and the clock of the router's pauses.
--
-- Not modelled: the terminal interface, the REST channel, the start-up code, the configuration,
-- what SQLite does beyond the statements of Storage/Rotation, MCP, the WebAssembly runtime, and the
-- times and log lines.
pub mod Base
pub mod App
pub mod Channel
pub mod Provider
pub mod Memory
pub mod Storage
pub mod Tools
pub mod Engine
pub mod Security
pub mod Pii
pub mod Skill
