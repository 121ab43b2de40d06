-- ===== src/Lib.antt =====
-- NexusIntelliCore is a server that answers requests of the Model Context Protocol about source
-- code. A request arrives framed on standard input (src/transport.rs), passes the handshake and the
-- allow-list (src/server.rs, src/main.rs), is dispatched to a tool (src/tools/mod.rs) on a project
-- of the registry (src/state/mod.rs), and its result is cleaned of secrets (src/privacy_gateway.rs,
-- src/sanitizer.rs) before it is cached or sent. A file watcher keeps the index of each project
-- fresh (src/watcher.rs, src/state/project.rs).
--
-- Prelude: lists, Boolean tests and texts over the native numbers. A text is the list of its UTF-8
--   bytes; Prelude.Decimal is `to_string` and `parse` of `usize`.
-- Json: `serde_json::Value`, with objects as lists of fields in the order of their keys.
--   Json.Paths reads a value along keys and indices.
-- Protocol: src/protocol.rs. An error code is kept by its absolute value.
-- Transport: src/transport.rs. `McpTransport` holds the bytes still to be read and those written.
--   `read_message` and `write_message` are the operations; the loops over header lines and over
--   blank lines run on fuel, one more than the number of bytes left, and each round reads a byte.
-- Privacy: src/sanitizer.rs (the texts) and src/privacy_gateway.rs (Privacy.Policy: `PrivacyPolicy`
--   and `sanitize_json_args`). A compiled regular expression is a parameter. Privacy.Config is the
--   redaction of configuration files, Privacy.Bodies the removal of function bodies, Privacy.Rules
--   the overrides and the cache of compiled rules, Privacy.Graph `sanitize_dependency_graph`.
-- Security: src/security.rs: loading the configuration, the digests of tokens, and the audit file
--   (Security.Audit) over runs of the program, for calls that do not overlap. The hasher is a parameter.
-- Registry: src/state/mod.rs (projects, `resolve_project_for_path`), src/state/resolver.rs
--   (`canonical_root`, `validate_path`) and `ProjectContext` of src/state/project.rs. The file
--   system is a record of what the code asks of it. A `HashMap` is a list of entries with distinct
--   keys; locks are left out, since each operation holds them for its whole body or reads once.
-- Refresh: `request_watcher_refresh` and `run_watcher_refresh_loop` of src/state/project.rs and the
--   debouncing of src/watcher.rs, one atomic access per step, any number of tasks. A parameter says
--   whether a load (and a `compare_exchange` that fails) may come before earlier stores of the same
--   task to other flags, as the orderings `Release` and `Acquire` allow.
-- Tools: src/tools/definitions.rs (the table), Tools.Arguments, Tools.Dispatch and Tools.World:
--   src/tools/mod.rs with the cache of src/state/cache.rs and the counters of
--   src/state/metrics.rs; Tools.Projects: src/tools/projects_tool.rs. The other handlers are one
--   function of the services, which may also drop entries of the cache.
-- Server: src/server.rs, `authenticate` of src/state/mod.rs, the loop of src/main.rs;
--   Server.Compare: the comparison of digests in src/security.rs; Server.Uri: `uri_to_path`.
-- Linter: src/linter/level1.rs on the text of a file, and the diagnostics of src/linter/types.rs;
--   src/linter/level2.rs: Linter.External (`run_command` and what the linters share), Linter.Targets
--   (`path_matches_target`), Linter.Documents, Linter.Listings and Linter.Captured (the parsers),
--   Linter.Level2 (`run_external`); Linter.Pool: src/linter/pool.rs. How each process ends, the JSON
--   reader and the regular expressions are parameters.
-- DepsGraph: src/tools/deps_graph/imports.rs, with `ImportKind` of src/analyzer/types.rs. The loop of
--   `normalise_internal_reference` has one more round of fuel than the text has bytes.
--   DepsGraph.Query: the parameters of src/tools/deps_graph/mod.rs; DepsGraph.Depth: the search of
--   `apply_depth_limit` in src/tools/deps_graph/builder.rs, with the number of keys as fuel.
-- Predictor: src/analyzer/predictor.rs without `predict_next`. A syntax tree is the tree of its nodes'
--   kinds; the arithmetic of `f64` is a parameter.
-- Indexer: src/indexer.rs: the globs of `.mcpignore`, the split into allowed and restricted files and
--   the shown tree with its numbers. The walk and the compiled globs are parameters.
-- Audit: src/tools/audit.rs: the findings, their deduplication and their counts; the detectors are
--   parameters.
-- Aliases: the TypeScript path aliases of src/state/resolver.rs. A path is the list of its components;
--   the prefix of a drive, which only Windows has, is left out.
-- Tests: small runs.
--
-- Not modelled: the syntax trees and what is computed from them (the rest of src/analyzer,
-- src/relations.rs, the other handlers under src/tools), cycles of the dependency graph, which a
-- library finds, the rendering of the index, start-up, most environment variables, clocks, logging, the
-- wording of error messages, the JSON schemas of the tools (src/tools/definitions.rs) and
-- `canonicalize_json` (src/state/resolver.rs); the last two are parameters.
mod Prelude
pub mod Json
pub mod Privacy
pub mod Protocol
pub mod Transport
pub mod Registry
pub mod Refresh
pub mod Tools
pub mod Server
pub mod Linter
pub mod Aliases
pub mod Predictor
pub mod DepsGraph
pub mod Security
pub mod Indexer
pub mod Audit
pub mod Tests
