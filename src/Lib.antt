-- ===== src/Lib.antt =====
-- Fearless, an HTTP framework for Node, Bun and a core in Rust (src/ of the repository).
--
-- An `App` registers routes whose response is a template or a handler, hooks, and built-in features.
-- `listen` chooses a runtime. The Node and the Bun runtime find the route of a request, run the hooks
-- and the handler with a `Ctx`, or render the template, and add the headers of the features; an app of
-- templates can be handed as a manifest to the Rust core.
--
-- The files and what they model:
--   Base        text, lists, association lists, and what the library gives; no code of the program
--   Web         JSON values, results and thrown values, `Headers` and `Response` of the web standard,
--               and `Platform`, the engine functions that the code calls, which are parameters
--   Path        src/path.ts: normalizePath
--   Routing     src/app.ts: compilePath (Pattern), the tree of parameter routes (Table), addRoute and
--               findRoute (Search); the other files of Routing hold the proofs
--   Builtins    src/dependencies/*.ts (Features), use, buildBuiltinHeaders and buildRouteHeaders of
--               src/app.ts (Headers)
--   Errors      src/errors.ts
--   Middleware  src/middleware.ts
--   Query       src/ctx.ts: parseQueryString; src/request.ts: parseQuery; src/app.ts: joinQueryParams
--   Template    src/app.ts: TEMPLATE_PATTERN (Scan), tokens, rendering, renderRouteBody (Render)
--   Ctx         src/ctx.ts: the inputs, the body and the response builders of RequestContext
--   Outgoing    src/response.ts
--   Incoming    src/request.ts: the body of Request
--   App         src/app.ts: registration (State), handleNodeRequest (Node), the route map and the
--               fallback of Bun (Bun), listen, startNodeServer and createRustManifest (Listen);
--               src/rust-core.ts: isBenchmarkManifest (Benchmark)
--   Syntax      the syntax trees of TypeScript, as far as the packages tell their nodes apart
--   Analyze     packages/aot-analyzer/src: the visitors (Walk, Uses), the handles of a file (Handles),
--               the rules (Handler, Rules) and analyzeHandler (Analysis); Allowed is the subset in terms
--               of the syntax, Agreement sets the rules against the transpiler
--   Transpile   packages/aot-transpiler/src: types.ts (Shapes), emit/extract.ts (Reads, Json, Chain,
--               Extract), index.ts (Guards, Function); ReadLaws, Meaning and Formula are what
--               reads, expressions and conditions mean in JavaScript, Value what the emitted code
--               shows of them, Source the text of the function; the transpiler uses none of these
--   Emit        packages/aot-transpiler/src/emit: escape.ts (Escape), status-text.ts (StatusText),
--               rust.ts (Response); Machine runs the emitted statements, Wire has the head of
--               a response as HTTP spells it and reads the emitted expressions
--   Sql         src/sql.ts and packages/aot-analyzer/src/sql-template.ts (Template),
--               packages/aot-build/src/sql-collection.ts (Collection)
--   Build       packages/aot-build/src/index.ts: the routes of compileApp (Compile)
--   Tests       the inputs to which the theorems are applied
--
-- Functions keep their names in snake case. A method that changes its object takes the object's state
-- and gives the new one. An awaited call is a function of a state `S`, which user code can change, to
-- a result or a thrown value and a state. Text is a list of UTF-16 code units, an object or a `Map` an
-- association list in the order of insertion. Recursion is structural throughout; loops over indices
-- follow the rest of the list, the tree of routes is followed by its segments, a chain of calls by its
-- syntax. Fuel stands in one place, the digits of a number `n`, of which there are at most `n + 1`. The
-- theorems hold for any `toLowerCase`, and for any `TextEncoder` that gives bytes.
--
-- Not modelled: sockets, processes and files (startRustCoreServer, close, the reading of the key and
-- the certificate), bodies that are neither text nor null, setters of `__proto__`, the launchers, the
-- emission of async handlers (the build takes any emitter of them), the recognition of
-- registrations in a source file, the text of the generated files around the functions, statuses
-- that are negative or no integers, the Rust core, benchmarks and examples.
pub mod Base
pub mod Path
pub mod Routing
pub mod Builtins
pub mod Web
pub mod Errors
pub mod Middleware
pub mod Query
pub mod Template
pub mod Ctx
pub mod Outgoing
pub mod Incoming
pub mod App
pub mod Emit
pub mod Build
pub mod Sql
pub mod Syntax
pub mod Analyze
pub mod Transpile
pub mod Tests
