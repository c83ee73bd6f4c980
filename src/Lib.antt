-- ===== src/Lib.antt =====
-- A privacy filter for requests to language models: it finds secrets and personal data in the
-- strings of a JSON request body, replaces them by placeholders, and passes on the rest of the
-- body byte for byte. This library models the parts that decide what is replaced, what it may
-- cost and what a request remembers between calls, and proves what each promises.
--
-- How the parts interact. The JSON scanner validates a body and indexes its string values. The walk
-- of the body's protocol selects the strings to inspect, and refuses what it does not know. A
-- request charges every text it inspects to one `Budget`. The detector layers hand candidates to a span
-- collector, which unions them; `Detect` charges the result to the budget, and `Redact` renders
-- each finding and rebuilds the text around the replacements. `Replace` encodes the new values of
-- string tokens and splices them into the body. The request cache remembers, per request id and
-- context, the digest of the last body that was scanned and the renderer's state.
--
-- Which file models what, with the paths from the repository's root:
--   Budget          internal/privacyengine/budget.go: `Limits`, `Budget` and its methods, with
--                   `LimitError` of types.go. Budget/Run: sequences of operations.
--   Spans           the span collector of internal/privacyengine/engine.go: `newSpanCollector`,
--                   `add` (with the bisection of `sort.Search`), `isPreferred`, `findings`.
--   Engine          `Detect` and `Redact` of internal/privacyengine/engine.go.
--   Matching        the loops over the matches of an expression in
--                   internal/privacyengine/secrets.go, and what a detector is.
--   Pii             internal/privacyengine/pii.go; Pii/Public: what its checks of a match mean.
--   Secrets         internal/privacyengine/secrets.go: Secrets/Keys (the names of credential fields),
--                   Secrets/Noise (what is no secret), Secrets/Context (what stands around a
--                   token), Secrets/Tokens (`forEachEntropyToken`), Secrets/Rules (allowlists,
--                   rules and `detectSecrets`).
--   Detectors       the three detectors in the places of the layers of `Detect`.
--   Walker          walker/types.go. Walker/Tree (`node` of walker/tree.go), Walker/Steps (a walk as
--                   the sequence of what it does to the collector), Walker/Fields and Walker/Common
--                   (the look-ups and the shared blocks of walker/common.go), Walker/Collect (the
--                   collector that runs a walk, with `treeStructuralBudget`), and a module for each
--                   protocol: OpenAi, Responses, Claude, Gemini, Interactions. Walker/Registry:
--                   walker/registry.go with `finish`. Collect/Moves, Runs, Apart and Disposed follow
--                   the collector's selection, Collect/Charged its charges; Reached and Deep are on
--                   walks in general.
--   Redactor        redactor.go: Redactor/Fields (`mergeStringKeyContexts`), Redactor/Placeholders
--                   (`requestRenderer`), with internal/privacyengine/renderer.go.
--   Interceptor     interceptor.go and reject.go: Interceptor/Failures (`handleFailure`) and
--                   Interceptor/Requests (`interceptRequest`, with `shouldSkip` of config.go).
--   Cache           request_cache.go: `Acquire`, `Complete`, `Prune`, `Clear`; Cache/State:
--                   `RequestScanState` with `Seen`, `Record` and the renderer slot.
--   Payload         payload/payload.go: errors, `Limits`, spans, paths. Payload/Token: `Document`
--                   and its look-ups, Payload/Context: `StringKeyContextAt`. Of
--                   payload/jsonscan.go: Payload/Encode (`encodeStringContext`, with
--                   Encode/Grammar, the strings of RFC 8259), Payload/Splice (`splice`),
--                   Payload/Replace (`replace`), and the scanner in Payload/Scanner, with
--                   Scanner/Strings, Scanner/Numbers and Scanner/Values (`scanJSON`, `Scan`);
--                   what it retains is followed in Scanner/Bounds, Retained and Charged.
--   Base            the lists, integers and Boolean tests that the parts share.
--   Tests           the operations and the theorems on concrete inputs.
--
-- State. A Go `int` or `time.Duration` is an integer without a width: limits, lengths and clock
-- readings stay far from the ends of 64 bits, and the code subtracts before it compares, so no
-- sum that it forms exceeds a limit; where `splice` itself guards against overflow, the guard is
-- there. The `atomic.Uint64` counters wrap (`add_counter`). A method that holds its mutex
-- throughout is one step. A pointer to a scan state is an address in a heap, because callers keep
-- states that the cache has dropped; a pointer to a document is the document's number. An error is
-- a value. The payload package runs as steps on a state (`Step`): the scanner on its own record,
-- `Replace` on the number of times that the context was read. The scanner's `rest` is the body
-- from its position on.
--
-- Fuel. `bisect` has one more unit than the interval is long, and each step at least halves it:
-- Spans/Search shows that the index it returns is the one `sort.Search` specifies. The loops over
-- bytes have the length of what is left, and pass a byte in each turn; for `append_chunks`
-- the theorems on `splice` rest on a lemma that the end is reached, and `encode_loop` fails without
-- fuel, which Encode/RoundTrip shows not to happen.
-- `value` has one level more than `max_depth`, so that it stops at the depth guard and not for
-- want of fuel; `double_until` has the capacity that is required, and doubles.
--
-- The walks that recur with a field of a node have the depth of the node as fuel, since each turn
-- goes at least one node down; Gemini/Fuel is on the one of walker/gemini.go.
--
-- The loop over the matches of an expression has two units more than the text is long
-- (Matching/Fuel), and so has that of `lastMatchIndex`; the loop of `contextStart` has 31. These two
-- are `none` without fuel, as where the program would panic, and Secrets/Context/Slices shows that
-- they are never that.
--
-- Parameters. In Engine a detector layer is the list of candidates that it reports for a text. In
-- Pii and Secrets a regular expression is the function from a text to the indices that it finds;
-- `reUUID`, `reHexOnly` and `reMaskOnly` are written out. `strings.ToLower`, `ToUpper` and
-- `TrimSpace` are functions, and so is `shannonEntropy`, with floating-point numbers as a type and
-- their comparison; Walker/Registry takes `parseTree`, which reads the tokens of
-- `encoding/json`, as a function from a document to its tree; Interceptor/Requests takes
-- `sanitizeRequestWithRenderer`, of which Redactor has a part, as a function with the renderer as its
-- state; `net.ParseIP` is written out for a text with no colon. The digest of a body is a function;
-- a renderer is a function with a state; a canceled context is a Boolean for each point at which it
-- is read.
-- `unicode/utf8`, `sort` and the unquoting of `json.Unmarshal` are written out.
--
-- Not modelled: `parseTree` (but for the tree that it returns), the rest of interceptor.go and
-- redactor.go, the C ABI and the configuration, the rules file, panics and their recovery (but for
-- the slices of Secrets/Context, where a panic is the result `none`), nil receivers (but for the
-- readers of a budget), logging; the quoting of an issue's text by `strconv.Quote`.
mod Base
pub mod Budget
pub mod Spans
pub mod Engine
pub mod Cache
pub mod Payload
pub mod Matching
pub mod Pii
pub mod Secrets
pub mod Detectors
pub mod Walker
pub mod Redactor
pub mod Interceptor
mod Tests
