-- ===== src/Lib.antt =====
-- zero-archive is a small JavaScript runtime whose web APIs are written in JavaScript under lib/.
-- This library models its URL implementation, MIME types, timers, events, the class Headers,
-- Blob, the labels of encodings, its module loader, its REPL, and utilities.
--
-- The parts and their files. Each definition has the name of the function it models, in snake case.
-- - lib/whatwg/url/parser.js
--   - Url/Chars: the character, drive letter and dot segment tests. Url/EncodeSets: the tables of
--     lib/whatwg/url/encode_sets.js and `appendOrEscape`.
--   - Url/Ipv4 (`parseIPv4`), Url/Ipv6 (`parseIPv6Host`), Url/Host (`parseHost`).
--   - Url/Record: the URL record, the special schemes, `normalizePort` and `shortenURLPath`.
--   - Url/Machine: the variables of the loop of `basicURLParse`; Url/Step: one function for each case
--     of its switch; Url/Parse: the cleaning of the input and the loop.
-- - lib/whatwg/url.js: Url/Serialize (`findLongestZeroSequence`, `serializeURL` and its helpers).
--   Url/Params: `encodeStr`, `parseParams` and the operations of URLSearchParams; `decodeURIComponent`
--   is a parameter. Url/Object: the constructor, getters and setters of URL; a setter returns the new
--   object and how it ended, since one may throw behind a change.
-- - lib/util.js: Util/AsyncQueue, Util/Base64 (`base64decode`), Util/Uuid (`uuid4122`).
-- - lib/util/cli_table.js: Util/CliTable. The result of `table` is the list of its lines, and
--   `encodeURIComponent` is a parameter, which may throw.
-- - lib/util/inspect.js: Util/Inspect. Objects are places in a list, so that they may be circular; what
--   reflection tells of them is their data. The fuel is the depth of the recursion, and
--   Util/Inspect/Circles shows that the number of objects and one more is enough.
-- - lib/repl/tty.js: Repl/Keys. `emitKeys` is a generator; the places of its `yield` are the phases of a
--   state machine, and a step goes from one to the next. Repl/Keys/Names is its table of codes.
-- - lib/repl.js: Repl/Editor. The callbacks of `emitKeys` and of the terminal on the variables of the
--   line editor; Repl/Editor/Sessions puts them behind the decoder.
-- - lib/mime.js: Mime. The loops of `parse` take a text up to a stop (`collect`) and go on behind it
--   (`behind`); the parameters are the entries of a Map in their order.
-- - lib/loader.js: Loader. `resolve` calls the model of the class URL; `getModuleJob` is a step for what
--   it does behind its await. lib/loader/translators.js is the table of formats.
-- - lib/loader/module_job.js: Loader/Graph. The search for the jobs in the graph of a job, a relation
--   on its states, since the jobs are linked in any order.
-- - lib/whatwg/timers.js: Timers. The queue, `setTimeout`, `setInterval`, `clearTimeout`, and the
--   callback of the native timer.
-- - lib/whatwg/fetch.js: Fetch/Headers. The object of keys and arrays is a list; Fetch/Headers/Iterator
--   is the iterators and `forEach`, whose loop has fuel, since a callback may add headers for ever.
-- - lib/whatwg/encoding.js: Encoding. The table of labels and `getEncodingFromLabel`; `toLowerCase` is a
--   parameter.
-- - lib/w3/blob.js: Blob. The constructor, over Mime for its type, and `slice`.
-- - lib/whatwg/events.js: Events. Event, the lists of listeners of EventTarget, and `dispatchEvent`.
-- `basicURLParse` calls `parseHost`, which calls `parseIPv4` and `parseIPv6Host`; the URL class calls
-- `basicURLParse` for itself and its base, and `serializeURL` for `href`.
--
-- A string is a list of UTF-16 code units, and `input[i]` is `none` behind its end. A round of the
-- loop goes on with a new machine, returns the record, or throws a TypeError (a property of a base
-- that is not there, or of the missing first segment of its path). `break` moves the index on and
-- `continue` does not; where STATE_AUTHORITY goes back by the length of the buffer, the index is
-- that of the first character of the buffer. STATE_* constants are a data type, so an override that
-- is no state at all is not modelled: the callers pass exported constants only.
-- The loop has fuel, three times the length of the cleaned input and 40: the parser goes back at most
-- twice and otherwise only forward or to a lower state, and the measure of Url/Parse/Measure shows
-- that this is enough. `parseIPv6Host` has the length of its input as fuel, since each round of its
-- loops reads a character; its array accesses are checked, and an index out of range is a fault.
-- Numbers are natural numbers: a port or an IPv4 part that JavaScript would round is far above the
-- bounds that the code tests. The case mappings of `toUpperCase` outside of ASCII and of `toLowerCase`
-- belong to the engine and are parameters, `upper` and `lower`. The loop of the MIME parser has a
-- round for each character as fuel, and Mime/Valid shows that it is enough.
--
-- AsyncQueue is an inductive relation on its states: a step adds a job or settles a running one. What
-- a timer handler or an event listener does is a parameter, the list of calls of the API that it
-- makes; what it throws is caught. Times are natural numbers. A listener has an identity, since
-- `indexOf` compares objects; a listener that dispatches another event is not modelled.
--
-- The number of rounds of `forEach` of Headers is bounded only where the callback adds nothing;
-- Fetch/Headers/Walk shows that one round more than there are headers is enough then. A string that the
-- REPL decodes is any sequence of code units, in any pieces.
--
-- Not modelled: `origin`, blob URLs, file paths and data URLs in lib/whatwg/url.js, the iterators,
-- `sort` and the object constructor of URLSearchParams; bodies, requests and FormData in
-- lib/whatwg/fetch.js; the streams, which are a copy of the reference implementation of their standard;
-- lib/repl/highlight.js, which is regular expressions for a screen, and lib/whatwg/console.js, which
-- prints what Util/Inspect and Util/CliTable make; linking and evaluating of modules,
-- whose records are the engine's; the wrappers of native code (files, sockets, coders, performance,
-- FFI) and the native layer.
mod Prelude
pub mod Url
pub mod Util
pub mod Loader
pub mod Mime
pub mod Repl
pub mod Fetch
pub mod Encoding
pub mod Blob
pub mod Timers
pub mod Events
mod Tests
