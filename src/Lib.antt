-- ===== src/Lib.antt =====
-- effect-opcua: an OPC UA client for Effect (packages/client) and a generator that turns the address
-- space of a server into TypeScript modules (packages/codegen).
--
-- The larger part of the model is the generator, packages/codegen/src: discover.ts, compile.ts and the
-- directory compile. The compiler takes what was discovered on the server (nodes, roots and data
-- type definitions) and gives a CodegenModel or the issues for which it refuses. Its parts:
--   Codegen.Issues        issue-codes.ts, diagnostics.ts: codes, severities, issue, errorIssue
--   Codegen.Types         internal/types.ts and the definition types of OpcuaSession.ts
--   Codegen.BuiltinTypes  compile/builtin-types.ts, compile/policy.ts
--   Codegen.Names         compile/names.ts: identifiers from browse names; Names.Surface has
--                         surfaceNodes and pathIssues
--   Codegen.TypeGraph     compile/type-graph.ts: reachableDefinitions, the worklist over data types
--   Codegen.Naming        the two passes over the names, which compile/enums.ts and
--                         compile/structures.ts both have
--   Codegen.Enums         compile/enums.ts: compileEnums
--   Codegen.Recursion     compile/structures.ts: recursiveStructureFields and reaches
--   Codegen.Structures    compile/structures.ts: the checks; Structures.Schema has fieldSchema and
--                         Structures.Emit the generated structures
--   Codegen.Variables     compile/variables.ts: access and codec
--   Codegen.Assemble      compile/model.ts: collisions of paths, the order of the structures, and
--                         the model
--   Codegen.Compile       compile.ts, compileReachableTypes and sortIssues; Compile.Policy has
--                         enforceIssuePolicy of diagnostics.ts
--   Codegen.Discover      discover.ts: the exclusion rules and the choice of children; Discover.Nodes
--                         has addOrUpdateNode and Discover.Walk the walk from the roots, as a step from
--                         state to state and as a loop on fuel
-- Each of them is a module whose children hold its proofs; Codegen.Tests applies the theorems to a
-- small plant. Prelude holds what they share: lists, JavaScript's Set (Prelude.Sets) and Map
-- (Prelude.Maps) as lists in insertion order, the grouping of values under a key (Prelude.Groups),
-- and Array.prototype.sort, which is stable (Prelude.Sort).
--
-- A loop that pushes to arrays is a function from its variables to their new values; an optional
-- property is an Option; an early `continue` or `return` is a case or a conditional. A field of a
-- record that the compiler does not read is left out.
--
-- Fuel. The worklist runs on the number of its first ids plus the number of dependencies of all
-- definitions, of which every id adds its own at most once; TypeGraph.Work proves that it ends.
-- `reaches` runs on one more than the number of structures, since every call marks a new one;
-- Recursion.Decides proves that it returns. `visit` of sortStructures has the same bound, proved in
-- Assemble.Sorted.
--
-- The walk of discover.ts has no bound: it does not end where objects refer to each other in a circle,
-- so what is proved of it is an invariant of every state that it reaches.
--
-- Parameters. A RegExp of the configuration is its `test`, one without the flags g and y. localeCompare, the order of sort() on strings, toLowerCase, split(".") and the text of
-- an issue's code belong to the platform and are the record Platform of Codegen.Compile. Strings are
-- sequences of Unicode code points, where JavaScript has UTF-16 code units; the regular expressions
-- of names.ts only ask for ASCII letters and digits. A number of the OPC UA attributes is an integer.
--
-- The client package is modelled where it works on batches (packages/client/src/internal/batch):
--   Client.Effect         what a program of the Effect library is taken to be: a function of a world,
--                         which succeeds or fails; a `yield*` is and_then
--   Client.Batch          chunk.ts, chunksOf and positiveIntegerOrDefault: a list of items is cut into
--                         requests; Effect.forEach with its concurrency is a parameter, and IsForEach
--                         of Batch.Ordered says what its documentation promises
--   Client.Batch.Keyed    keyed.ts: normalizeKeyedRecord, validateUniqueTargets, rekeyOrderedResults
--                         and runKeyedBatchOperation; the texts of error causes are constructors
--   Client.Batch.Options  keyed.ts: validateOptionsShape and normalizeServiceOptions, and the options
--                         of batch/operations.ts; a value of a caller is a FieldValue, a
--                         ServiceValue or an OptionsValue
--   Client.Batch.Operations  batch/operations.ts: readManyWithState and writeManyWithState, which put
--                         the keyed batch, metadata.variable (a field of SessionState here) and
--                         Client.Variable together; the members of the union of errors are the
--                         constructors of SessionError
-- Client.Tests runs them with an Effect.forEach that goes one after the other. chunksOf has fuel for
-- one round per item, enough for a positive size; Batch.Chunks proves it.
--
-- and where it reads, writes and monitors variables:
--   Client.Access         packages/client/src/internal/variable/operations.ts: hasAccess,
--                         accessDeniedError and the access flags of variableMetadataFromRaw
--   Client.Monitor        packages/client/src/internal/monitoring/runtime.ts: `monitor`, from the
--                         effective items on. Monitor.Validate has validateStartupItems,
--                         Monitor.Create createMonitorChunks and createMonitorChunk, Monitor.Start
--                         the report, the wiring and cleanupMonitor, Monitor.Buffer
--                         offerMonitorNotification, Monitor.Listen the listeners of wireMonitorGroup and the
--                         steps of a monitor that runs, in any order
--   Client.Metadata       packages/client/src/internal/metadata/service.ts: Metadata.BuiltIn has
--                         resolveBuiltInDataType, Metadata.Cache the service with its caches, but
--                         for the metadata of methods, Metadata.Nodes the batches of
--                         readManyNodeMetadata
--   Client.Values         packages/client/src/internal/values/normalize.ts: normalizeStatusCode,
--                         normalizeVariantInfo and normalizeTimestamp; Values.Int64 has int64Text
--   Client.Variable       variable/operations.ts: readPreparedVariables and sampleFromDataValue, with
--                         values/result.ts; the session's read, the codecs and the structure runtime
--                         are the record Services; Variable.Write has writePreparedVariables,
--                         writeResult, encodeWriteValue and codecMetadata
-- The state of one call of `monitor` is the record Runtime: the registered groups, the groups that are
-- listened to, and all that was asked of node-opcua. node-opcua is the record Server, whose answers
-- may hang on every call before; the queue is Effect's and the record QueueOps. Requests that the
-- client may make at once are made one after the other, and no call is interrupted. The metadata
-- service takes the server's answers as functions of the question, which stand still between two calls
-- of `invalidate`; resolveBuiltInDataType has one unit of fuel for each data type that the server
-- knows and one more, and BuiltIn.Resolved proves that this is enough.
--
-- Not modelled: the resolution of the roots, the reads of data type definitions and the final sorts in
-- discover.ts, emission of text, configuration, the command line and the files that are
-- written (packages/codegen/src/emit.ts, config.ts, cli.ts, generate.ts), and, of
-- the client package, the sessions, the read and the write of a single variable, the calls of methods
-- (callManyWithState of batch/operations.ts and packages/client/src/internal/method), events, and the
-- checks of the options that monitoring/options.ts makes before the effective items.
pub mod Prelude
pub mod Client
pub mod Codegen
