-- ===== src/Lib.antt =====
-- A model of the core of kelemetry, which turns the audit logs, events and object changes of a
-- cluster into traces, with proofs about it.
--
-- Objects are watched by reflectors that write to a store over a swap map, and its callbacks feed
-- the queues of the controllers. The aggregator makes one pseudo span for each object, time window
-- and deduplication id, and uses the span cache so that all its callers share it. The frontend
-- loads the spans of an object into a tree, follows links to other objects as the link selectors
-- allow, and lets transformers change the tree.
--
--   Base          comparisons, lists under native indices, Go maps as association lists, and
--                 equality as an interface. Nothing here is from the repository.
--   Channel       pkg/util/channel/channel.go. `Deque` is the ring buffer: push_back, pop_front,
--                 peek_front, len, compact are PushBack, PopFront, LockedPeekFront, Len, Compact,
--                 each with the lock held. `Queue` is UnboundedQueue: a step is a part of Send or of
--                 receiverLoop between two points at which another goroutine may run.
--   TtlOnce       pkg/util/cache/ttl.go over `Deque`: add, get, size, do_cleanup, and in `Loop` the
--                 goroutine of RunCleanupLoop.
--   Informer      pkg/util/informer: `SwapMap` is swap_map.go, `Store` is prepush_undelta_store.go,
--                 whose callbacks are returned as a list of events.
--   SpanCache     pkg/aggregator/spancache: the errors and entries of interface.go, and the methods
--                 of local/local.go. A method takes the lock of the map and then that of an entry;
--                 its phases are functions of their own, and entries live in a heap. `Etcd` is
--                 etcd/etcd.go, over a client of etcd.
--   Aggregator    pkg/aggregator/aggregator.go: cache keys, time windows, the pseudo span
--                 (CreatePseudoSpan up to the call of the tracer), and in `Creation`
--                 GetOrCreatePseudoSpan, in `Ensure` EnsureObjectSpan, in `Send` Send, of events
--                 as in aggregatorevent/event.go, `Event`. It takes its keys from
--                 pkg/util/object and its tags from pkg/util/zconstants/link.go.
--   SpanTree      pkg/frontend/tf/tree/tree.go: new_span_tree, add and move; `Subtree` has clone,
--                 add_tree and delete, `Visit` has visit and set_root.
--   Filter        pkg/util/marshal/marshal.go: the filters of the configuration, once parsed.
--   LinkSelector  pkg/frontend/tf/config/link_selector.go, and the modifier of
--                 pkg/frontend/tf/defaults/modifier/link_selector.go.
--   Diff          pkg/diff/cmp/cmp.go: the comparison of two JSON values.
--   LinkTags      pkg/util/zconstants/link.go: objects and links in the tags of spans.
--   Merge         pkg/frontend/reader/merge/merge.go: keys, their order and the link map;
--                 `Components` is findConnectedComponents, `Roots` is mergeRoot, `Objects` has
--                 newObject, merge and identifyLinks, `LinkMap` the first half of MergeTraces,
--                 `Linked` detectRoot and mergeLinkedTraces, and `Traces` composes them into
--                 AddTraces and MergeTraces.
--   DiffCache     pkg/diff/cache: local/local.go, and in `Wrapper` memory_wrapper.go over an interface
--                 for the cache behind it.
--   Semaphore     pkg/util/semaphore/semaphore.go: a step is what the goroutine of a task or the one
--                 that calls Run does between two points at which another may run.
--   Steps         pkg/frontend/tf/defaults/step: what the visitors do to the span that they enter or
--                 leave; `Naming` is operation_service.go, `Nesting` has extract_nesting.go and
--                 object_tags.go, `Collapse` and `AuditDiff` are collapse_nesting.go, and
--                 `Transform` is pkg/frontend/tf/transform.go with LoadExtensionCache of extension.go.
--   Manager       pkg/manager: `order_components` is orderComponents with insertDeps, `Trim` is the rest
--                 of TrimDisabled, `Lifecycle` has Init, Start and Close; `Mux` is mux.go.
--
-- Conventions. Lengths, times and durations are natural numbers and do not wrap; times are in
-- nanoseconds. A Go panic is `none`. A map is an association list whose order is the order of
-- `range`, and no theorem depends on that order. Locks are left out where a method holds one from
-- its start to its end. Values of a cache, UIDs, span ids and the like are type parameters, with
-- equality where the code compares them.
--
-- Bounds. The cleanup loop of the TTL cache runs on fuel, a round for each entry of the queue and
-- one more, and the comparison of JSON values on fuel for their depth; the proofs that they return
-- show that this is enough. The search for components, the one for a root and the loop that
-- puts traces below it run on fuel for the number of objects, and are proved to end. Recursion into a
-- span tree runs on fuel for its depth, which is a parameter; the merged traces and SetRoot are
-- proved to succeed with it. The search of insertDeps and the trimming run on fuel for the number
-- of components, and are proved to end. All other loops are structural.
--
-- Parameters. The tracer, the formatting of numbers, times and tag values, random span ids, regular
-- expressions, case folding, sorting, float equality, the accessors of cluster objects and the retry
-- of client-go are not in the repository's own code, and stand as arguments, as do the registered
-- decorators of spans and events. Of the retry it is assumed that it does not run again what has
-- succeeded, of case folding that a string equals itself, of floats that those of a JSON text do,
-- and of sorting that it gives back the same keys. The client of etcd is a parameter too: `IsEtcd`
-- says what is assumed of it, from the documentation of etcd, for a server that answers.
--
-- Not modelled: logs and metrics, the JSON parser, the diff cache on etcd, the reader and the
-- fetching of linked traces, the diff controller, the audit and event pipelines, the linkers,
-- leader election, the reflection of the component manager, HTTP and storage.
pub mod Base
pub mod Channel
pub mod TtlOnce
pub mod Informer
pub mod SpanCache
pub mod Aggregator
pub mod SpanTree
pub mod Filter
pub mod LinkSelector
pub mod Diff
pub mod LinkTags
pub mod Merge
pub mod Semaphore
pub mod DiffCache
pub mod Steps
pub mod Manager
