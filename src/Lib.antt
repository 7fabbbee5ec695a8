-- ===== src/Lib.antt =====
-- A verification library of the gateway, an OpenTelemetry collector.
--
-- The parts and their files:
--
-- TailSampler: the tail sampler, processor/signoztailsampler. ConsumeTraces groups spans by trace
--   (TailSampler/Group) and puts each new trace on a map, with an id in the batcher and in the
--   deletion channel (TailSampler/Intake); the policy ticker takes the oldest batch and decides its
--   traces (TailSampler/Tick, TailSampler/Decide). The batcher of internal/idbatcher is
--   TailSampler/Batcher, with its goroutine as the step `fill`; config.go is TailSampler/Config,
--   evaluator.go TailSampler/Evaluator, and newTracesProcessor TailSampler/Build. The map is an
--   association list (TailSampler/Table), the two channels are queues, and what the next consumer is
--   given is a list in the state (TailSampler/State). TailSampler/Life runs calls, ticks and
--   receptions in any order.
-- Sampling: the policies of processor/signoztailsampler/internal/sampling: policy.go is
--   Sampling/Trace, util.go Sampling/Scan, latency.go Sampling/Latency, probabilistic.go
--   Sampling/Hash, string_tag_filter.go Sampling/Attribute, rate_limiting.go Sampling/Rate, and.go and
--   composite.go Sampling/Combine, and the policies without state Sampling/Simple. The evaluator of
--   the tail sampler takes filters, samplers and subpolicies by the interface PolicyEvaluator.
-- License: the licence guard, extension/licenseguardextension (License/Guard), and the gate,
--   processor/licensegateprocessor (License/Gate), which asks the guard by the interface
--   LicenseChecker (License/Checker) and passes telemetry on or drops it.
-- Opamp: the collector under remote control, opamp. server_client.go's reload is Opamp/Reload, over the
--   files of Opamp/Files; config_manager.go and onRemoteConfigHandler are Opamp/Manager.
-- SpanMetrics: the span metrics processor, processor/signozspanmetricsprocessor. internal/cache is
--   SpanMetrics/Cache. Of processor.go, buildKey and the dimensions are SpanMetrics/Keys over the spans
--   of SpanMetrics/Span, getRemoteAddress is SpanMetrics/Address, a histogram SpanMetrics/Histogram, the
--   histograms of one metric with the cache of their dimensions SpanMetrics/Store, ConsumeTraces
--   SpanMetrics/Processor, which reads the time once for a call, and exportMetrics
--   SpanMetrics/Processor/Export. SpanMetrics/Processor/Runs runs both in any order, and
--   SpanMetrics/Processor/Totals says of the spans alone what is counted.
-- KeyCheck: which attribute keys look random, pkg/keycheck/keycheck.go, and which have many values,
--   cardinality.go (KeyCheck/Cardinality); its regular expressions
--   are written as tests on lists of code points.
-- Migrator: the schema migrator, cmd/signozschemamigrator/schema_migrator. column.go is
--   Migrator/Columns, table.go Migrator/Engines; each operation has a file, under Migrator/Column,
--   Index, Projection, Table, View and Rows, and Migrator/Operations is the interface Operation over
--   them. The indexes of JSON subcolumns of index_operations.go are Migrator/SubColumns. manager.go is
--   Migrator/Waits, Migrator/Manager (RunOperation and the choice of the operations that run at once),
--   Migrator/Migrations (the loops over the migrations) and Migrator/Bootstrap, over the ClickHouse
--   servers of Migrator/Server.
-- Prelude: shared names, Boolean tests, lists, int64 arithmetic and results.
--
-- Machine integers: the int64 counters of the limiters, the span counts, durations and differences
-- of time wrap or saturate as Go's do (Prelude/Int, Sampling/Latency, License/Guard/Time);
-- numTracesOnMap and the counts of a histogram are uint64 modulo 2^64. Loops are structural
-- recursions, and the loop that posts an id for deletion recurs on what the deletion channel holds.
-- Only the binary search of a histogram, Go's sort.SearchFloat64s, has fuel, the number of its
-- bounds: search_from-enough says that more changes nothing. `none` as the
-- result of a step is a panic or a channel operation that blocks for ever.
--
-- Parameters: the order in which Go ranges over a map, the regular expressions and groupcache's
-- LRU cache of the string filter, ParseTraceState of the OpenTelemetry SDK, float64 percentages
-- with calculateThreshold, opencensus's check of tag values, the JWT, PEM and X.509 libraries, the
-- file system, the collector's restart, SHA-256, the OpAMP client's answers, hashicorp's
-- simplelru, float64 and the exponential histogram of the span metrics, the host of a URL, the names
-- of the package pdata, ClickHouse with the time its backoff takes (Migrator/Server), the lists of
-- migrations, and the letters of the package unicode. Sorting keeps equals in order, where Go
-- leaves their order open.
--
-- Not modelled: logs, opencensus views and gauges other than those counted in the state, contexts,
-- and the interleaving of goroutines inside one call: a concurrent run is a sequence of whole calls,
-- ticks and receptions. The other parts of the repository (exporters, receivers, the logs pipeline,
-- the start of the span metrics processor and the times of its data points) have no file here, nor
-- have the start of the OpAMP client and its no-operation configuration, and, of the schema
-- migrator, the connections to the hosts and the wait for the distribution queue of one host. Polls
-- end by what the backoff allows, which is a number
-- that the servers' state gives.
pub mod KeyCheck
pub mod License
pub mod Migrator
pub mod Opamp
pub mod Prelude
pub mod Sampling
pub mod SpanMetrics
pub mod TailSampler
