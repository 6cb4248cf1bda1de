-- ===== src/Lib.antt =====
-- BrandPulse, the Go agents of a brand-monitoring pipeline: a run collects mentions of a brand from
-- several sources under a credit ceiling, enriches, clusters and counts them, raises alerts, drafts
-- replies and writes a brief.
--
-- The parts, and the files that model them:
--   Models        internal/models/models.go and agentio.go: the records that the agents exchange,
--                 their constructors and validations. Labels has the enumerations, which are their
--                 Postgres labels, and Time.
--   Stats         internal/stats: z-scores, means and deviations (Moments), the hour and day buckets
--                 with the calendar (Buckets).
--   Anakin        internal/anakin: the credit ceiling (Budget: NewBudget, Spend, Remaining, load,
--                 readPersisted), the cached fetch (Fetch: fetch, load, recall, remember;
--                 Fetch/Spending: NewHTTPClient), the retries and polls (Http: do, pollJob), and the
--                 costs (Costs: wireCost, scrapeCost, wirePrimaryParam).
--   Orchestrator  agents/bp-orchestrator: the choice of sources (Sources: chooseSources,
--                 degradedReason, splitCredits), what the pipeline asks of others (Env: Store, the
--                 peers, the clock), the steps of a run (Step), the parallel collection (Collect:
--                 collect, sortMentions), steps 5 to 8 (Analysis: enrich, analyse, respond,
--                 writeBrief), and the run itself (Pipeline: Handle, claim, execute).
--   Collector     agents/bp-collector/collector.go: Handle, dedupe, withoutStored.
--   Detector      agents/bp-detector/rules.go: the grouping (Groups), the five rules (Rules), and
--                 Evaluate (Detector).
--   Cluster       internal/cluster: the tokens and stop words (Tokens), the tf-idf weights (Tfidf),
--                 sparse rows and their product (Sparse: sparsify, dot) and the merging by average
--                 linkage (Agglomerative: closestPair, mergeInto, collect).
--   Llm           internal/llm: ChatJSON and its retry (Router), the price table (Prices: priceFor,
--                 mostExpensivePrice, costPaise), and the usage of a call (Usage).
--   Enricher      agents/bp-enricher: one call of the model (Batch: buildPrompt, parseReply), the
--                 memory by brand and content hash (Cache: lookup, store), and the agent (Handle,
--                 classify).
--   Clusterer     agents/bp-clusterer: the naming of a cluster (Label), its topic (Topics:
--                 buildTopic, byEngagement), and the agent (Handle).
--   Responder     agents/bp-responder: the guardrail check on bytes (Guardrails: violationsIn,
--                 strip, removeFold), the prompt (Prompt), and the agent (Handle,
--                 draftWithinGuardrails).
--   Sov           agents/bp-sov/handler.go: attribute, the tallies and their shares.
--   Briefer       agents/bp-briefer: numbers and texts (Format), the two renderings (Render), and the
--                 agent (Handle, cleanActions, buildPromptData).
--   Adapters      internal/anakin/sources: the shared close (Mentions: Filter, Stamp, Finalize),
--                 the Reddit adapter (Reddit: Fetch, timeBucket), the search that news and web share
--                 (Search: Collect, ToDraft), and the scraping of pages (Web: enrich, scrape.Decode).
--   Prelude       what these share: lists, texts, stable sorting, maps, floats.
--   Tests         the properties at concrete inputs.
--
-- How they interact: the orchestrator calls the other agents through `Env`; the collector fetches
-- through an Anakin client, whose budget holds the ceiling that the orchestrator gave it; the
-- detector reads buckets and z-scores from Stats; the clusterer groups by the cluster library; the
-- enricher, the clusterer, the briefer and the responder take ChatJSON as an argument of type
-- `Chat`. State is passed on explicitly: a `Budget`, a `Client` or a `Progress` in, and the next
-- one out. What Postgres, the peers, the live API, the model and the id generator answer is an
-- argument: of a type `W` of worlds nothing is known.
--
-- Numbers: counts are ℕ, and an `int` whose sign the code tests is ℤ; the overflow of `int` is not
-- modelled. A ceiling below 1 is 0, since the code treats them alike. A `float64` is a type `R`
-- with the operations that the code uses (Prelude/Floats); where a property needs an order,
-- `IsOrdered` says what holds away from NaN, and numbers in thousandths meet it. A time is the
-- nanoseconds since Go's zero time, in UTC. Texts are strings, and %q is printed for texts with
-- nothing to escape. sort.Slice is modelled as a stable sort.
--
-- Concurrency: a method that holds its mutex throughout is one step, and a fan-out is the sequence
-- of its locked parts in the order of a `Schedule`, which is a permutation of what is started.
--
-- Loops: retries run on the attempts left, 3, and polls on the polls left, 40, which are the
-- code's own bounds, as are the two attempts of ChatJSON and of classify. The cutting of a phrase
-- has as much fuel as the text has bytes, and one more. The merging of clusters has as much fuel as
-- there are rows, and the walk over two sparse rows as much as they have entries. Every other loop
-- is by recursion on a list.
--
-- Not modelled: SQL, HTTP, JSON, hashing and regular expressions, whose replies are arguments; the
-- set-up of the agents; and the onboarder agent, the adapters of the app stores and of YouTube, the
-- A2A transport and the demo tools. Requests to the enricher that interleave are not modelled, nor
-- are fetches that interleave: a fetch is one step, though the code frees the memory's mutex in the
-- middle of it. A mode is one of three, so NewHTTPClient's error for any other has no counterpart; a
-- request's body is taken as encoded; and the rows of a matrix are taken as equally long, where the
-- code panics on others.
pub mod Prelude
pub mod Models
pub mod Stats
pub mod Anakin
pub mod Orchestrator
pub mod Collector
pub mod Detector
pub mod Cluster
pub mod Adapters
pub mod Llm
pub mod Enricher
pub mod Briefer
pub mod Clusterer
pub mod Responder
pub mod Sov
pub mod Tests
