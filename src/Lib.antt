-- ===== src/Lib.antt =====
-- The core of the token gateway: what a call costs, whose quota pays for it, which upstream key
-- serves it, and how a request runs through its candidates.
--
-- The program's parts and the files that model them:
--   Model      the rows of internal/model that the modelled code reads or writes: logs, organisations,
--              users, grants and the prices of a model.
--   Cost       internal/gateway/handler.go: the clamps, mulAdd128, CalcCost, CalcCostCached and, in
--              Cost/Usage, applyUsage. `calc_cost_cached` is CalcCostCached; `none` is the panic of
--              bits.Div64.
--   Quota      internal/service/quota.go: Precheck, Settle, SettleTx, AddOrgQuota, SetOrgQuota,
--              AddUserQuota, SetUserQuotaUnlimited and PointsPerYuan, over a database of four tables
--              (Quota/Store). Quota/Overdraft adds the calls in flight, since the gateway prechecks a
--              call before it is sent and settles it when it has ended.
--   Coord      internal/coord/mem.go: cooldowns, the backoff and the quota marks; Coord/Slots is the
--              gate of each channel.
--   Breaker    internal/gateway/breaker.go: the failures in a row of each channel.
--   Candidate  internal/gateway/selector.go: a channel with a key of its vendor.
--   Selector   internal/gateway/selector.go: SelectCandidates, and the answer of relay in
--              internal/gateway/handler.go to a selection without candidates.
--   Relay      internal/gateway/handler.go: an attempt of relay at a candidate, and in Relay/Loop the
--              loop over the candidates and the answer when none could serve. It charges by Cost, cools
--              by Coord and counts by Breaker.
--   Codes      internal/gateway/codes.go: the tables of status codes of the settings.
--   Request    internal/gateway/handler.go: relay from the arrival of a request to its settlement, with
--              the limiter's answer and the parsed body given: the checks, the prices and grants of
--              Request/Tables, Quota's precheck, the Selector, the loop of Relay, and Quota's Settle.
--   Anthropic  internal/gateway/anthropic.go: anthStreamTranslator and anthropicPipeSSE, which turn the
--              chunks of an OpenAI stream into the events of an Anthropic message.
--   Responses  internal/gateway/responses.go: respStreamTranslator and responsesPipeSSE, which turn the
--              same chunks into the events of a response, and in Responses/Message
--              encodeResponsesResponse. Responses/Client is how a client reads the events.
--   Usages     internal/gateway/responses.go and anthropic.go: the usage in an answer and back.
--   Routes     internal/service/modelroute.go: SyncModelsAndNotify, by which the states of channels
--              and models follow the keys of the vendors.
--   Statement  internal/service/billing.go: the CSV file of a statement, as WriteStatementCSV writes it,
--              of texts in valid UTF-8.
--   Sse        internal/gateway/sse.go: gatedWriter and pipeSSE, which copy a stream to the client and
--              read its usage.
--   Prober     internal/gateway/prober.go: ChannelTestOnce and AutoProbeOnce, and in
--              Prober/Keys ProbeChannel with probeOnce, over the keys of a vendor.
--   Video      internal/gateway/video.go: registering, observing, settling and sweeping of video tasks,
--              which are billed by Cost and settled by Quota.
--   Verification  internal/service/verification.go: SendCode and Verify, over a table with a row for
--              each address.
--   Alerts     internal/service/alerts.go: checkAlert as its two conditional updates, RecomputeAlertLevel
--              and the throttle of the checks with its timer.
--   Base       arithmetic, lists and tests that these share.
--   Examples   runs at concrete inputs.
--
-- Conventions. An int64 of the source is an integer (ℤ of Base/Int, over the native naturals); where
-- the code may leave the range, `wrap64` writes the wrap-around out, and theorems that need it say
-- that an argument is `InRange`. Identifiers, seconds and codes are naturals. The clock, the billing
-- period and random choices are arguments. A cooldown is counted in nanoseconds. Scopes of the
-- coordinator are data (`ck vendor key`, `ch channel`) in place of formatted strings.
--
-- The database. A transaction is a function from a database to a result and the new database, and
-- rolls back on an error. A sum outside bigint fails in PostgreSQL, and is an error here. Other
-- failures of the database (a lost connection, a deadlock) are not modelled, and rows are read and
-- written one transaction after another, as the row locks have it.
--
-- The relay. What the network, the clock and the client do is given for each candidate as a `Turn`, at
-- one instant: an answer with its parsed body, a timeout at the gate, a request that cannot be built or
-- a network error. The database is that of the request's beginning until it is settled, and its
-- queries do not fail. The code tables are predicates, as Codes parses them. Error texts, headers and
-- metrics are left out. Every recursion is structural, so that no fuel is used.
--
-- Not modelled: the other services and handlers (the sums of a statement, the management
-- interface), requests of the Anthropic and Responses protocols, whole answers of the Anthropic one,
-- the query of a video task, mails, the choice of a probe's model and the coordinator over Redis.
mod Base
pub mod Model
pub mod Cost
pub mod Quota
pub mod Coord
pub mod Breaker
pub mod Candidate
pub mod Codes
pub mod Selector
pub mod Routes
pub mod Statement
pub mod Relay
pub mod Request
pub mod Anthropic
pub mod Responses
pub mod Usages
pub mod Video
pub mod Verification
pub mod Alerts
pub mod Sse
pub mod Prober
mod Examples
