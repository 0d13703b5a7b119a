-- ===== src/Lib.antt =====
-- Senecial manages contracts: it stores their files, extracts fields and clauses from them in
-- background jobs that users review, shows where a contract stands, and answers questions about
-- contracts by language models behind limits and breakers. This library models the parts of the program
-- that decide: pure policies, the in-process state of the resilience layer, and the tables of jobs, mails,
-- members and invitations.
--
-- Base holds what all parts share: tests on numbers and texts, lists, the maps of JavaScript as
-- association lists (Base.Maps), tables of the database (Base.Tables), integers (Base.Int), decimal texts
-- (Base.Decimal), and white space and regular expressions on UTF-16 units (Base.White, Base.Regex).
--
-- Resilience is what stands between the program and a provider of a language model.
--   CircuitBreaker: src/server/services/ai/circuit-breaker/in-memory-circuit-breaker.ts. before_call,
--     on_success, on_failure and get_state are the methods; gate and fail are their bodies on one entry.
--   ConcurrencyLimiter: src/server/services/ai/concurrency/in-memory-concurrency-limiter.ts.
--   RateLimiter: src/server/services/rate-limit/in-memory-rate-limiter.ts; consume is a sweep followed
--     by decide_bucket.
--   Budget: src/server/services/ai/budget. Counter is the interface of the counters and its laws,
--     InMemory the counter that meets them, Keys and Reserve are reserve-ai-budget.ts over any counter.
--   ProviderError, RetryPolicy: src/domain/ai/provider-error.ts and retry-policy.ts.
--   Execute: src/server/services/ai/providers/execute-with-resilience.ts over any breaker.
--   Fallback: src/server/services/ai/providers/fallback-llm-provider.ts.
-- Contracts is what the program shows of a contract.
--   Status: src/domain/contracts/get-computed-contract-status.ts; Timeline and Buckets relate it to
--     instants and to src/domain/analytics/date-buckets.ts.
--   Notifications: src/domain/notifications/build-contract-notifications.ts.
--   Processing: src/domain/contracts/processing-state.ts.
-- Clauses.Diff is src/domain/clauses/clause-diff.ts: lcs_table is the table of diffLines, walk its loops.
-- Clauses.Hierarchy is src/domain/clauses/hierarchy-validation.ts: walk is the loop up the parents.
-- Clauses.Patterns is src/domain/clauses/clause-number-patterns.ts, with its regular expressions in
--   Clauses.Expressions, and Clauses.Segmenter the class of
--   src/server/services/clauses/deterministic-korean-clause-segmenter.ts: scan_line is a round of its loop,
--   with the variables in a record. Clauses.Worker is
--   src/features/clauses/server/process-clause-segmentation-job.ts over the tables of Clauses.JobTable; its
--   tests of the segmenter's answer are Clauses.Checks, and the rows it stores Clauses.StoredRows.
-- Extraction is the jobs that extract a contract's data.
--   Policies: src/domain/extraction. Repository: src/server/repositories/extraction-job-repository.ts.
--   Process: src/features/extraction/server/process-extraction-job.ts; Requests: create-extraction-job.ts,
--     recover-stale-extraction-jobs.ts and apply-approved-suggestions.ts beside it.
--   Apply is the values that the latter merges into a contract, with updateContractSchema a parameter.
--   Runs puts the operations together, each write of a worker, of a request and of a recovery as a step
--   of its own; the other modules hold what is proved of them.
-- Members is src/features/members/server/change-member-role.ts and remove-member.ts with their repository.
-- Mail is the deliveries of mails.
--   Policies: src/domain/email. Repository: src/server/repositories/mail-delivery-repository.ts.
--   Process: process-next-mail-delivery.ts and recover-stale-mail-deliveries.ts of
--   src/features/mail/server, and send-tracked-mail.ts of src/server/services/email. Runs puts them
--   together: a claim, its settlement and each write of a recovery are steps of their own, at any time.
-- Invitations is what invites a person to an organization.
--   Repository: src/server/repositories/invitation-repository.ts and src/domain/invitations.
--   Requests: create-invitation.ts, resend-invitation.ts and revoke-invitation.ts of
--   src/features/members/server; Acceptance: src/features/invitations/server. A request reads one state of
--   the database, `seen`, and its transaction runs in another, `db`, so that other requests come between.
-- Answers is what an answer rests on: ContextTokenBudget is src/domain/ai/context-token-budget.ts, for any
--   tokenizer and any prompt, and Grounding is src/domain/ai/citation-required.ts.
--
-- State is passed on: an operation takes the map, the table or the database and returns the next one.
-- Each reading of the clock is an argument, in milliseconds since the epoch; a difference of two
-- instants is compared by moving one side, so that it is right also where the clock goes backwards. A
-- random number is an argument too. Numbers are natural where the source's are not negative, and
-- integers of Base.Int where they can be. What JavaScript throws is `none` or a constructor.
--
-- Loops are structural, but for three that take fuel. The attempts of Execute take as many rounds as
-- there are attempts, one more than the retries: the last attempt is never retried. The digits of a
-- number n take n + 1 rounds, and a number has no more digits than that. The walk up the parents of a
-- clause takes two rounds more than there are nodes: it passes different nodes that have a parent, then
-- one that has none or was passed, and one round sees the end.
--
-- Parameters stand for what the program calls: the provider's answers, the storage, the extractors, the
-- date format of the runtime. A transaction, and a write outside of one, runs by itself, so that
-- interleavings are sequences of steps; two transactions that overlap are not modelled. What a request or a
-- worker has read before its write is an argument of the step. The engine that matches regular
-- expressions is that of Base.Regex.
--
-- Not modelled: the Redis variants, whose scripts run in the server; the creation and the recovery of the
-- jobs that segment documents, the recovery of mails with tokens, the pipeline of questions and answers,
-- retrieval, caches, retention and batches, which are pure or stateful code like the above; and rendering,
-- routes, schemas, logging, storage drivers and scripts, which only call other code.
pub mod Base
pub mod Resilience
pub mod Contracts
pub mod Clauses
pub mod Extraction
pub mod Answers
pub mod Mail
pub mod Invitations
pub mod Members
