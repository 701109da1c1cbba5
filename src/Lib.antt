-- ===== src/Lib.antt =====
-- Bill Commons: the parts of the API and of its workers that decide, as functions and theorems.
--
-- The program serves a corpus of legislative bills over HTTP. An ingest worker fills a database and
-- derives the status of each bill from its actions; the API answers queries behind a rate limiter;
-- a dispatcher posts the events of bills to the subscribers of webhooks. The parts meet in the
-- database: the ingest worker writes `bill_events`, and the dispatcher reads them past the cursor
-- `last_seq` of each subscription. The change feed serves the same log to clients, with cursors of its
-- sequence numbers. The worker's scheduler decides which jurisdictions to synchronise and to validate,
-- through jobs of the queue, and a validation decides whether a jurisdiction is GREEN.
--
-- Base: names of the libraries and the helpers that the parts share. Base/Dict is Python's dict in
--   insertion order, Base/Text is text as code points, Base/Lists measures lists by native numbers.
-- RateLimit (apps/api/billcommons_api/rate_limit.py): RateLimit/Counter is _FixedWindowCounter
--   (_sweep, _ensure_capacity_for_new_key, allow, peek) and _BoundedFixedWindowCounter;
--   RateLimit/Routes is _is_heavy_route; RateLimit/Middleware is RateLimitMiddleware.dispatch with
--   _retry_after_and_binding. Time is whole nanoseconds; each call of a counter reads the clock
--   anew. The keys of a request, which client_ip, quota_bucket and subnet_bucket compute, and
--   is_trusted_client are inputs.
-- Webhooks (workers/webhooks/dispatch_webhooks.py): Webhooks/Subscription is the row of a
--   subscription and the failure policy (classify_http_status, backoff_delay, retry_after_delay,
--   _record_failure, _record_skip, _record_success, _apply_backoff, _notify_disabled,
--   _maybe_auto_disable); Webhooks/Drain is _fetch_batch, _advance_last_seq and _drain_one. Times
--   are whole microseconds, the jitter of a delay stands in millionths, and the length of a body is a
--   function of the batch. A drain is a list of rounds, as many as the deadline allows; the halving
--   loop runs on fuel, the length of the batch, which is enough since each step leaves at most half.
--   Webhooks/Rotation is eligible_deliveries with rotation_order; Webhooks/Challenge is
--   _attempt_challenge, where the answer of the endpoint and the two counts of verified subscriptions
--   are inputs and the stamp challenge_attempted_at is left out. The HTTP client, the signature of a
--   request and the thread pool are not modelled.
-- Bill (workers/ingest/billcommons_ingest/status.py and
--   packages/shared/billcommons_shared/enrollment.py): Bill/Vocabulary is the statuses, their
--   ranks and what one action says; Bill/Status is derive_status; Bill/Session is
--   apply_session_outcome and enrolled_outcome_is_uncaptured. Dates are days since date.min. The
--   ranks are doubled, since two of them are halves. The loop of derive_status runs on fuel, the
--   number of entries, since each step drops one. The table of text patterns is a parameter, since
--   its entries are regular expressions; substitution between bills is not modelled.
-- Queue (workers/ingest/billcommons_ingest/queue.py): Queue/Jobs is the table of jobs with
--   enqueue, claim_job, complete_job, fail_job, dead_letter_job and the counts, and Step, any one of
--   these operations. The rows that another transaction holds, which SKIP LOCKED passes over, are a
--   predicate of the claim; a payload has text and number values.
-- Concurrency (apps/api/billcommons_api/concurrency.py): ConcurrencyLimitMiddleware over a list of
--   arrivals and completions in any order.
-- TokenBucket (apps/mcp/billcommons_mcp/rate_limit.py): TokenBucket and RateLimiter. A token is
--   60 * 10^9 parts, so that the refill over whole nanoseconds is exact.
-- Quota: Quota/Plans is packages/shared/billcommons_shared/plans.py and ResolvedKey of
--   apps/api/billcommons_api/api_keys.py; Quota/Anonymous and Quota/Keyed are _anon_tier_check,
--   _anon_tier_peek and _dispatch_keyed of apps/api/billcommons_api/quota.py. _dispatch_keyed is two
--   steps, admit_keyed up to `await call_next` and finish_keyed from it on, each atomic: dispatch_keyed
--   is a call that no other one overlaps, and a Flow has calls that overlap, on one day. The lookup of the
--   key, the burst counter and the reading of the usage are one step. The grace is exact in
--   tenths. The table of usage is a dictionary, and whether the database takes an update is an input.
--   The usage by key and by subnet and the seconds to midnight in the headers are not modelled; a plan
--   is one of the four that have limits.
-- Keys (apps/api/billcommons_api/api_keys.py): Keys/Rows is the table of keys with mint_key,
--   rotate_key, revoke_key and expire_stale_reveal, each on its own readings of the clock; Keys/Cache
--   is the cache of resolve_key with invalidate, where a World has the committed keys, the reads that
--   run and the calls of invalidate that have read the clock and wait for the lock, and an Event is a
--   commit or a part of a read or of an invalidation. Keys/Load is _load_resolved_key, with the
--   subscription that speaks for a customer, and mint_developer_key_if_first_login. The secrets and
--   their hashes are inputs. That no tombstone makes room for another is a
--   hypothesis on the run, since the code forgets the oldest of 50,000.
-- Coverage: Coverage/Documents and Coverage/Row are workers/ingest/billcommons_ingest/coverage.py with
--   license_note_matches_status of fulltext.py beside it; Coverage/Validation is the summary of a
--   validation and apply_validation_result of validation.py; Coverage/Selection is plan_validation
--   and enqueue_validation_jobs of scheduler.py with their SQL. The two thresholds of 80% are exact, in
--   fifths. Times are microseconds since datetime.min. The legs of a check are inputs.
-- Schedule (workers/ingest/billcommons_ingest/scheduler.py): the cadence of the synchronisations,
--   plan_schedule and run_schedule_pass, whose advisory lock is an input.
-- BillNumber (packages/shared/billcommons_shared/normalize.py): normalize_bill_number. Python's limit on
--   the digits of int(s), 4,300 by default, is left out.
-- Cursor (packages/shared/billcommons_shared/cursor.py): encode_cursor and decode_cursor. Base64 and JSON
--   stand behind a record of two functions; what RFC 4648 and JSON say of them is IsCodec.
-- Changes (apps/api/billcommons_api/routers/changes.py): list_changes over the log bill_events, with the
--   check of FastAPI that per_page is at least 1. The ids
--   come as parsed tokens; the labels of bills and the request id are left out. Changes/Polling is a
--   consumer of the feed, who follows next_cursor.
-- Pagination (apps/api/billcommons_api/pagination.py): the page size, the number of pages, the slice that
--   the list endpoints take, and the result window.
-- FullText (workers/ingest/billcommons_ingest/fulltext.py, with cli.py and browser_fetch.py beside it): the
--   note of an outcome as _mark_status writes it, the conditions of enqueue_fulltext_jobs on a document,
--   and the budget of fetches in record_job_failure and _charge_fetch_error. The order in which
--   documents are enqueued is not modelled.
-- Health (workers/ingest/billcommons_ingest/healthcheck.py): check_crawl_health over documents and jobs.
--   Minutes are exact; a reason is the branch of the code that words it.
-- Alerts (workers/alerts/send_alerts.py): drain_webhook_notifications. Which mails succeed, and which
--   subscriptions the dispatcher disables while a mail is sent, are functions of the subscription;
--   supports_created_disabled, which says that migration 0013 is applied, is an input.
--
-- Not modelled: the other routers, SQL and serialization, the web application, the database schema, the
-- downloads and parsers of the ingest worker, and the payment service, which are input and output
-- around the database.
pub mod Base
pub mod Queue
pub mod TokenBucket
pub mod Concurrency
pub mod Quota
pub mod RateLimit
pub mod Bill
pub mod Webhooks
pub mod Coverage
pub mod Schedule
pub mod Keys
pub mod BillNumber
pub mod Cursor
pub mod Changes
pub mod Pagination
pub mod Health
pub mod Alerts
pub mod FullText
