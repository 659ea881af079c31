-- ===== src/Lib.antt =====
-- A verification library for cronwatch, the daemon that runs cron jobs, watches their results and
-- alerts on failures.
--
-- The program. A job (cronwatch/config.py) has a name, a command and a schedule. The scheduler
-- decides at each tick which jobs are due, runs them (cronwatch/executor.py) and passes failures to
-- an alerter. Around the executor stand wrappers that may refuse a run or repeat it: quotas,
-- concurrency limits, pauses, retries; beside it the circuit breaker, the cooldowns, the execution
-- windows and the lock file of a job. Around the alerter stand a rate limiter and an escalation of
-- levels, and the notifier decides which results are worth an alert. The queue orders runs by time,
-- and the dependency graph orders jobs. All of these keep their state by the name of a job.
--
-- The parts, each in a file with its definitions and a folder of the same name with its proofs and
-- its tests; a definition has the name of the method that it models.
-- Breaker: cronwatch/circuit_breaker.py.
-- RateLimit: cronwatch/ratelimit.py and cronwatch/rate_limited_alerter.py. Quota:
-- cronwatch/job_quota.py and cronwatch/quota_executor.py. Both stand on Sliding, the time stamps of
-- a sliding window.
-- Retry: cronwatch/job_retry.py and cronwatch/retrying_executor.py, with the runner as a parameter.
-- Queue: cronwatch/job_queue.py, over a record of operations and laws of heapq, `Heapq`, which
-- Queue/Sorted.antt fills with lists in order.
-- Cooldown: cronwatch/job_cooldown.py. Window: cronwatch/job_window.py.
-- Lock: cronwatch/job_lock.py, as calls without interruption (Lock/Exclusion.antt) and as the
-- single calls of the file system that processes interleave (Lock/Race.antt).
-- Concurrency: cronwatch/job_concurrency.py and cronwatch/concurrent_executor.py.
-- Graph: cronwatch/job_dependencies.py.
-- Notifier: cronwatch/notifier.py.
-- Escalation: cronwatch/job_escalation.py and cronwatch/escalating_alerter.py.
-- Pause: cronwatch/job_pause.py and cronwatch/pause_executor.py.
-- Suppression: cronwatch/job_suppression.py. Mute: cronwatch/job_mute.py. Status:
-- cronwatch/job_status.py.
-- Scheduler: cronwatch/scheduler.py. Executor: cronwatch/executor.py. Config: cronwatch/config.py,
-- the records and the loading of a file.
-- History: cronwatch/history.py and cronwatch/job_archiver.py. Metrics: cronwatch/metrics.py. Cost:
-- cronwatch/job_cost.py. Trace: cronwatch/job_tracing.py and cronwatch/tracing_executor.py.
-- Groups: cronwatch/job_grouping.py, cronwatch/group_reporter.py and
-- cronwatch/group_alert_policy.py. Selection: cronwatch/job_tags.py, cronwatch/job_filter.py,
-- cronwatch/job_selector.py and cronwatch/job_labels.py.
-- Routing: cronwatch/job_routing.py and cronwatch/routing_alerter.py. Backoff:
-- cronwatch/job_backoff.py. Throttle: cronwatch/throttle.py, over the powers of Backoff.
-- Environment: cronwatch/job_env.py. Secrets: cronwatch/job_secrets.py and
-- cronwatch/job_secret_injector.py. Conditions: cronwatch/job_conditions.py and
-- cronwatch/conditional_executor.py.
-- Checksum: cronwatch/job_checksum.py and cronwatch/checksum_watcher.py. Deadline:
-- cronwatch/job_deadline.py and cronwatch/deadline_alerter.py. Heartbeat: cronwatch/job_heartbeat.py
-- and cronwatch/heartbeat_monitor.py. Changelog: cronwatch/job_changelog.py.
-- Hooks: cronwatch/job_hooks.py. Limits: cronwatch/job_ratelimit_policy.py and the policy of
-- cronwatch/job_timeout.py.
-- Audit: cronwatch/audit.py and cronwatch/audit_middleware.py. Runner: cronwatch/job_runner.py and
-- cronwatch/timed_executor.py, over Lock, Limits and Audit. Dispatcher: cronwatch/job_dispatcher.py,
-- over Queue. Pipeline: cronwatch/run_pipeline.py, over a record of the calls that it makes,
-- `Collaborators`; Pipeline/Composed.antt puts the runner of Runner into it. Watchdog:
-- cronwatch/watchdog.py.
-- Sla: cronwatch/job_sla.py and cronwatch/sla_alerter.py. Retention: cronwatch/retention.py, over a
-- record of what it takes of a store, `EntryStore`. Profiling: cronwatch/job_profiling.py and
-- cronwatch/profiling_reporter.py. Skips: cronwatch/condition_reporter.py. Snapshot:
-- cronwatch/job_snapshot.py and cronwatch/snapshot_reporter.py.
-- Ownership: cronwatch/job_ownership.py and cronwatch/ownership_reporter.py. Metadata:
-- cronwatch/job_metadata.py, cronwatch/metadata_reporter.py and cronwatch/job_annotations.py.
-- Prelude, Dict and Result are shared: native numbers and Boolean tests, Python's dict with its
-- laws, and the exceptions of the modelled methods.
--
-- How state and operations correspond. An object is a record of its fields, a method a function
-- from the object to the object after the call, with the result beside it. An object that a dict
-- hands out and that is changed in place is written back under its key. Exceptions are values of
-- Result. What a wrapped executor returns is an argument, used only where the code makes the call;
-- a wrapped alerter is the list of what it was sent. Each reading of a clock is an argument, and a
-- method that reads the clock more than once takes more than one. Times count microseconds, or one
-- unit that the file names, so that sums and comparisons are exact, where the code has floats and
-- datetimes; numbers that the code tests for their sign and the durations of Metrics are integers, others are not
-- negative. Rates,
-- thresholds and multipliers are fractions of whole numbers, which are compared by their products.
-- An attribute that the code looks up with `getattr` and that a job need not have is an argument, and
-- so is the exception that an alerter may raise. A file is the table or the list of what its lines
-- hold, and a directory the dict of its files.
-- Histories are lists of calls, and a theorem on a component runs such a list from a new object.
--
-- Loops are recursion on the list that they go through. Two run on fuel. `drain_due` of the queue
-- takes one round more than the queue is long: each round but the last pops an item. `visit` of the
-- graph is as deep as the stack is long, and takes one more than the names that the graph holds: the
-- stack never holds a name twice.
--
-- What is not modelled. Threads, signals, processes, mail, HTTP and the layout of files are I/O;
-- where a component rests on them, what it uses of them is a parameter: the effect of os.kill in
-- Lock, subprocess.run in Executor, Conditions and Hooks, croniter in Scheduler, the decorated name of an
-- alert in Escalation, the YAML package in Config, hashlib in Checksum, fnmatch and sorted in
-- Selection, datetime.fromisoformat in History, the match of a regular expression in Deadline. A
-- semaphore is its value, a wait that would not end has no result, and calls of one guard do not
-- overlap. Where a part calls methods of
-- another that this other does not have, the methods are parameters, or their look-up raises, as the
-- file says. The texts of messages and log lines are left out, and with them the digest and the
-- reports that are such texts (cronwatch/digest.py, cronwatch/reporter.py, cronwatch/cost_reporter.py,
-- cronwatch/changelog_reporter.py), the mail of cronwatch/alerting.py and the HTTP end points
-- (cronwatch/healthcheck.py, cronwatch/metrics_endpoint.py). So are the truncation of output
-- (cronwatch/job_output.py), which rests on a decoder, the order by priority
-- (cronwatch/job_priority.py) and the wiring of the components in the entry point
-- (cronwatch/__main__.py).
pub mod Prelude
pub mod Dict
pub mod Breaker
pub mod Result
pub mod Config
pub mod Executor
pub mod Sliding
pub mod RateLimit
pub mod Quota
pub mod Retry
pub mod Queue
pub mod Cooldown
pub mod Window
pub mod Lock
pub mod Concurrency
pub mod Graph
pub mod Notifier
pub mod Escalation
pub mod Pause
pub mod Scheduler
pub mod Status
pub mod Suppression
pub mod Environment
pub mod Secrets
pub mod Conditions
pub mod Trace
pub mod History
pub mod Groups
pub mod Selection
pub mod Routing
pub mod Metrics
pub mod Checksum
pub mod Backoff
pub mod Throttle
pub mod Mute
pub mod Cost
pub mod Deadline
pub mod Heartbeat
pub mod Changelog
pub mod Hooks
pub mod Limits
pub mod Audit
pub mod Runner
pub mod Dispatcher
pub mod Pipeline
pub mod Sla
pub mod Watchdog
pub mod Retention
pub mod Profiling
pub mod Skips
pub mod Snapshot
pub mod Ownership
pub mod Metadata
