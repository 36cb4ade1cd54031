-- ===== src/Lib.antt =====
-- The control plane of viro-coolify: its data, its in-memory store, identity, billing, releases, the
-- placement of listeners, and the helpers for pages, rate limits and retries. All paths are from the
-- repository's root, below apps/api/internal.
--
-- The services of internal/identity, internal/billing and internal/platform hold no state of their
-- own: they read and write the store, and call a payment provider. So the state of the program is the
-- store's. The placement of listeners keeps its state in the cluster, behind an API of its own.
--
-- - Domain: domain/domain.go. A record for each struct and a data type for each status; a stored text
--   that is none of the constants is the constructor `other`. A time is the number of nanoseconds
--   since Go's zero time, so that IsZero is a test for 0. A float64 is its 64 bits and is only passed
--   on.
-- - Store: store/memory.go and the pages of store/store.go. State has the struct's maps, each an
--   association list whose order stands for the order of one run over the map; Users, Tenants,
--   Workloads, Releases, Tokens, AppConfig, Audit, Catalog and Billing have a function for an operation, under
--   its name. The mutex has no counterpart: an operation holds it from its first line to its
--   last. Session is how a service reaches the store: a computation on a world that has the store,
--   what the provider accepted, and a list that says for each call in turn whether it fails, as the
--   calls of the Postgres store and of a provider may.
-- - Billing: Invoice (billing/invoice.go, the charge of a period, and billing/invoices.go, its rows),
--   Account (the current invoice, the spend cap and the gate EnsureActive), Dunning
--   (billing/invoices.go), Webhook (billing/webhook.go), Report (ReportUsage and ReportAllUsage of
--   billing/invoice.go), History (the invoices of past periods, the summary and subscribing), Plans
--   (billing/catalog.go), Pricing and Metering (billing/pricing.go: the price list, and the ticks of the
--   meter with their watermark). Go's AddDate(0, -1, 0) is the parameter `month_before`, the clock's
--   reading the parameter `now`, the arithmetic on float64 the record `Floats`. The children prove what
--   each part does; where a theorem says what a part makes of its input, it says so in terms of its own
--   and not by the code's helpers (Webhook.Followed, History.Chain).
-- - Auth: auth/jwt.go. The JWT library is the record `Jwt`.
-- - Identity: identity/service.go. Access authorizes, Members keeps the members of an org, Sessions
--   signs in, refreshes and signs out, Password resets, Organizations signs up and creates orgs,
--   Projects and Invitations do what they say. Env has the settings and what the service takes from
--   libraries; a call's new ids and its reading of the clock are a record `Fresh`. Mail, and the
--   certificate that the cluster is asked for, leave the store alone and are left out.
-- - Kube: kube/gateway_shard.go and, of kube/kube.go, EnsureGatewayListener. Shards has the pool of
--   gateways and Placement the calls; the API server and the retry of client-go are the record `Api`,
--   `domainSlug` comes with the texts.
-- - Platform: platform/releases.go (Releases), where the hash of a workload, SHA-256, comes with the
--   snapshot, and platform/appconfig.go (AppConfig), the environment and the custom domains of an app
--   up to the write of a row; the cipher, DNS and the pattern of hostnames are the record `Lib`.
-- - Httpx: httpx/ratelimit.go and httpx/pagination.go. strconv.Atoi is the parameter `atoi`.
-- - Retry: retryx/retryx.go. The function that is retried, the context, the timer and the random
--   numbers are parameters.
-- - Base: lists, tables, sorting, errors, and 64-bit arithmetic. An int and an int64 wrap around; the
--   theorems name the sums that have to fit.
-- - Tests: one concrete input for each theorem.
--
-- Every loop is a recursion on a list or on the number of rounds left, so nothing runs on fuel but the
-- client of Httpx.Pagination.Walk, which needs one page more than the list has rows. The 8 attempts of
-- EnsureGatewayListener are the code's own bound.
--
-- Not modelled: the Postgres store (SQL behind the same interface), the rest of the Kubernetes backend,
-- builds, secrets, mail and the HTTP handlers, which are calls of other systems; the command line, the
-- web console and the charts; and, of the parts above, the removal of listeners, the
-- life of apps, services and databases, and the seeding of the store.
mod Base
pub mod Domain
pub mod Store
pub mod Billing
pub mod Httpx
pub mod Retry
pub mod Platform
pub mod Auth
pub mod Identity
pub mod Kube
mod Tests
