-- ===== src/Lib.antt =====
-- RR_Net is a network for internet providers: a backend, a front end (fe/, Next.js) and a gateway to
-- WhatsApp (wa-gateway/, Fastify and Baileys). This library models the gateway and the core of the
-- front end: the API client, the stores of the session, of billing, of the collectors, of the network,
-- of maps, technicians, clients, tenants and the super-admin, roles, the guards of pages and the menu,
-- the clients' form and prices, a wizard and a table, the dashboard's store, the routing of maps and the
-- sanitising and validation of inputs.
--
-- How the parts interact. The backend asks the gateway to connect a tenant and to send messages; the
-- gateway keeps a session per tenant, whose socket reports QR codes and connections. The front end's
-- stores call the API client, which adds headers, refreshes tokens and retries; the auth store owns
-- the tokens, and the collector store works on the invoices of the billing store.
--
-- WaGateway.Text: wa-gateway/src/utils.ts and config.ts (tenantDir is `safe_id` and `tenant_dir`,
--   normalizeMsisdn, toJid, jitter, envInt, loadConfig).
-- WaGateway.Session: wa-gateway/src/sessionManager.ts. Session objects live on a heap since the map,
--   the socket's handler and the timer share them. createSession is `create_session`, scheduleReconnect
--   `schedule_reconnect`, the timer's callback `begin_reconnect` and `reconnect`, resetSession
--   `begin_reset` and `reset_session`, the handler of connection.update `connection_update`; each
--   `await` parts two steps of the relation `Step`.
-- WaGateway.Server: wa-gateway/src/server.ts. `pre_handler` is the hook, `connect`, `get_qr`, `send` and
--   `send_bulk` the handlers; waiting for a QR code and sending are arguments.
-- Errors: fe/src/lib/utils/errors.ts, errorHandler.ts and the error part of fe/src/lib/api/apiClient.ts
--   (getErrorMessage, isRetryableError, ApiError).
-- ApiClient: fe/src/lib/api/apiClient.ts. `on_request` is the request interceptor, with `begin_request` up
--   to its wait, and `on_error` and `on_success` of ApiClient.Response the response interceptor, with
--   `go_on` after what it awaits. ApiClient.Response.Reentry has the requests that the awaited callbacks
--   send themselves (refresh and logout of fe/src/lib/api/authService.ts), `sends` of ApiClient.Retry is
--   the loop of resends, and ApiClient.Csrf overlapping calls of `ensureCSRFToken`.
-- Types: the records of fe/src/lib/api/types.ts that the stores keep.
-- Auth: fe/src/stores/authStore.ts with the variables of the API client and the browser's storage.
-- Roles: fe/src/lib/utils/roleContext.ts and fe/src/lib/hooks/useRole.ts.
-- Access: who may open a page. `has_access` and `role_guard` are RoleGuard, `capability_guard` and
--   `auth_guard` the other guards of fe/src/components/, `stays` the feature gate of
--   fe/src/app/(tenant)/layout.tsx; Access.Sidebar is the menu of fe/src/components/layout/Sidebar.tsx, and
--   Access.Pages has the roles that each page of the menu gives to its guard.
-- Keyed: a list of items with ids and the open item, as the next three stores keep them, with the
--   finite map that it stands for.
-- Maps: fe/src/stores/mapsStore.ts, with sequences of answers in Maps.Events, and in Maps.Refresh the
--   fetches that outages and fe/src/app/(tenant)/maps/page.tsx start.
-- Technician: fe/src/stores/technicianStore.ts.
-- SuperAdmin: fe/src/stores/superAdminStore.ts.
-- Clients: fe/src/stores/clientStore.ts; Clients.Page is what fe/src/app/(tenant)/clients/page.tsx asks of
--   it, Clients.Pagination the buttons of ClientPagination.tsx and Clients.Form `onFormSubmit` of
--   ClientForm.tsx in fe/src/components/clients/, Clients.Service `getClients` of
--   fe/src/lib/api/clientService.ts, and Clients.Pricing `calculateTotal` and the amount to
--   deposit of fe/src/components/collector/DepositModal.tsx.
-- Tenants: fe/src/stores/tenantStore.ts with its entry in the storage.
-- Tempo: fe/src/lib/billingTempoLocal.ts.
-- Dashboard: fe/src/stores/dashboardStore.ts, with the race of a fetch and its timer.
-- Shell: fe/src/stores/notificationStore.ts and globalStore.ts.
-- Widgets: fe/src/components/forms/FormWizard.tsx and fe/src/components/common/DataTable.tsx.
-- Billing: fe/src/stores/billingStore.ts, one function per action; Billing.Matrix is the state of
--   fe/src/components/billing/PaymentsMatrixView.tsx.
-- Collector: fe/src/stores/collectorStore.ts, by Visits, Clients, Assignments and Deposits.
-- Network: fe/src/stores/networkStore.ts. What precedes the answer of the backend and what follows it are
--   two functions, so that actions overlap.
-- Routing: fe/src/lib/maps/osrmRouting.ts, createLimiter (`limit`, `resume`, `finish`), the cache of
--   getOsrmRoute, and in Routing.Response the address of a request and the reading of its response.
-- Navigation: fe/src/lib/navigation/routes.ts, the tree of routes and its filters.
-- Validation: fe/src/lib/security/inputValidation.ts. `sanitize_input` replaces, Validation.Patterns has the
--   regular expressions as functions on code units, and Validation.Input is `validateInput`.
-- Prelude holds shared names and lemmas, Tests runs of the theorems on concrete inputs.
--
-- Conventions. Numbers are natural numbers: money is in rupiah and times are in milliseconds. A text of
-- the gateway that is walked through is a list of UTF-16 code units. An action that waits for the
-- backend takes its answer (`ok` or `threw`); an action of the billing and collector stores is one step,
-- one of the later stores is what precedes the answer and what follows it. Overlapping actions are
-- sequences of events. Amounts of Clients.Pricing are in hundredths of a rupiah. Nothing runs on fuel:
-- what may be repeated, as the sends of a request, is a function of the list of what happens. An
-- interceptor is cut where it awaits a callback, which need not end: what it finds afterwards is an
-- argument (`Waited`).
--
-- Not modelled: the rendering of React components and most pages, the other API services, logging and
-- monitoring, the form schemas and the backend. JSON, dates, random numbers, the key store and the
-- socket are arguments.
pub mod Prelude
pub mod WaGateway
pub mod Errors
pub mod ApiClient
pub mod Types
pub mod Billing
pub mod Collector
pub mod Roles
pub mod Access
pub mod Keyed
pub mod Clients
pub mod Maps
pub mod Widgets
pub mod Tenants
pub mod Tempo
pub mod Dashboard
pub mod Shell
pub mod Technician
pub mod SuperAdmin
pub mod Auth
pub mod Tests
pub mod Routing
pub mod Navigation
pub mod Network
pub mod Validation
