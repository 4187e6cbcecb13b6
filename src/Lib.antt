-- ===== src/Lib.antt =====
-- voxeltoad: the TypeScript front ends of the gateway.
--
-- The program has two front ends. The control panel (web/, Next.js) is a set of pages whose forms
-- call server actions; an action reads its form, checks it, calls the admin API over the client of
-- sdk/typescript with the token of the session cookie, and answers the form with a FormResult. The
-- desktop app (desktop-ui/) shows recorded requests and edits the configuration of the local
-- gateway; its trace view compares a request with an earlier one of the same conversation.
--
-- The files:
--   Common          helpers on lists, texts, Booleans and integers
--   Js              what the code uses of JavaScript: numbers (Js/Number), JSON values (Js/Json),
--                   exceptions (Js/Exception), member access (Js/Access), decimal texts
--                   (Js/Decimal), and what is left to the platform (Js/Runtime): Number of a text,
--                   products of doubles, JSON.parse and JSON.stringify
--   Money           web/src/lib/money.ts: microToDisplay and displayToMicro
--   Pagination      web/src/components/ui/pagination.tsx: buildPageWindow, the number of pages and
--                   the targets of the buttons
--   Trace           desktop-ui/src/components/trace: messagesOf, commonPrefixLength, analyze and
--                   extractTools (trace-categories.tsx), pickBaseline (trace-baseline.ts); blocksOf
--                   and flattenContent in Trace/Blocks; parseOutput and reassembleSSE in
--                   Trace/Output
--   JsonTree        desktop-ui/src/lib/json-tree.ts
--   Desktop/Client  desktop-ui/src/lib/api.ts: getJSON, sendJSON and a function for each endpoint
--   Desktop/Viewer  desktop-ui/src/pages/TraceViewer.tsx: the state of the trace viewer and its
--                   effects; it calls pickBaseline of Trace
--   Desktop/Saving  what the forms of the desktop pages share
--   Desktop/Providers, Desktop/Models, Desktop/Routes
--                   the forms of desktop-ui/src/pages/Providers.tsx, Models.tsx and Routes.tsx, which
--                   call the client; the prices of a model go through Money
--   Desktop/Logs    desktop-ui/src/pages/RequestLogs.tsx: the filters, the page and the requests
--   Desktop/Sessions
--                   desktop-ui/src/pages/Sessions.tsx: the same, with the favorites and the deletion;
--                   the endpoints of the client that it calls are two parameters, one for the list
--                   and one for the writes
--   Web/I18n        web/src/lib/i18n-errors.ts
--   Web/Session     web/src/lib/session.ts and web/src/lib/permissions.ts
--   Web/Action      an action as a function of the state: the session, the requests sent so far and
--                   the paths revalidated so far; what it did before it threw stays done
--   Web/Client      web/src/lib/admin.ts, the session handle, and sdk/typescript/src/admin.ts
--   Web/Errors      web/src/lib/errors.ts
--   Web/Form        form fields, and the steps that the server actions share
--   Web/Actions     web/src/app/[locale]/(dashboard)/*/actions.ts, one file for each
--   Web/Login       web/src/app/[locale]/login/actions.ts
--   Web/Writes      the actions of one admin call as one family, and what holds of all of them
-- A function keeps its name in snake case (createTenant is create_tenant). Children of a component
-- hold its theorems, and its Tests module the runs at concrete inputs.
--
-- Numbers are exact: a JavaScript number is a dyadic fraction, an infinity or NaN, and what needs
-- the rounding of doubles (Number of a text, products) belongs to the Runtime, with the one law that
-- a text of digits up to 2^53 - 1 is read exactly. Amounts of microToDisplay are integers,
-- and the model is that of the code for safe ones only; the toolbar is modelled for page sizes other
-- than zero. No function runs on fuel: all loops are structural.
--
-- The environment is a Site: two variables of the process, and the answer of the admin API to each
-- request, which may depend on all requests before it and may be an exception. The cookie, the cache
-- of pages and the router are the fields of the state, and redirect throws. The translations of
-- next-intl are a parameter, and the locale prefix of a redirect is left out.
--
-- The trace viewer is a step function on events: a new list of rows, a click, an answer to one of the
-- requests under way. The requests of all runs of its effect stay in the state, the cancelled ones
-- included, and their answers come in any order. The callbacks that an answer completes run in the
-- step of that answer, and the effect of a selection in the step of the click, as no other event comes
-- between them in the browser. What the API answers is a parameter.
--
-- The desktop client works on the list of the calls made so far. fetch, encodeURIComponent and the
-- exception of JSON.parse belong to a Browser, whose gateway may answer by all the calls before; the
-- path of a call is the text before the platform resolves it as a URL.
-- The quotient of doubles, the text of a double and Math.round are parameters of the model form.
--
-- Not modelled: markup and event wiring of the pages, the desktop pages besides the trace viewer,
-- the request logs, the sessions and the three forms, the labels and durations of the desktop app,
-- web/src/components/trace, which is an earlier copy of the trace analysis, and the gateway itself,
-- which is written in Go.
pub mod Common
pub mod Js
pub mod Money
pub mod Pagination
pub mod Trace
pub mod JsonTree
pub mod Desktop
pub mod Web
