-- ===== src/Lib.antt =====
-- The web application of the repository (apps/web): a marketplace of API tools. Sellers submit a
-- repository, which the API analyses, tests and lists; buyers search the listed tools, try them in
-- a demo and call them. This library models the client-side logic of that application, and the
-- checks of signatures and of URLs in the server of a seller's tool, translated from their sources.
-- Unless it says otherwise, a path below is under apps/web/src.
--
-- The parts, and which file models which:
-- - Common: lists, texts and sorting, shared by all. Json: values that the sources type `unknown`.
-- - Marketplace: types/tool.ts and types/seller.ts, the records of tools and processing jobs.
-- - Search: lib/nlpSearch.ts. Keywords is the keyword table, Tokenize is `tokenize` with its two
--   loops (`scan`, `text_end`) and `merge`, Match is `matchTools` and `generateFit`.
-- - Env: lib/env.ts, the public variables and what follows from them; `isLocalServiceUrl` and
--   `shouldSkipBuildTimeFetch` are asked by the API client before every request.
-- - Api: lib/api.ts. Errors is `parseResponseBody` and `toApiError`, Transport is `fetchWithTimeout`
--   and `requestWithRetry`, Request is `request`, `requestFormData`, the methods of `api` and
--   `buildQuery`. Every page talks to the API through these functions.
-- - ErrorDisplay: lib/error-display.ts, what a visitor sees of an error of the client or of another
--   exception.
-- - Converter: lib/converterTools.ts, tools that the catalogue shows where it falls back on the
--   converter. Converter is `buildInputSchema`, Catalog is `toTool` and the two fetching functions.
-- - Discovery: app/marketplace/MarketplaceClient.tsx. Convert is the page's own `converterToTool`,
--   Matching is `fetchAndMatch`, which ends in Search, Flow is the search from the query to its results
--   and the preview, Browse is `fetchTools`.
-- - Account: lib/auth-sync.ts, which tells the API who is signed in.
-- - SafeUrl: lib/safe-url.ts, the filter in front of every URL that a tool brings with it.
-- - Submission: lib/submissions.ts and lib/submission-adapter.ts, how a tool and its latest
--   processing job are shown to its seller (`toolToSubmissionRecord`), and `sanitizeName`.
-- - Submit: app/submit/page.tsx, the page that analyses a repository, shows the listing for review
--   and submits it. Submit is the state and the checks, Flow the handlers and the two timers,
--   Requests is `submitForReview`. Its last answer goes through Submission.
-- - Demo: components/demo/DemoRunner.tsx, the form with which a tool is tried. Fields is
--   `validateDynamicFields`, Payload is `buildPayload`, Reply is `parseResponse` and
--   `extractErrorMessage`, Session is `runDemo` up to its `await` and behind it, Page the button, the timer of the automatic
--   run and the limit of a session, Defaults is
--   `smartDefault` and the fault that is shown beside the form.
-- - Access: the gate in front of app/approver/ApproverClient.tsx and app/admin/page.tsx. Access is the
--   effect, Verify is `verifyAdmin` and the steps of the page. It asks Account who is signed in.
-- - Approver: app/approver/ApproverClient.tsx behind the gate: the queue, whose entries Submission
--   makes, and its focus; Review is `updateToolReviewStatus` and the panels that call it.
-- - ApiKeys: components/dashboard/ApiKeyManager.tsx and types/api-key.ts. Handlers is its effect and
--   its handlers. The count that it reports goes to Dashboard.
-- - Purchase: components/billing/PurchaseToolButton.tsx, which buys through Api.
-- - Dashboard: app/dashboard/page.tsx, types/dashboard.ts and the rest of types/seller.ts. Load is the
--   loading of the two summaries, Series the charts, Builders the tables and the snapshot of a buyer.
-- - Admin: app/admin/page.tsx behind the gate. Handlers is `load` and the three actions.
-- - Status: app/submit/[id]/status/page.tsx. Load is `loadSubmission` with its polling, Stages the rows
--   of the stages and the next steps.
-- - Gateway: apps/seller-tools/home-accessibility-checker/services/gateway-auth.js (under the root of
--   the repository), how the server of a tool checks the requests that the marketplace has signed.
--   Message is the text that is signed, Verifier is `verifyRequest` with its cache against replays.
-- - RemoteUrl: apps/seller-tools/home-accessibility-checker/services/url-safety.js, which URLs that
--   server fetches. Addresses is `isPublicIpAddress`, Check is `assertPublicHttpsUrl`.
-- A file named Laws, or for what it proves, holds theorems; Tests and Samples hold concrete inputs.
--
-- How the program is represented:
-- - A text is the list of its UTF-16 code units, as the sources index it. `undefined` and `null` are
--   `none` where the source does not tell them apart, and a missing member and `null` of Json where
--   it does. A JavaScript number that may be fractional is the 64 bits of its double.
-- - What the platform provides is a parameter: `toLowerCase`, `JSON.parse` and `JSON.stringify`,
--   `new URL`, `Number` and the comparisons of doubles, `toFixed`, the percent encoding, random
--   request IDs, and the network, a function from the number of the call to its answer. What a
--   theorem relies on of a parameter is among its hypotheses: a percentage is monotone and is 100 of
--   the whole; `Math.max` of two finite scores is an upper bound of them; `new URL` of a parsed URL's text gives that URL again. `toLowerCase` may change the
--   length of a text.
-- - A request is given by its outcome and the list of its effects (calls and pauses, in order). The
--   body of an answer may be read whole, be cut off, or never end, since the timeout bounds the wait
--   for the headers only; a request whose body never ends has the outcome `waiting`. A token that
--   `getToken` refuses is an outcome of that call. A
--   page is a record of its state variables and one function per event. Events may come in any
--   order, those included that the rendered page would not offer; a timer's run is an event, and so
--   is the answer to a call. An effect that runs anew has a number, in place of the flag with which
--   the sources tell its answers from those of an earlier run; an answer comes only to an effect that
--   made a request, which the page's state records. The runs of a demo may overlap: a run begins with
--   one event and is answered by another.
-- - An exception is a value of the result.
-- - Fuel: `scan` and `text_end` get the length of the text, and advance by at least one unit in each
--   round; `requestWithRetry` gets three rounds, one more than the two retries that it allows, and
--   the theorems on it show that the fuel never runs out.
--
-- Not modelled: the rendering of the pages; the formats of prices, numbers and times; the other
-- programs of the repository (apps/api, apps/converter, the rest of apps/seller-tools, packages), which
-- the web application meets as the network only; scripts and deployment files. In a record that is
-- used as a map, only its own members are looked up, and they keep the order in which they were set.
pub mod Common
pub mod Json
pub mod Marketplace
pub mod Search
pub mod Env
pub mod Api
pub mod SafeUrl
pub mod Submission
pub mod Submit
pub mod ErrorDisplay
pub mod Demo
pub mod Account
pub mod Converter
pub mod Access
pub mod Approver
pub mod ApiKeys
pub mod Purchase
pub mod Dashboard
pub mod Discovery
pub mod Admin
pub mod Status
pub mod Gateway
pub mod RemoteUrl
