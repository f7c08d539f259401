-- ===== src/Lib.antt =====
-- The program is a cloud offering for Temporal: a marketing site with accounts (SvelteKit, in
-- marketing-site), two proxies in front of a billing backend, the committed builds of the site, and
-- the pricing and the API keys of the billing service, with its usage collector (Go).
--
-- The parts and their files:
--   * Accounts. The browser asks for an account (signup), opens the link of the mail (verify), and
--     logs in with a password, a magic link or Google. The handlers share nothing but the KV
--     namespace, the `auth` cookie and the links. marketing-site/src/routes/api/auth:
--     signup/+server.ts is Auth/Signup.antt (with the mail in Auth/Mail.antt), verify/+server.ts
--     Auth/Verify.antt, magic-link/+server.ts Auth/MagicLink.antt, set-password/+server.ts
--     Auth/Password.antt, login/+server.ts Auth/Login.antt, google/+server.ts and
--     google/callback/+server.ts Auth/Google.antt. What these files repeat (generateToken,
--     hashPassword, the keys, the links) is in Auth.antt.
--   * Proxies. api-proxy/src/index.ts is Proxy/Worker.antt, marketing-site/functions/api/[[path]].ts
--     is Proxy/Pages.antt; Proxy.antt holds what they share.
--   * Builds. marketing-site/.svelte-kit holds two builds: Builds/Node.antt and Builds/Server.antt
--     have their prerendered pages, routes and handlers. The Node build is older; its login and
--     verify are Auth/Deployed.antt.
--   * The browser. marketing-site/src/lib/stores/auth.ts, the session store, is Session.antt, over a
--     browser that is a parameter (Session/Runtime.antt: `document.cookie`, `localStorage`);
--     Session/Machine.antt has its runs and the account that they stand for, and
--     Session/Rendered.antt the store of the builds, chunks/auth.js. The scripts of the pages
--     auth/verify, signup and login in marketing-site/src/routes are Pages/Verify.antt,
--     Pages/Signup.antt and Pages/Login.antt; each calls its endpoint, whose handler stands for the
--     answer. The pages below dashboard, and the logout of +layout.svelte, are Pages/Console.antt.
--   * Billing. billing-service/pricing.go (Go) is Billing/Pricing.antt, the bill of a month, and
--     Billing/Invoice.antt, its invoice and the monthly run; Billing/Int64.antt is its arithmetic.
--     Of service.go, Billing/Plans.antt has the plans and the estimated cost, Billing/MagicLink.antt
--     the magic links, Billing/Subscription.antt the change of a plan and the events of Stripe, and
--     Billing/Organizations.antt the organizations. auth.go and api_keys.go,
--     the API keys, are Billing/Keys.antt, the middleware, and Billing/Keys/Api.antt, the handlers
--     and their routes in main.go; the tables are state, a request or a goroutine is a step. Whether
--     the middleware is used is ENABLE_AUTH, a field of the host; both ways are modelled.
--   * Metering. usage-collector/main.go (Go) is Collector.antt: it stores the samples of Prometheus
--     and aggregates them by the hour, and the bill adds the aggregates up.
--   * Prelude.antt has the shared names, Text.antt the strings, Json.antt the JavaScript values,
--     Platform.antt the runtime, Tests.antt and its children the test data and the runs.
--
-- How the code is modelled. A handler is a function in the monad `Exec` of Platform/Exec.antt: a
-- state (the KV store, the request's cookies, the cookies set, the requests sent, the number of the
-- next call of the runtime) and an outcome, a value or what was thrown. `catch` keeps the state of
-- the block that threw, as JavaScript does. The KV namespace, the clock, the random bytes, SHA-256
-- and `fetch` are the parameter `Platform`; `KvLaws` states the documented behaviour of one KV
-- namespace, with expiry, and Platform/Memory.antt is an instance. Every call of the runtime takes
-- the next number: the clock, the bytes, the replies and the faults are functions of it, so any
-- sequence of times, replies and failures is covered.
--
-- Choices and bounds. Strings are lists of UTF-16 code units; encodeURIComponent and TextEncoder are
-- written out in Text/Utf8.antt, lone surrogates included. JSON numbers are natural numbers:
-- times and lengths are the only numbers that the code computes with. How a string is read as
-- a number by `<` is a parameter, as is `toISOString`. A property read on an object ignores the
-- names that prototypes have, which the code never reads but for `length`. What is stored in KV or
-- in a cookie is a `Doc`, the print of a value or a string that is no JSON, since the code only
-- prints, parses and tests such strings. The decimal print of a number runs on fuel that is one
-- more than the number, which is at least the number of its digits.
--
-- In the browser, decodeURIComponent is written out in Text/Uri.antt, and `split` in Text/Split.antt
-- on fuel that is the length of the text, which suffices since each cut takes a unit;
-- Session/Memory.antt is an instance of the browser. An `int64` is its 64 bits, with
-- wrap-around, signed comparison and division toward zero; decimal numbers are the parameter
-- `Decimals`, and the calls of Stripe and of the database fail as a function of their number says.
-- A statement of SQL is a function of the rows, with the keys that the tables declare. UUIDs,
-- durations and the samples of Prometheus are parameters, as are the times that a column gives back.
-- So are the files of prerendered pages, the value that net/http writes into a cookie, the query of
-- a URL, and whether Stripe puts the pending items of a customer into a new invoice.
--
-- Not modelled: the markup of the pages, the pages that have only markup, the labels of
-- the site configuration, the copies of SvelteKit and Svelte in the builds, logging, deployment
-- files and tests. Of the billing service: the settings, the commands, and of service.go
-- the handlers that print a row, the checkout, the static list of plans and the namespaces.
pub mod Prelude
pub mod Text
pub mod Json
pub mod Platform
pub mod Auth
pub mod Proxy
pub mod Builds
pub mod Session
pub mod Pages
pub mod Billing
pub mod Collector
mod Tests
