-- ===== src/Lib.antt =====
-- The core of Plasma AI Usage Monitor (a KDE Plasma applet that watches the usage, cost and quotas
-- of AI services), modelled from the C++ plugin under plugin/.
--
-- The program's parts and how they interact. Providers (plugin/providerbackend.cpp and its
-- subclasses) ask a service for usage and keep the state of the connection, the errors and the
-- costs. Subscription tools (plugin/subscriptiontoolbackend.cpp and its subclasses) count the use
-- of a tool over its periods and synchronise its quota windows. The scheduler
-- (plugin/refreshschedulermodel.cpp) says when a provider is asked again and holds external
-- refreshes back while the network is down. Budgets are kept for periods, which the resolver
-- (plugin/billingcycleresolver.cpp) finds, and the pacing query (plugin/budgetpacingquery.cpp)
-- says how a budget stands in its period; the quota query (plugin/quotarunwayquery.cpp) says how
-- long a quota lasts. Requests to AWS are signed (plugin/awssigv4signer.cpp). The cost engine
-- (plugin/costengine.cpp) estimates the cost of a request from a price of the catalog. The
-- forecasts (plugin/forecastcontract.cpp) are what the queries on the stored history answer; the
-- guardrail model (plugin/guardrailmodel.cpp) runs those queries on worker threads and shows their
-- answers.
--
-- Prelude holds the shared names. Prelude/Int are signed integers; Prelude/Qt is what the code
-- calls of Qt: an instant is a number of milliseconds or invalid, a QVariantMap an association
-- list, and the reading of values, the text functions and doubles are the record Qt, with the
-- documented laws as IsQt; Prelude/Plain is a reading of it for the tests. Prelude/Doubles are the
-- operations on doubles of the queries, with the laws they rely on as IsDoubles.
--
-- Forecast models plugin/forecastcontract.cpp: Contract is Result::isValid, Wire toVariantMap and
-- fromVariantMap, Transitions transitionFor, Identity stableId.
--
-- Scheduler models plugin/refreshschedulermodel.cpp: its members are the record Scheduler, each
-- slot and timer handler a function; Intervals is about the pure functions of the intervals,
-- Recovery about whole histories of events.
--
-- Guardrail models plugin/guardrailmodel.cpp: the members are the record Model; start, finish,
-- cancel and the others are functions that return the new state and the signals; Steps is the
-- relation of the histories, in which workers finish in any order. The shared atomic flag of a
-- worker is a field that cancel sets on all workers. RunwayQuery::execute, QCryptographicHash and
-- the comparison of maps are the record Host.
--
-- Provider models plugin/providerbackend.cpp: Refresh is requestRefresh, cancelRefresh,
-- beginRefresh, setApiKey and the freshness; Errors the reading of failed replies; Retry
-- retryRequest with its timer and its reply handler; Budget the alerts of checkBudgetLimits with
-- the calls that set the budgets, the currencies and the costs or check them, an estimate
-- included, over the machine's doubles as a parameter, and its Alerts is about histories of these
-- calls; Metrics the list of metrics, with a record for the map of each; Gate is about whole
-- histories. A provider's own refreshImpl is an argument.
--
-- Subscription models plugin/subscriptiontoolbackend.cpp: the counts, the periods and the
-- warnings; Sync is the synchronisation with its generations and its back-off, Windows the quota
-- windows that a synchronisation brings; Periods, Backoff, Evidence and Merging are about them.
-- The calendar of QDate is the record Calendar, of which the development needs that a day of the
-- next month comes later.
--
-- BillingCycle models plugin/billingcycleresolver.cpp: resolve and previous, with QDate and
-- QTimeZone as the record Calendar; Total has the laws that Qt documents of them; Containing is
-- about every calendar.
--
-- CostEngine models plugin/costengine.cpp. Values are the input and the result of an estimate,
-- Decimal the numbers at a scale of a power of ten and their reading, printing and division,
-- Pricing the checks of a price, Tokens the steps that choose its rates, Charges the rows of the
-- counts, the batch discount and the fees, Estimate the function estimate itself. Steps, Missing
-- and Results are about its branches, Accepted about what a complete estimate has passed, Formula
-- is a formula for the cost apart from the code, Amounts, Refines and Totals are about the sum,
-- the discount and the rounding against it, Allowance about free amounts; Decimal has modules
-- about reading, printing, bounds and rounding. The conversions of QString and the calls on
-- doubles are the record Platform.
--
-- CurrencyMinorUnits models plugin/currencyminorunits.cpp.
--
-- BudgetPacing models plugin/budgetpacingquery.cpp: its own functions are the helpers and the
-- loops of the query, Evaluate has evaluate with the amounts of a result; Latest is about the
-- observations that count, Days about the baseline, Amounts about the numbers of a result, Valid
-- and Available about the contract of forecasts. QHash gives its entries in no stated order; here
-- it is a list in the order of the first arrivals.
--
-- QuotaRunway models plugin/quotarunwayquery.cpp: its own functions are the helpers, Evaluate has
-- evaluate; Evidence is about the samples of an answer, Prediction about its state and prediction.
-- std::sort leaves open the order of samples of one instant, which keep theirs here.
--
-- AwsSigV4 models plugin/awssigv4signer.cpp: a QByteArray is a list of bytes, and the digests and
-- text conversions of Qt are the record Platform. Spaces is about the loop of toLowerTrimmed,
-- Order about the order of the headers. std::sort leaves open the order of headers of one name,
-- which keep theirs here.
--
-- Bounds and fuel. Two loops run on fuel: the one of wideToString (push_digits in
-- CostEngine/Decimal), whose fuel is the number itself, which a division by ten lowers, and the
-- one of toLowerTrimmed (squeeze in AwsSigV4), whose fuel is the length of the text, which every
-- round shortens; every other definition is structural. The 128-bit integers of the cost engine
-- are unbounded. The generations and counters of the source are ints; they are numbers here, since
-- 2^31 requests are out of reach. The cast of seconds to int in retryRequest wraps as the source's
-- does. The int products of the scheduler wrap at 32 bits and the qint64 sum of the pacing query
-- at 64, where the language leaves an overflow undefined. The difference of the limit and that sum
-- is exact; it can leave 64 bits only where the sum is negative. The shift and the product of a
-- retry's delay are exact.
--
-- Not modelled: network, database and file access, the QML interface, the token counters, rate-
-- limit headers and the pricing of an estimate in ProviderBackend, the rows that
-- SubscriptionToolBackend composes from the plan catalog, and the classes of plugin/ that are not
-- named above.
pub mod Prelude
pub mod Forecast
pub mod Scheduler
pub mod Guardrail
pub mod Provider
pub mod Subscription
pub mod BillingCycle
pub mod CostEngine
pub mod CurrencyMinorUnits
pub mod BudgetPacing
pub mod QuotaRunway
pub mod AwsSigV4
