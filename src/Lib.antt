-- ===== src/Lib.antt =====
-- A verification library of the task-management service, an HTTP API in Go over MySQL and Redis:
-- users form teams, teams own tasks, tasks have comments and an audit history.
--
-- A request passes the rate limiter and the authentication (internal/server/http/middleware) and
-- the router (internal/server/http/server.go) to a handler (internal/server/http/handler), which
-- reads its ids and its body and calls a method of a service (internal/service), which checks the
-- caller's role by the pure rules of rbac.go, runs statements of the repositories
-- (internal/repository), the ones that belong together in one transaction (pkg/database/tx.go), and
-- asks the page cache to forget the team's pages.
--
-- - Base: shared names, Boolean tests on numbers, case splits.
-- - Domain: internal/domain. Errors (errors.go: codes, wrapping, errors.Is), Team (team.go and
--   user.go), Task (task.go and nullable.go), Listing (the page query of task.go, and cursor.go);
--   Text and Time are what the services use of Go's packages strings and time; Results relates a
--   result to a condition on its value.
-- - Database: Tables are the tables of migrations/*.up.sql as lists of rows; Tx is statements and
--   `WithinTx` of pkg/database/tx.go; Runs is a program logic for them under any outages, and Quiet
--   one for a server that answers.
-- - Repository: User, Team, Task and Comment are internal/repository/user.go, team.go and task.go,
--   one function for each method, the SQL as a function on rows. Their Rules say what a statement
--   that goes through does. Task/Listing is List and Count of task.go: the WHERE clause as a test
--   of a row, the ORDER BY as an order of two rows, LIMIT and OFFSET as take and drop; Task/Search
--   is what LIKE matches. Team/Stats is the report of GetStats in team.go, each expression of its
--   SQL a function on rows.
-- - Cache: Redis is what is relied on of a Redis server, as operations with laws; Token is
--   internal/cache/token.go over it; Token/Calls is the calls of several clients, one after another
--   with time between them, Token/Lasting and Token/Once what holds of them. Pages is what is relied
--   on of Redis for the page cache, and Task is internal/cache/task.go over it; in Task/Interleave
--   several readers and writers send their commands in any order, the two of Get one by one. (A Get
--   that is between the two while the team is invalidated may serve an older page.)
-- - Service: Rbac is rbac.go, Team is team.go and memberRole of service.go, Task is task.go and
--   visibleTask of service.go, where Task/Update is applyUpdate field by field and Task/Listing is
--   ListTasks and normalizePage, with a client that reads page after page in Task/Paging. Requests
--   is the calls that the router makes of the two services. Team/Spec and Task/Spec say, apart from
--   the code, which changes an actor is entitled to; Refines proves each method against them;
--   Invariant follows what holds of the tables through every sequence of requests. Account is the
--   state that auth.go and user.go work on, with pkg/auth as an interface; Auth is auth.go and User
--   is user.go.
-- - Http: internal/server/http. Response is handler/response.go, Handler/Team and Handler/Task are
--   handler/team.go and handler/task.go, each handler by its chain of early returns (Handler/Flow);
--   Handler/Session is handler/auth.go with the refresh cookie, and Handler/User handler/user.go;
--   Handler/Calls is the routes of teams and tasks. Middleware/Auth and Middleware/RateLimiter are
--   the files of these names; Protected puts the authentication before the handlers, as server.go
--   does.
-- - Config: what internal/config/config.go checks of a configuration; Config/Env is helper.go, the
--   reading of the environment, but for durations.
-- - Tests: runs on small tables, and the theorems at concrete inputs.
--
-- State. A service method is an action on a `World`: the tables, the log of cache invalidations,
-- and a schedule `down` of outages, by which any statement, `BEGIN` or `COMMIT` may fail as a lost
-- connection does. The theorems hold for every schedule. A failed transaction restores the tables.
-- What the clock, `uuid.NewString` and `UTC_TIMESTAMP()` return is an argument. A UUID is a number,
-- since it is compared and ordered and no more, and 0 is the empty string. A time is a number of
-- nanoseconds since Go's zero time. `strings.ToLower` is modelled on ASCII letters. Fuel is spent
-- in `decimal`, where the number itself is enough for its digits, and by the client of Task/Paging,
-- for whom one request more than there are rows is enough. Go's int is ℤ in a page query and ℕ
-- where the code has checked that it is not negative; a limit is at most 101, so nothing wraps
-- around.
--
-- Not modelled: requests that overlap in time, so that row locks do not show, but for the commands
-- of the page cache to Redis (those of one call of the session store are sent without another's
-- between them); panics; the rounding of the average in the report of GetStats; the insides of
-- pkg/auth; the lapse of a team's generation counter, a day after the last invalidation; the
-- middleware for logs, headers and deadlines, the rules of request validation, the composition of
-- Load in internal/config/config.go, the circuit breaker and start-up. bcrypt, JWT, JSON, base64, Redis,
-- fiber and the MySQL server are not under this repository; the collation is a parameter: which
-- characters LIKE takes for the same, which emails `email = ?` takes for the same, and how names are
-- ordered.
pub mod Base
pub mod Domain
pub mod Database
pub mod Repository
pub mod Cache
pub mod Service
pub mod Http
pub mod Config
pub mod Tests
