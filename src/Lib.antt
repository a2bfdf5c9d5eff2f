-- ===== src/Lib.antt =====
-- infinitas-skill: the core logic of the skill registry's control plane and of its installer.
--
-- The program. A server keeps skills, their versions and releases in a SQLite database. A release is
-- built by a background worker, then shown to an audience by an exposure, which a review may have to
-- approve first. Clients install releases whose versions meet dependency constraints, and the
-- endpoints that take secrets limit the attempts that a client makes.
--
-- The parts, and the code that they are about:
--   Visibility   server/modules/{release,exposure,review}: services, policies, models, and the review
--                router. Model has the tables as lists of rows in one record `Db`; Release, Policy,
--                Review, Exposure and Reviewing have one definition for each function, with the name
--                it has in Python (a leading underscore dropped). Publishing is finalize_publish_intent
--                of server/modules/release/agent_publish_service.py, which publishes a release for
--                an agent without a review, in the worker's transaction. Safety has the invariant
--                and, below it, what each call does to it; History runs sequences of requests, each
--                in its transaction (server/db.py, get_db); Laws and Returned are about single calls.
--   Jobs         Model is the table of server/modules/jobs/models.py, Queue is server/jobs.py, Worker is
--                server/worker.py. Attempts and Drain are about the batch loop, Laws about claims and
--                leases, Settled about one job.
--   Versions     src/infinitas_skill/install/version_constraints.py: Semver parses and compares,
--                Constraint reads expressions and tests versions, Decimal prints numbers as f-strings
--                do; Order, Ranges and Exact hold the theorems.
--   RateLimit    server/rate_limit.py: Database and Memory are its two limiters, Window and Counted
--                the theorems on them.
--   Shares       server/modules/access/share_links.py: Model has the tables, Links the calls,
--                Limits what each does to the uses of a link, History their sequences;
--                Access is grant_allows_release of server/modules/access/service.py.
--   Access       server/modules/access/authz.py: Authz has its functions, Each and Grounds the
--                theorems. Quota is credential_policy.py.
--   Install      src/infinitas_skill/install: Matching is target_validation.py and Solver the search of
--                service.py, with the final check; Plan is plan_builder.py and the method `plan`. Steps,
--                Sound, Peace and Kept are about what the search returns, Measure and Ends about its
--                end; Visit, Returns, Applied and Planned are about the order of the steps, Whole about the plan.
--   Promotion    src/infinitas_skill/policy: Quorum is reviews.py, Evaluate is review_evaluation.py;
--                Classified, Gate, Distinct, Unavoidable and Latest hold the theorems.
--   Prelude      names of the libraries passed on, Boolean tests, texts as lists of code points with
--                the methods of `str` that the program uses, results with the errors of the services,
--                tables with an integer key and the queries on them, orders.
-- Visibility and Jobs are tables of the same database; a request to materialise a release
-- enqueues a job, whose handler marks the release ready (Release.mark_release_ready), which is
-- what an exposure waits for, and finishes the publish intent of an agent
-- (Publishing.finish_materialization). A share link gives access to a release through an active
-- exposure to grants, and reads the tables of the visibility services, as do the decisions on
-- access.
--
-- How code is modelled. A service is a function from the database, the arguments and the time to
-- a result: a value with the new database, or the exception that the code raises. A request that
-- fails leaves the database as it was, since its transaction is rolled back; a job that fails
-- keeps what it has written (Publishing.finish_intent). The server and its
-- workers share one SQLite file with one writer at a time, so a history is a sequence of
-- transactions, and an insert after the query for its key meets no integrity error. Processing a
-- job is two transactions, since the renewal of its lease commits apart; nobody else is taken to
-- write its row in between. Times are whole seconds. JSON columns are the records that they
-- encode. Texts are lists of code points; `lower`, `strip` and digits are those of ASCII, with
-- the two other characters whose lower case has an ASCII letter. Integers are unbounded, as in
-- Python; limits and windows that the callers pass are not negative.
--
-- Bounds. Worker.run_worker_loop is on fuel: one round for each attempt that the jobs of the
-- table have left, of ten a job, and one more are enough. Decimal.decimal has as fuel a number
-- above the one that it prints, which each step divides by ten. Solver.resolve_recursive is on
-- fuel: one for each dependency of the root and of the candidates of the catalog, and one more,
-- are enough where dependencies are named as the catalog names them. The fuel of Plan.visit is
-- above the length of the selection. Everything else is structural recursion.
--
-- Parameters. The worker takes a file lock and calls the materialiser, the projections and the
-- pruning of contents, which run programs and touch files, and it finishes a publish intent and
-- writes the audit event of a failure in tables that are not those of the jobs; `Worker.World`
-- has them as functions that answer with lines to log or with the text of an exception, nothing
-- being assumed of them. The texts of log lines that hold dates or JSON are its function
-- `render`. Hashing of passwords and tokens is `Model.Hashing`, and random secrets are arguments
-- of the calls.
--
-- Not modelled: pages, routing, settings and middleware, which are glue of the web framework;
-- the materialiser, signatures and archives, which call cryptography, git and the file system;
-- the daemon mode of the worker, which polls for ever; upsert_artifact of
-- server/modules/release/service.py, which writes the rows of built artifacts; the creation of
-- agents and of their publish intents, of which the requests of a history only say what they
-- leave in the two tables; the issuing of other tokens, the files that the installer reads and
-- writes, discovery and registry sources.
pub mod Access
pub mod Install
pub mod Jobs
pub mod Prelude
pub mod Promotion
pub mod RateLimit
pub mod Shares
pub mod Versions
pub mod Visibility
