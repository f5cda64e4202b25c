-- ===== src/Lib.antt =====
-- The web interface of Dkron: the React program under `dkron/ui/src`, which shows and runs the jobs of
-- a scheduler behind an HTTP API; and of the scheduler's server the store of jobs and executions, the
-- scheduler, and the handlers that the interface calls. Each file of this library says at its top which code it is
-- about. Paths without a first folder are those under `dkron/ui/src`.
--
-- * `Diagram` is `jobs/JobDependencyDiagram.tsx`. `Diagram/Defs` has its types and constants;
--   `Diagram/Relatives` the searches `findAncestors` and `findDescendants`, in `Walk`, and what they
--   find; `Diagram/Layout` the grouping by level, the positions, the nodes and the edges, in `Place`,
--   and their geometry; `Diagram/Build` is `buildDependencyGraph`, which composes the searches and the
--   layout; `Diagram/View` and `Diagram/Page` are the elements of a node and of an edge, and the
--   component with its state and its fetch.
-- * `Session` is `authProvider.ts` and `httpClient` of `dataProvider.ts`: the token in the browser's
--   storage, which the first writes and the second reads. `Client` is `getManyReference` of
--   `dataProvider.ts`, whose answers go through `httpClient`.
-- * `Actions/Button` is `jobs/RunButton.tsx` and `jobs/ToggleButton.tsx`, `Actions/Bulk` is
--   `jobs/BulkRunButton.tsx` and `jobs/BulkToggleButton.tsx`: state machines whose steps are clicks
--   and the ends of requests, in any order.
-- * `Dashboard/Analytics` is the effect of `dashboard/Dashboard.tsx`, `Dashboard/Stats` its cards and
--   `dashboard/AnalyticsStats.tsx`, `Dashboard/Charts` the charts of `dashboard/ExecutionStatsChart.tsx`
--   and `dashboard/JobChart.tsx`, `Dashboard/Home` the elements of the whole dashboard, and
--   `Dashboard/Outcomes` the effect together with what it shows.
-- * `Jobs` is the pages of the jobs: `Jobs/Fields` the fields of `jobs/StatusField.tsx` and its
--   neighbours, `Jobs/Full` the button of `jobs/JobShow.tsx` that loads the whole output of an
--   execution, `Jobs/Show`, `Jobs/Edit` and `Jobs/Lists` the pages of `jobs/JobShow.tsx`,
--   `jobs/JobEdit.tsx`, `jobs/JobList.tsx` and `executions/BusyList.tsx`.
-- * `Login` is `LoginPage.tsx`, which logs in through `Session`; `Layout` is `layout/` and `App.tsx`.
-- * `Site` is the home page of the web site under `dkron/website/src/`.
-- * `Server` is the server under `dkron/dkron/`: `Server/Schedule`, `Server/Memory` and `Server/Job`
--   are `job.go`, `Server/Cron` is `dkron/extcron/`, `Server/Store` is `SetJob` and `DeleteJob` of
--   `store.go` with the lists of dependent jobs that they keep, `Server/Executions` and `Server/Stats`
--   its executions, those that are lost, and the numbers of each day, `Server/History` the contents that its calls lead to,
--   `Server/Analytics` is `api_analytics.go` and `Server/Pages` `jobsHandler` of `api.go`.
--   `Server/Diagrams` brings the two programs together: the jobs of the store as `Diagram` reads them.
--   `Server/Scheduler` is `scheduler.go`, `Server/Leader` brings it together with the store: the calls of
--   `api.go` and `grpc.go` that change jobs, the beginning of `Run` of `run.go`, which stores the next
--   time of a job, and the changes of leadership in `leader.go`.
--   `Server/Targets` is `tags.go` and `getTargetNodes` of `agent.go`, `Server/Runs` is `ExecutionDone` of
--   `grpc.go`.
-- * `Common` has the shared types and lemmas: `Map` and `Set` as lists in the order of insertion,
--   integers, UTF-16 texts, trees of elements. `Tests` has the examples.
--
-- The searches recurse along the parents and dependents, which may form cycles. They take fuel for
-- the depth of the recursion, and `build_dependency_graph` gives them `depth_bound`, one more than the
-- number of known jobs. This is enough, since each call below another has processed one more known
-- job. Numbers of the language are natural numbers and integers here, as they are exact below 2 ^ 53.
--
-- `SetJob` calls itself for the parents of a job, with the parent's own parent unchanged, so those
-- calls end the recursion: `set_job` takes fuel, and 2 is enough, 1 for the calls of `delete_job`. The
-- runs of a job that fails take a round each: one more than its retries are enough.
--
-- What comes from packages is an argument: `flattenObject` and `stringify` of the queries, how the
-- language writes numbers and dates and compares texts; and of the server the cron package with its
-- engine and its schedules, the members of the cluster and the choice among them, the dates and zones
-- of the language, its tables of letters, its sort and its floating-point numbers. Not modelled are
-- styling, what React and the component libraries do with the elements, the rest of the web site, and
-- the rest of the server: the execution of jobs on the nodes, snapshots and the reading
-- of a backup, the cluster and its log, the database's transactions and the plugins. The calls of a
-- server are taken one after the other.
pub mod Common
pub mod Diagram
pub mod Session
pub mod Client
pub mod Actions
pub mod Dashboard
pub mod Jobs
pub mod Login
pub mod Layout
pub mod Site
pub mod Server
pub mod Tests
