-- ===== src/Lib.antt =====
-- The TPS reporter of Cloud Foundry on Kubernetes: a listener that answers questions about the
-- instances of an application, and a watcher that reports their crashes to the Cloud Controller.
-- The listener has three endpoints over one pod listing. They share a limit on the requests that are
-- served at a time. The watcher subscribes to the events of the BBS, turns the crash of an
-- application into a job of its work pool, and the job sends one request to the Cloud Controller.
--
-- Which file models which part:
--   PodUtil              helpers/pod_util.go (SortPods)
--   LrpStatus            handler/lrpstatus/lrpstatus.go (ServeHTTP, LRPInstances,
--                        getApplicationContainerState)
--   LrpStats             handler/lrpstats/lrpstats.go (ServeHTTP, responseCodeFromError,
--                        getDefaultPort)
--   BulkLrpStatus        handler/bulklrpstatus/bulklrpstatus.go (processGuidPattern, ServeHTTP,
--                        getStatusForLRPWorkFunction)
--   CcConv               handler/cc_conv/cc_conv.go (StateFor)
--   Handler, Routes      handler/handler.go (New, tpsHandler), handler/middleware.go (LogWrap),
--                        routes.go
--   Handler.Service      a request on a route: the table, LogWrap and the endpoint together
--   Watcher              watcher/watcher.go (Run, handleEvent, subscribeToEvents, nextEvent); its
--                        child Setup: NewWatcher
--   CcClient             cc_client/cc_client.go (NewCcClient, AppCrashed, BadResponseError); its child
--                        Reports: the jobs of watcher/watcher.go
--   Listener             cmd/tps-listener/main.go (flags, main and its initialize functions); its
--                        child Serving: the server of the group and its endpoints
--   WatcherProcess       cmd/tps-watcher/main.go (flags, main and its initialize functions)
--   ServiceClient        service_client.go
--   Runner               cmd/tpsrunner/runner.go; its child Crashes goes from there to the requests
--                        of the watcher's process
--   Fakes                cc_client/fakes/fake_cc_client.go, handler/lrpstats/fakes/
--                        fake_noaaclient.go
--   Fakes.Table          what the four fakes of Kubernetes share, over a table of the methods
--   Fakes.Pods           handler/handler_fakes/fake_pod.go
--   Fakes.Namespaces     handler/handler_fakes/fake_namespace.go
--   Fakes.ReplicationControllers
--                        handler/handler_fakes/fake_replication_controller.go
--   Fakes.KubeClient     handler/handler_fakes/fake_k8s_client.go
--   Fakes.Delegates      handler/handler_fakes/fake_handler.go
--   Pod, Api             the data of Kubernetes, cc_messages, nsync, noaa and the clock that the
--                        handlers read, and those systems as parameters
--   Http, Split, Regex,  the parts of Go's standard library that the code uses: ResponseWriter,
--   Format, Decimal,     strings.Split, regexp, fmt.Sprintf, the printing of numbers, flag
--   Flags
--   Base                 shared helpers
--   Sample,              the data at which examples run
--   ProcessSample
-- The children of a module hold its proofs, and Tests the runs and examples.
--
-- Texts are lists of bytes. Times are nanoseconds as int64, with the wrap-around of the subtraction
-- and Go's truncated division written out. A panic is a value (Base.Panic); a nil pointer or slice is
-- `none`. A handler is a function from the ResponseWriter to the ResponseWriter, beside the calls
-- that it makes to other systems. The JSON encoding, the process guid helpers, the pod listing, the
-- container metrics, net/http's detection of a body's type, the throttler's check of its size,
-- rata's router, the network and its acceptance of URLs, consul, the parsing of URLs and addresses
-- and of the numbers among the flags are parameters.
-- A request reads the clock as a sequence of readings. In the bulk endpoint each work function
-- has its own readings and meets the other systems as they are then, and its only shared step is the
-- write under the lock, so that a run is an order of the work functions.
--
-- The fakes of Kubernetes have the same functions for each method: the call, and those whose names end
-- in CallCount, ArgsForCall and Returns. A table of the methods, with the arguments, the answer and the
-- key of each, gives the struct and these functions. Each function is one step: the mutexes guard the
-- records of the calls only, not the stubs and answers, so this is for tests that set none of these
-- while a call runs.
--
-- The watcher is a step relation: its state holds the channels, with room for one value each, and the
-- goroutines that run, and an action is a call that returns or a case that the loop takes. A send to
-- a full channel and an action without its goroutine are no steps. Every loop runs over a list, and
-- only Decimal.digits has fuel: 20, for numbers of at most 19 digits.
--
-- Not modelled: log lines other than those of LogWrap and of dropsonde's failure, the pause before
-- a read is tried again, the handling of a panic by net/http, the work pool's scheduling, dropsonde
-- behind its Initialize, the closing of the noaa consumer, the running of a group of runners by
-- ifrit, and the lock of locket. The requests of the pool's jobs go out in an order that is a
-- parameter. All but the log lines and the pause are packages that the repository only calls.
pub mod Base
pub mod Pod
pub mod Sample
pub mod PodUtil
pub mod Split
pub mod Regex
pub mod Http
pub mod Api
pub mod LrpStatus
pub mod LrpStats
pub mod BulkLrpStatus
pub mod CcConv
pub mod Format
pub mod CcClient
pub mod Routes
pub mod Handler
pub mod Watcher
pub mod Flags
pub mod Listener
pub mod WatcherProcess
pub mod ServiceClient
pub mod Runner
pub mod ProcessSample
pub mod Fakes
pub mod Decimal
