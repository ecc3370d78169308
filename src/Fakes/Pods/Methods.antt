-- ===== src/Fakes/Pods/Methods.antt =====
-- handler/handler_fakes/fake_pod.go: the functions of `FakePod`, method by method.
use tps.Base.{Str, List}
use tps.Fakes.Table.{Operations, operations}
use tps.Fakes.Kube.{Kube, Boxed}
use tps.Fakes.Pods.{PodMethod, pod_interface, FakePod}

module _ (k : Kube) where
  -- `Create`, `CreateCallCount`, `CreateArgsForCall`, `CreateReturns`
  abbrev pub create : Operations (pod_interface k) PodMethod.create
  create = operations (pod_interface k) PodMethod.create

  -- `Update`, `UpdateCallCount`, `UpdateArgsForCall`, `UpdateReturns`
  abbrev pub update : Operations (pod_interface k) PodMethod.update
  update = operations (pod_interface k) PodMethod.update

  -- `UpdateStatus`, `UpdateStatusCallCount`, `UpdateStatusArgsForCall`, `UpdateStatusReturns`
  abbrev pub update_status : Operations (pod_interface k) PodMethod.update_status
  update_status = operations (pod_interface k) PodMethod.update_status

  -- `Delete`, `DeleteCallCount`, `DeleteArgsForCall`, `DeleteReturns`
  abbrev pub delete : Operations (pod_interface k) PodMethod.delete
  delete = operations (pod_interface k) PodMethod.delete

  -- `DeleteCollection`, `DeleteCollectionCallCount`, `DeleteCollectionArgsForCall`, `DeleteCollectionReturns`
  abbrev pub delete_collection : Operations (pod_interface k) PodMethod.delete_collection
  delete_collection = operations (pod_interface k) PodMethod.delete_collection

  -- `Get`, `GetCallCount`, `GetArgsForCall`, `GetReturns`
  abbrev pub get : Operations (pod_interface k) PodMethod.get
  get = operations (pod_interface k) PodMethod.get

  -- `List`, `ListCallCount`, `ListArgsForCall`, `ListReturns`
  abbrev pub list : Operations (pod_interface k) PodMethod.list
  list = operations (pod_interface k) PodMethod.list

  -- `Watch`, `WatchCallCount`, `WatchArgsForCall`, `WatchReturns`
  abbrev pub watch : Operations (pod_interface k) PodMethod.watch
  watch = operations (pod_interface k) PodMethod.watch

  -- `Bind`, `BindCallCount`, `BindArgsForCall`, `BindReturns`
  abbrev pub bind : Operations (pod_interface k) PodMethod.bind
  bind = operations (pod_interface k) PodMethod.bind

  -- `GetLogs`, `GetLogsCallCount`, `GetLogsArgsForCall`, `GetLogsReturns`
  abbrev pub get_logs : Operations (pod_interface k) PodMethod.get_logs
  get_logs = operations (pod_interface k) PodMethod.get_logs

  -- `Invocations`
  abbrev pub invocations : FakePod k → Str → List (List (Boxed k))
  invocations fake = fake.invocations
