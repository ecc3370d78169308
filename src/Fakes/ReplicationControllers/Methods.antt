-- ===== src/Fakes/ReplicationControllers/Methods.antt =====
-- handler/handler_fakes/fake_replication_controller.go: the functions of `FakeReplicationController`, method by method.
use tps.Base.{Str, List}
use tps.Fakes.Table.{Operations, operations}
use tps.Fakes.Kube.{Kube, Boxed}
use tps.Fakes.ReplicationControllers.{
  ReplicationControllerMethod, replication_controller_interface, FakeReplicationController,
}

module _ (k : Kube) where
  -- `Create`, `CreateCallCount`, `CreateArgsForCall`, `CreateReturns`
  abbrev pub create :
      Operations (replication_controller_interface k) ReplicationControllerMethod.create
  create = operations (replication_controller_interface k) ReplicationControllerMethod.create

  -- `Update`, `UpdateCallCount`, `UpdateArgsForCall`, `UpdateReturns`
  abbrev pub update :
      Operations (replication_controller_interface k) ReplicationControllerMethod.update
  update = operations (replication_controller_interface k) ReplicationControllerMethod.update

  -- `UpdateStatus`, `UpdateStatusCallCount`, `UpdateStatusArgsForCall`, `UpdateStatusReturns`
  abbrev pub update_status :
      Operations (replication_controller_interface k) ReplicationControllerMethod.update_status
  update_status =
      operations (replication_controller_interface k) ReplicationControllerMethod.update_status

  -- `Delete`, `DeleteCallCount`, `DeleteArgsForCall`, `DeleteReturns`
  abbrev pub delete :
      Operations (replication_controller_interface k) ReplicationControllerMethod.delete
  delete = operations (replication_controller_interface k) ReplicationControllerMethod.delete

  -- `DeleteCollection`, `DeleteCollectionCallCount`, `DeleteCollectionArgsForCall`, `DeleteCollectionReturns`
  abbrev pub delete_collection :
      Operations (replication_controller_interface k) ReplicationControllerMethod.delete_collection
  delete_collection =
      operations (replication_controller_interface k) ReplicationControllerMethod.delete_collection

  -- `Get`, `GetCallCount`, `GetArgsForCall`, `GetReturns`
  abbrev pub get : Operations (replication_controller_interface k) ReplicationControllerMethod.get
  get = operations (replication_controller_interface k) ReplicationControllerMethod.get

  -- `List`, `ListCallCount`, `ListArgsForCall`, `ListReturns`
  abbrev pub list : Operations (replication_controller_interface k) ReplicationControllerMethod.list
  list = operations (replication_controller_interface k) ReplicationControllerMethod.list

  -- `Watch`, `WatchCallCount`, `WatchArgsForCall`, `WatchReturns`
  abbrev pub watch :
      Operations (replication_controller_interface k) ReplicationControllerMethod.watch
  watch = operations (replication_controller_interface k) ReplicationControllerMethod.watch

  -- `Invocations`
  abbrev pub invocations : FakeReplicationController k → Str → List (List (Boxed k))
  invocations fake = fake.invocations
