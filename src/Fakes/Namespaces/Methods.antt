-- ===== src/Fakes/Namespaces/Methods.antt =====
-- handler/handler_fakes/fake_namespace.go: the functions of `FakeNamespace`, method by method.
use tps.Base.{Str, List}
use tps.Fakes.Table.{Operations, operations}
use tps.Fakes.Kube.{Kube, Boxed}
use tps.Fakes.Namespaces.{NamespaceMethod, namespace_interface, FakeNamespace}

module _ (k : Kube) where
  -- `Create`, `CreateCallCount`, `CreateArgsForCall`, `CreateReturns`
  abbrev pub create : Operations (namespace_interface k) NamespaceMethod.create
  create = operations (namespace_interface k) NamespaceMethod.create

  -- `Update`, `UpdateCallCount`, `UpdateArgsForCall`, `UpdateReturns`
  abbrev pub update : Operations (namespace_interface k) NamespaceMethod.update
  update = operations (namespace_interface k) NamespaceMethod.update

  -- `UpdateStatus`, `UpdateStatusCallCount`, `UpdateStatusArgsForCall`, `UpdateStatusReturns`
  abbrev pub update_status : Operations (namespace_interface k) NamespaceMethod.update_status
  update_status = operations (namespace_interface k) NamespaceMethod.update_status

  -- `Delete`, `DeleteCallCount`, `DeleteArgsForCall`, `DeleteReturns`
  abbrev pub delete : Operations (namespace_interface k) NamespaceMethod.delete
  delete = operations (namespace_interface k) NamespaceMethod.delete

  -- `DeleteCollection`, `DeleteCollectionCallCount`, `DeleteCollectionArgsForCall`, `DeleteCollectionReturns`
  abbrev pub delete_collection :
      Operations (namespace_interface k) NamespaceMethod.delete_collection
  delete_collection = operations (namespace_interface k) NamespaceMethod.delete_collection

  -- `Get`, `GetCallCount`, `GetArgsForCall`, `GetReturns`
  abbrev pub get : Operations (namespace_interface k) NamespaceMethod.get
  get = operations (namespace_interface k) NamespaceMethod.get

  -- `List`, `ListCallCount`, `ListArgsForCall`, `ListReturns`
  abbrev pub list : Operations (namespace_interface k) NamespaceMethod.list
  list = operations (namespace_interface k) NamespaceMethod.list

  -- `Watch`, `WatchCallCount`, `WatchArgsForCall`, `WatchReturns`
  abbrev pub watch : Operations (namespace_interface k) NamespaceMethod.watch
  watch = operations (namespace_interface k) NamespaceMethod.watch

  -- `Finalize`, `FinalizeCallCount`, `FinalizeArgsForCall`, `FinalizeReturns`
  abbrev pub finalize : Operations (namespace_interface k) NamespaceMethod.finalize
  finalize = operations (namespace_interface k) NamespaceMethod.finalize

  -- `Invocations`
  abbrev pub invocations : FakeNamespace k → Str → List (List (Boxed k))
  invocations fake = fake.invocations
