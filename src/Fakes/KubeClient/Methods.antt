-- ===== src/Fakes/KubeClient/Methods.antt =====
-- handler/handler_fakes/fake_k8s_client.go: the functions of `FakeKubeClient`, method by method.
use tps.Base.{Str, List}
use tps.Fakes.Table.{Operations, operations}
use tps.Fakes.KubeClient.{CoreMethod, core_interface, FakeKubeClient}

module _ (Client : CoreMethod → Type 0) where
  -- `GetRESTClient`, `GetRESTClientCallCount`, `GetRESTClientReturns`
  abbrev pub get_rest_client : Operations (core_interface Client) CoreMethod.get_rest_client
  get_rest_client = operations (core_interface Client) CoreMethod.get_rest_client

  -- `ComponentStatuses`, `ComponentStatusesCallCount`, `ComponentStatusesReturns`
  abbrev pub component_statuses : Operations (core_interface Client) CoreMethod.component_statuses
  component_statuses = operations (core_interface Client) CoreMethod.component_statuses

  -- `ConfigMaps`, `ConfigMapsCallCount`, `ConfigMapsArgsForCall`, `ConfigMapsReturns`
  abbrev pub config_maps : Operations (core_interface Client) CoreMethod.config_maps
  config_maps = operations (core_interface Client) CoreMethod.config_maps

  -- `Endpoints`, `EndpointsCallCount`, `EndpointsArgsForCall`, `EndpointsReturns`
  abbrev pub endpoints : Operations (core_interface Client) CoreMethod.endpoints
  endpoints = operations (core_interface Client) CoreMethod.endpoints

  -- `Events`, `EventsCallCount`, `EventsArgsForCall`, `EventsReturns`
  abbrev pub events : Operations (core_interface Client) CoreMethod.events
  events = operations (core_interface Client) CoreMethod.events

  -- `LimitRanges`, `LimitRangesCallCount`, `LimitRangesArgsForCall`, `LimitRangesReturns`
  abbrev pub limit_ranges : Operations (core_interface Client) CoreMethod.limit_ranges
  limit_ranges = operations (core_interface Client) CoreMethod.limit_ranges

  -- `Namespaces`, `NamespacesCallCount`, `NamespacesReturns`
  abbrev pub namespaces : Operations (core_interface Client) CoreMethod.namespaces
  namespaces = operations (core_interface Client) CoreMethod.namespaces

  -- `Nodes`, `NodesCallCount`, `NodesReturns`
  abbrev pub nodes : Operations (core_interface Client) CoreMethod.nodes
  nodes = operations (core_interface Client) CoreMethod.nodes

  -- `PersistentVolumes`, `PersistentVolumesCallCount`, `PersistentVolumesReturns`
  abbrev pub persistent_volumes : Operations (core_interface Client) CoreMethod.persistent_volumes
  persistent_volumes = operations (core_interface Client) CoreMethod.persistent_volumes

  -- `Pods`, `PodsCallCount`, `PodsArgsForCall`, `PodsReturns`
  abbrev pub pods : Operations (core_interface Client) CoreMethod.pods
  pods = operations (core_interface Client) CoreMethod.pods

  -- `PodTemplates`, `PodTemplatesCallCount`, `PodTemplatesArgsForCall`, `PodTemplatesReturns`
  abbrev pub pod_templates : Operations (core_interface Client) CoreMethod.pod_templates
  pod_templates = operations (core_interface Client) CoreMethod.pod_templates

  -- `ReplicationControllers`, `ReplicationControllersCallCount`, `ReplicationControllersArgsForCall`, `ReplicationControllersReturns`
  abbrev pub replication_controllers :
      Operations (core_interface Client) CoreMethod.replication_controllers
  replication_controllers = operations (core_interface Client) CoreMethod.replication_controllers

  -- `ResourceQuotas`, `ResourceQuotasCallCount`, `ResourceQuotasArgsForCall`, `ResourceQuotasReturns`
  abbrev pub resource_quotas : Operations (core_interface Client) CoreMethod.resource_quotas
  resource_quotas = operations (core_interface Client) CoreMethod.resource_quotas

  -- `Secrets`, `SecretsCallCount`, `SecretsArgsForCall`, `SecretsReturns`
  abbrev pub secrets : Operations (core_interface Client) CoreMethod.secrets
  secrets = operations (core_interface Client) CoreMethod.secrets

  -- `Services`, `ServicesCallCount`, `ServicesArgsForCall`, `ServicesReturns`
  abbrev pub services : Operations (core_interface Client) CoreMethod.services
  services = operations (core_interface Client) CoreMethod.services

  -- `ServiceAccounts`, `ServiceAccountsCallCount`, `ServiceAccountsArgsForCall`, `ServiceAccountsReturns`
  abbrev pub service_accounts : Operations (core_interface Client) CoreMethod.service_accounts
  service_accounts = operations (core_interface Client) CoreMethod.service_accounts

  -- `Invocations`
  abbrev pub invocations : FakeKubeClient Client → Str → List (List Str)
  invocations fake = fake.invocations
