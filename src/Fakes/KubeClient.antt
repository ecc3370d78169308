-- ===== src/Fakes/KubeClient.antt =====
-- handler/handler_fakes/fake_k8s_client.go: the methods of `FakeKubeClient`, and the fake of their table.
pub mod Methods
use tps.Base.{Str, bytes, str_eq, Option, none, some, List, [], ◌∷◌, ◌≡◌, refl}
use tps.Fakes.Table.{Interface, Fake, find_key}

pub data CoreMethod : Type 0 where
  get_rest_client component_statuses config_maps endpoints events limit_ranges namespaces nodes
        persistent_volumes pods pod_templates replication_controllers resource_quotas secrets
        services service_accounts :
      CoreMethod

unfoldable pub core_discrete : Discrete CoreMethod
core_discrete = hlevel

-- The keys of the invocations.
abbrev pub core_key : CoreMethod → Str
core_key get_rest_client = bytes "GetRESTClient"
core_key component_statuses = bytes "ComponentStatuses"
core_key config_maps = bytes "ConfigMaps"
core_key endpoints = bytes "Endpoints"
core_key events = bytes "Events"
core_key limit_ranges = bytes "LimitRanges"
core_key namespaces = bytes "Namespaces"
core_key nodes = bytes "Nodes"
core_key persistent_volumes = bytes "PersistentVolumes"
core_key pods = bytes "Pods"
core_key pod_templates = bytes "PodTemplates"
core_key replication_controllers = bytes "ReplicationControllers"
core_key resource_quotas = bytes "ResourceQuotas"
core_key secrets = bytes "Secrets"
core_key services = bytes "Services"
core_key service_accounts = bytes "ServiceAccounts"

abbrev pub core_methods : List CoreMethod
core_methods =
    get_rest_client ∷ component_statuses ∷ config_maps ∷ endpoints ∷ events ∷ limit_ranges
    ∷ namespaces ∷ nodes ∷ persistent_volumes ∷ pods ∷ pod_templates ∷ replication_controllers
    ∷ resource_quotas ∷ secrets ∷ services ∷ service_accounts ∷ []

abbrev pub core_named : Str → Option CoreMethod
core_named = find_key core_key core_methods

pub core_named-key : (m : CoreMethod) → core_named (core_key m) ≡ some m
unfolding find_key str_eq
core_named-key get_rest_client = refl
core_named-key component_statuses = refl
core_named-key config_maps = refl
core_named-key endpoints = refl
core_named-key events = refl
core_named-key limit_ranges = refl
core_named-key namespaces = refl
core_named-key nodes = refl
core_named-key persistent_volumes = refl
core_named-key pods = refl
core_named-key pod_templates = refl
core_named-key replication_controllers = refl
core_named-key resource_quotas = refl
core_named-key secrets = refl
core_named-key services = refl
core_named-key service_accounts = refl

-- What is recorded of a call: the namespace, where the method has one.
abbrev pub CoreArgs : CoreMethod → Type 0
CoreArgs get_rest_client = Unit {0}
CoreArgs component_statuses = Unit {0}
CoreArgs config_maps = Str
CoreArgs endpoints = Str
CoreArgs events = Str
CoreArgs limit_ranges = Str
CoreArgs namespaces = Unit {0}
CoreArgs nodes = Unit {0}
CoreArgs persistent_volumes = Unit {0}
CoreArgs pods = Str
CoreArgs pod_templates = Str
CoreArgs replication_controllers = Str
CoreArgs resource_quotas = Str
CoreArgs secrets = Str
CoreArgs services = Str
CoreArgs service_accounts = Str

abbrev pub core_box : (m : CoreMethod) → CoreArgs m → List Str
core_box get_rest_client args = []
core_box component_statuses args = []
core_box config_maps namespace = namespace ∷ []
core_box endpoints namespace = namespace ∷ []
core_box events namespace = namespace ∷ []
core_box limit_ranges namespace = namespace ∷ []
core_box namespaces args = []
core_box nodes args = []
core_box persistent_volumes args = []
core_box pods namespace = namespace ∷ []
core_box pod_templates namespace = namespace ∷ []
core_box replication_controllers namespace = namespace ∷ []
core_box resource_quotas namespace = namespace ∷ []
core_box secrets namespace = namespace ∷ []
core_box services namespace = namespace ∷ []
core_box service_accounts namespace = namespace ∷ []

-- A method answers with the client of one resource, of a type that `Client` gives, or nil.
module _ (Client : CoreMethod → Type 0) where
  abbrev pub core_interface : Interface
  core_interface = record {
    Name = CoreMethod;
    discrete = core_discrete;
    Args = CoreArgs;
    Answer = λ m. Option (Client m);
    Boxed = Str;
    zero = λ m. none;
    key = core_key;
    box = core_box;
    named = core_named;
    named-key = core_named-key;
  }

  -- `FakeKubeClient`
  abbrev pub FakeKubeClient : Type 0
  FakeKubeClient = Fake core_interface
