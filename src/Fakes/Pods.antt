-- ===== src/Fakes/Pods.antt =====
-- handler/handler_fakes/fake_pod.go: the methods of `FakePod`, and the fake of their table.
pub mod Methods
use tps.Base.{Str, bytes, str_eq, Option, none, some, List, [], ◌∷◌, ◌≡◌, refl}
use tps.Fakes.Table.{Interface, Fake, find_key}
use tps.Fakes.Kube.{Kube, Boxed}

pub data PodMethod : Type 0 where
  create update update_status delete delete_collection get list watch bind get_logs : PodMethod

unfoldable pub pod_discrete : Discrete PodMethod
pod_discrete = hlevel

-- The keys of the invocations.
abbrev pub pod_key : PodMethod → Str
pod_key create = bytes "Create"
pod_key update = bytes "Update"
pod_key update_status = bytes "UpdateStatus"
pod_key delete = bytes "Delete"
pod_key delete_collection = bytes "DeleteCollection"
pod_key get = bytes "Get"
pod_key list = bytes "List"
pod_key watch = bytes "Watch"
pod_key bind = bytes "Bind"
pod_key get_logs = bytes "GetLogs"

abbrev pub pod_methods : List PodMethod
pod_methods =
    create ∷ update ∷ update_status ∷ delete ∷ delete_collection ∷ get ∷ list ∷ watch ∷ bind
    ∷ get_logs ∷ []

abbrev pub pod_named : Str → Option PodMethod
pod_named = find_key pod_key pod_methods

pub pod_named-key : (m : PodMethod) → pod_named (pod_key m) ≡ some m
unfolding find_key str_eq
pod_named-key create = refl
pod_named-key update = refl
pod_named-key update_status = refl
pod_named-key delete = refl
pod_named-key delete_collection = refl
pod_named-key get = refl
pod_named-key list = refl
pod_named-key watch = refl
pod_named-key bind = refl
pod_named-key get_logs = refl

module _ (k : Kube) where
  abbrev pub PodArgs : PodMethod → Type 0
  PodArgs create = Option k.Pod
  PodArgs update = Option k.Pod
  PodArgs update_status = Option k.Pod
  PodArgs delete = Str × Option k.DeleteOptions
  PodArgs delete_collection = Option k.DeleteOptions × k.ListOptions
  PodArgs get = Str
  PodArgs list = k.ListOptions
  PodArgs watch = k.ListOptions
  PodArgs bind = Option k.Binding
  PodArgs get_logs = Str × Option k.PodLogOptions

  -- The results; the zero value of each is nil.
  abbrev pub PodAnswer : PodMethod → Type 0
  PodAnswer create = Option k.Pod × Option k.Error
  PodAnswer update = Option k.Pod × Option k.Error
  PodAnswer update_status = Option k.Pod × Option k.Error
  PodAnswer delete = Option k.Error
  PodAnswer delete_collection = Option k.Error
  PodAnswer get = Option k.Pod × Option k.Error
  PodAnswer list = Option k.PodList × Option k.Error
  PodAnswer watch = Option k.Watch × Option k.Error
  PodAnswer bind = Option k.Error
  PodAnswer get_logs = Option k.RestRequest

  abbrev pub pod_zero : (m : PodMethod) → PodAnswer m
  pod_zero create = (none, none)
  pod_zero update = (none, none)
  pod_zero update_status = (none, none)
  pod_zero delete = none
  pod_zero delete_collection = none
  pod_zero get = (none, none)
  pod_zero list = (none, none)
  pod_zero watch = (none, none)
  pod_zero bind = none
  pod_zero get_logs = none

  -- What `recordInvocation` is given of the arguments.
  abbrev pub pod_box : (m : PodMethod) → PodArgs m → List (Boxed k)
  pod_box create object = Boxed.pod object ∷ []
  pod_box update object = Boxed.pod object ∷ []
  pod_box update_status object = Boxed.pod object ∷ []
  pod_box delete (name, options) = Boxed.text name ∷ Boxed.delete_options options ∷ []
  pod_box delete_collection (options, list_options) =
      Boxed.delete_options options ∷ Boxed.list_options list_options ∷ []
  pod_box get name = Boxed.text name ∷ []
  pod_box list opts = Boxed.list_options opts ∷ []
  pod_box watch opts = Boxed.list_options opts ∷ []
  pod_box bind binding = Boxed.binding binding ∷ []
  pod_box get_logs (name, opts) = Boxed.text name ∷ Boxed.pod_log_options opts ∷ []

  abbrev pub pod_interface : Interface
  pod_interface = record {
    Name = PodMethod;
    discrete = pod_discrete;
    Args = PodArgs;
    Answer = PodAnswer;
    Boxed = Boxed k;
    zero = pod_zero;
    key = pod_key;
    box = pod_box;
    named = pod_named;
    named-key = pod_named-key;
  }

  -- `FakePod`
  abbrev pub FakePod : Type 0
  FakePod = Fake pod_interface
