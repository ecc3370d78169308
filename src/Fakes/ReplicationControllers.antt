-- ===== src/Fakes/ReplicationControllers.antt =====
-- handler/handler_fakes/fake_replication_controller.go: the methods of `FakeReplicationController`, and the fake of their table.
pub mod Methods
use tps.Base.{Str, bytes, str_eq, Option, none, some, List, [], ◌∷◌, ◌≡◌, refl}
use tps.Fakes.Table.{Interface, Fake, find_key}
use tps.Fakes.Kube.{Kube, Boxed}

pub data ReplicationControllerMethod : Type 0 where
  create update update_status delete delete_collection get list watch : ReplicationControllerMethod

unfoldable pub replication_controller_discrete : Discrete ReplicationControllerMethod
replication_controller_discrete = hlevel

-- The keys of the invocations.
abbrev pub replication_controller_key : ReplicationControllerMethod → Str
replication_controller_key create = bytes "Create"
replication_controller_key update = bytes "Update"
replication_controller_key update_status = bytes "UpdateStatus"
replication_controller_key delete = bytes "Delete"
replication_controller_key delete_collection = bytes "DeleteCollection"
replication_controller_key get = bytes "Get"
replication_controller_key list = bytes "List"
replication_controller_key watch = bytes "Watch"

abbrev pub replication_controller_methods : List ReplicationControllerMethod
replication_controller_methods =
    create ∷ update ∷ update_status ∷ delete ∷ delete_collection ∷ get ∷ list ∷ watch ∷ []

abbrev pub replication_controller_named : Str → Option ReplicationControllerMethod
replication_controller_named = find_key replication_controller_key replication_controller_methods

pub replication_controller_named-key :
    (m : ReplicationControllerMethod)
    → replication_controller_named (replication_controller_key m) ≡ some m
unfolding find_key str_eq
replication_controller_named-key create = refl
replication_controller_named-key update = refl
replication_controller_named-key update_status = refl
replication_controller_named-key delete = refl
replication_controller_named-key delete_collection = refl
replication_controller_named-key get = refl
replication_controller_named-key list = refl
replication_controller_named-key watch = refl

module _ (k : Kube) where
  abbrev pub ReplicationControllerArgs : ReplicationControllerMethod → Type 0
  ReplicationControllerArgs create = Option k.ReplicationController
  ReplicationControllerArgs update = Option k.ReplicationController
  ReplicationControllerArgs update_status = Option k.ReplicationController
  ReplicationControllerArgs delete = Str × Option k.DeleteOptions
  ReplicationControllerArgs delete_collection = Option k.DeleteOptions × k.ListOptions
  ReplicationControllerArgs get = Str
  ReplicationControllerArgs list = k.ListOptions
  ReplicationControllerArgs watch = k.ListOptions

  -- The results; the zero value of each is nil.
  abbrev pub ReplicationControllerAnswer : ReplicationControllerMethod → Type 0
  ReplicationControllerAnswer create = Option k.ReplicationController × Option k.Error
  ReplicationControllerAnswer update = Option k.ReplicationController × Option k.Error
  ReplicationControllerAnswer update_status = Option k.ReplicationController × Option k.Error
  ReplicationControllerAnswer delete = Option k.Error
  ReplicationControllerAnswer delete_collection = Option k.Error
  ReplicationControllerAnswer get = Option k.ReplicationController × Option k.Error
  ReplicationControllerAnswer list = Option k.ReplicationControllerList × Option k.Error
  ReplicationControllerAnswer watch = Option k.Watch × Option k.Error

  abbrev pub replication_controller_zero :
      (m : ReplicationControllerMethod) → ReplicationControllerAnswer m
  replication_controller_zero create = (none, none)
  replication_controller_zero update = (none, none)
  replication_controller_zero update_status = (none, none)
  replication_controller_zero delete = none
  replication_controller_zero delete_collection = none
  replication_controller_zero get = (none, none)
  replication_controller_zero list = (none, none)
  replication_controller_zero watch = (none, none)

  -- What `recordInvocation` is given of the arguments.
  abbrev pub replication_controller_box :
      (m : ReplicationControllerMethod) → ReplicationControllerArgs m → List (Boxed k)
  replication_controller_box create object = Boxed.replication_controller object ∷ []
  replication_controller_box update object = Boxed.replication_controller object ∷ []
  replication_controller_box update_status object = Boxed.replication_controller object ∷ []
  replication_controller_box delete (name, options) =
      Boxed.text name ∷ Boxed.delete_options options ∷ []
  replication_controller_box delete_collection (options, list_options) =
      Boxed.delete_options options ∷ Boxed.list_options list_options ∷ []
  replication_controller_box get name = Boxed.text name ∷ []
  replication_controller_box list opts = Boxed.list_options opts ∷ []
  replication_controller_box watch opts = Boxed.list_options opts ∷ []

  abbrev pub replication_controller_interface : Interface
  replication_controller_interface = record {
    Name = ReplicationControllerMethod;
    discrete = replication_controller_discrete;
    Args = ReplicationControllerArgs;
    Answer = ReplicationControllerAnswer;
    Boxed = Boxed k;
    zero = replication_controller_zero;
    key = replication_controller_key;
    box = replication_controller_box;
    named = replication_controller_named;
    named-key = replication_controller_named-key;
  }

  -- `FakeReplicationController`
  abbrev pub FakeReplicationController : Type 0
  FakeReplicationController = Fake replication_controller_interface
