-- ===== src/Fakes/Namespaces.antt =====
-- handler/handler_fakes/fake_namespace.go: the methods of `FakeNamespace`, and the fake of their table.
pub mod Methods
use tps.Base.{Str, bytes, str_eq, Option, none, some, List, [], ◌∷◌, ◌≡◌, refl}
use tps.Fakes.Table.{Interface, Fake, find_key}
use tps.Fakes.Kube.{Kube, Boxed}

pub data NamespaceMethod : Type 0 where
  create update update_status delete delete_collection get list watch finalize : NamespaceMethod

unfoldable pub namespace_discrete : Discrete NamespaceMethod
namespace_discrete = hlevel

-- The keys of the invocations.
abbrev pub namespace_key : NamespaceMethod → Str
namespace_key create = bytes "Create"
namespace_key update = bytes "Update"
namespace_key update_status = bytes "UpdateStatus"
namespace_key delete = bytes "Delete"
namespace_key delete_collection = bytes "DeleteCollection"
namespace_key get = bytes "Get"
namespace_key list = bytes "List"
namespace_key watch = bytes "Watch"
namespace_key finalize = bytes "Finalize"

abbrev pub namespace_methods : List NamespaceMethod
namespace_methods =
    create ∷ update ∷ update_status ∷ delete ∷ delete_collection ∷ get ∷ list ∷ watch ∷ finalize
    ∷ []

abbrev pub namespace_named : Str → Option NamespaceMethod
namespace_named = find_key namespace_key namespace_methods

pub namespace_named-key : (m : NamespaceMethod) → namespace_named (namespace_key m) ≡ some m
unfolding find_key str_eq
namespace_named-key create = refl
namespace_named-key update = refl
namespace_named-key update_status = refl
namespace_named-key delete = refl
namespace_named-key delete_collection = refl
namespace_named-key get = refl
namespace_named-key list = refl
namespace_named-key watch = refl
namespace_named-key finalize = refl

module _ (k : Kube) where
  abbrev pub NamespaceArgs : NamespaceMethod → Type 0
  NamespaceArgs create = Option k.Namespace
  NamespaceArgs update = Option k.Namespace
  NamespaceArgs update_status = Option k.Namespace
  NamespaceArgs delete = Str × Option k.DeleteOptions
  NamespaceArgs delete_collection = Option k.DeleteOptions × k.ListOptions
  NamespaceArgs get = Str
  NamespaceArgs list = k.ListOptions
  NamespaceArgs watch = k.ListOptions
  NamespaceArgs finalize = Option k.Namespace

  -- The results; the zero value of each is nil.
  abbrev pub NamespaceAnswer : NamespaceMethod → Type 0
  NamespaceAnswer create = Option k.Namespace × Option k.Error
  NamespaceAnswer update = Option k.Namespace × Option k.Error
  NamespaceAnswer update_status = Option k.Namespace × Option k.Error
  NamespaceAnswer delete = Option k.Error
  NamespaceAnswer delete_collection = Option k.Error
  NamespaceAnswer get = Option k.Namespace × Option k.Error
  NamespaceAnswer list = Option k.NamespaceList × Option k.Error
  NamespaceAnswer watch = Option k.Watch × Option k.Error
  NamespaceAnswer finalize = Option k.Namespace × Option k.Error

  abbrev pub namespace_zero : (m : NamespaceMethod) → NamespaceAnswer m
  namespace_zero create = (none, none)
  namespace_zero update = (none, none)
  namespace_zero update_status = (none, none)
  namespace_zero delete = none
  namespace_zero delete_collection = none
  namespace_zero get = (none, none)
  namespace_zero list = (none, none)
  namespace_zero watch = (none, none)
  namespace_zero finalize = (none, none)

  -- What `recordInvocation` is given of the arguments.
  abbrev pub namespace_box : (m : NamespaceMethod) → NamespaceArgs m → List (Boxed k)
  namespace_box create object = Boxed.namespace object ∷ []
  namespace_box update object = Boxed.namespace object ∷ []
  namespace_box update_status object = Boxed.namespace object ∷ []
  namespace_box delete (name, options) = Boxed.text name ∷ Boxed.delete_options options ∷ []
  namespace_box delete_collection (options, list_options) =
      Boxed.delete_options options ∷ Boxed.list_options list_options ∷ []
  namespace_box get name = Boxed.text name ∷ []
  namespace_box list opts = Boxed.list_options opts ∷ []
  namespace_box watch opts = Boxed.list_options opts ∷ []
  namespace_box finalize item = Boxed.namespace item ∷ []

  abbrev pub namespace_interface : Interface
  namespace_interface = record {
    Name = NamespaceMethod;
    discrete = namespace_discrete;
    Args = NamespaceArgs;
    Answer = NamespaceAnswer;
    Boxed = Boxed k;
    zero = namespace_zero;
    key = namespace_key;
    box = namespace_box;
    named = namespace_named;
    named-key = namespace_named-key;
  }

  -- `FakeNamespace`
  abbrev pub FakeNamespace : Type 0
  FakeNamespace = Fake namespace_interface
