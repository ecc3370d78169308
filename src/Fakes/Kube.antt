-- ===== src/Fakes/Kube.antt =====
-- The types of Kubernetes that the fakes of its clients record and return. Their code is not in the
-- repository: each is a type of its own, and a pointer is an option.
use tps.Base.{Str, Option}

pub record Kube : Type 1 where
  pub Pod : Type 0
  pub PodList : Type 0
  pub Namespace : Type 0
  pub NamespaceList : Type 0
  pub ReplicationController : Type 0
  pub ReplicationControllerList : Type 0
  pub Binding : Type 0
  pub PodLogOptions : Type 0
  pub DeleteOptions : Type 0
  pub ListOptions : Type 0
  pub Watch : Type 0
  pub RestRequest : Type 0
  pub Error : Type 0

-- An argument as an `interface{}`.
pub data Boxed (k : Kube) : Type 0 where
  text : Str → Boxed k
  pod : Option k.Pod → Boxed k
  namespace : Option k.Namespace → Boxed k
  replication_controller : Option k.ReplicationController → Boxed k
  binding : Option k.Binding → Boxed k
  pod_log_options : Option k.PodLogOptions → Boxed k
  delete_options : Option k.DeleteOptions → Boxed k
  list_options : k.ListOptions → Boxed k
