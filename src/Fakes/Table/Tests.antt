-- ===== src/Fakes/Table/Tests.antt =====
-- The fake of the pods in a test, and the theorems on fakes at it.
use tps.Base.{Str, bytes, none, some, List, [], ◌∷◌, ◌≡◌, refl, ok}
use tps.Fakes.{record_invocation, at, call}
use tps.Fakes.Kube.{Kube}
use tps.Fakes.Table.{
  Interface, new_fake, call_method, call_count, set_method_returns, set_stub, Action, calls,
  returns, act, run, operations,
}
use tps.Fakes.Table.Laws.{Agrees, run-new_fake-Agrees, args_for_call-call_method}
use tps.Fakes.Table.Answers.{call_method-answers}
use tps.Fakes.Pods.{PodMethod, PodAnswer, pod_interface, pod_discrete, FakePod}
use tps.Fakes.Pods.Methods

-- Every type of Kubernetes is that of texts.
abbrev kube : Kube
kube = record {
  Pod = Str;
  PodList = List Str;
  Namespace = Str;
  NamespaceList = Str;
  ReplicationController = Str;
  ReplicationControllerList = Str;
  Binding = Str;
  PodLogOptions = Str;
  DeleteOptions = Str;
  ListOptions = Str;
  Watch = Str;
  RestRequest = Str;
  Error = Str;
}

abbrev pods : Interface
pods = pod_interface kube

abbrev listed : PodAnswer kube PodMethod.list
listed = (some (bytes "p" ∷ []), none)

abbrev actions : List (Action pods)
actions =
    returns PodMethod.list listed
    ∷ calls PodMethod.list (bytes "all")
    ∷ calls PodMethod.get (bytes "p")
    ∷ calls PodMethod.list (bytes "some")
    ∷ []

abbrev used : FakePod kube
used = run pods (new_fake pods) actions

-- The third call of the fake is the second of its method.
listed_twice : (Methods.list kube).call_count used ≡ 2
unfolding operations call_count run act call_method set_method_returns call tps.Fakes.set_returns
    pod_discrete
listed_twice = refl

run-new_fake-Agrees_example : Agrees pods used
run-new_fake-Agrees_example = run-new_fake-Agrees pods actions

args_for_call-call_method_example :
    (Methods.get kube).args_for_call
      (run pods ((Methods.get kube).call used (bytes "q")).0 actions)
      ((Methods.get kube).call_count used)
    ≡ ok (bytes "q")
args_for_call-call_method_example =
    args_for_call-call_method pods used PodMethod.get (bytes "q") actions

abbrev others : List (Action pods)
others = calls PodMethod.list (bytes "all") ∷ returns PodMethod.get (none, none) ∷ []

call_method-answers_example :
    (((Methods.list kube).call
        (run pods ((Methods.list kube).returns used listed) others)
        (bytes "all")).1
      ≡ listed)
    × (((Methods.list kube).call
          (run pods (set_stub pods used PodMethod.list (λ opts. listed)) others)
          (bytes "all")).1
        ≡ listed)
call_method-answers_example =
    call_method-answers pods used PodMethod.list listed (λ opts. listed) others (bytes "all")
      ((λ e. e), ((λ e. cc), tt))
