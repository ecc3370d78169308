-- ===== src/Runner.antt =====
-- cmd/tpsrunner/runner.go: the commands by which a test suite starts the two processes.
pub mod Args
pub mod Crashes
mod Tests
use tps.Base.{Str, bytes, List, [], ◌∷◌}

-- ginkgomon.Config, with the path and the arguments of its command.
pub record Config : Type 0 where
  pub name : Str
  pub path : Str
  pub args : List Str
  pub start_check : Str

-- `NewListener`
unfoldable pub new_listener : Str → Str → Str → Str → Str → Str → Str → Str → Config
new_listener bin listen_addr kube_cluster kube_client_cert kube_client_key kube_ca_cert
      traffic_controller_url consul_cluster =
    record {
      name = bytes "tps-listener";
      path = bin;
      args =
          bytes "-kubeCluster"
          ∷ kube_cluster
          ∷ bytes "-kubeClientCert"
          ∷ kube_client_cert
          ∷ bytes "-kubeClientKey"
          ∷ kube_client_key
          ∷ bytes "-kubeCACert"
          ∷ kube_ca_cert
          ∷ bytes "-listenAddr"
          ∷ listen_addr
          ∷ bytes "-trafficControllerURL"
          ∷ traffic_controller_url
          ∷ bytes "-skipSSLVerification"
          ∷ bytes "-consulCluster"
          ∷ consul_cluster
          ∷ [];
      start_check = bytes "tps-listener.started";
    }

-- `NewWatcher`
unfoldable pub new_watcher : Str → Str → Str → Str → Config
new_watcher bin bbs_address cc_base_url consul_cluster = record {
  name = bytes "tps-watcher";
  path = bin;
  args =
      bytes "-bbsAddress"
      ∷ bbs_address
      ∷ bytes "-ccBaseURL"
      ∷ cc_base_url
      ∷ bytes "-lockRetryInterval"
      ∷ bytes "1s"
      ∷ bytes "-consulCluster"
      ∷ consul_cluster
      ∷ [];
  start_check = bytes "tps-watcher.started";
}
