-- ===== src/Listener/Settings.antt =====
-- cmd/tps-listener/main.go: the flags of the listener.
use tps.Base.{Str, bytes, pos, true, List, [], ◌∷◌}
use tps.Flags.{Flag, Value, text, number, boolean}

abbrev pub listen_addr : Str
listen_addr = bytes "listenAddr"

abbrev pub kube_cluster : Str
kube_cluster = bytes "kubeCluster"

abbrev pub kube_ca_cert : Str
kube_ca_cert = bytes "kubeCACert"

abbrev pub kube_client_cert : Str
kube_client_cert = bytes "kubeClientCert"

abbrev pub kube_client_key : Str
kube_client_key = bytes "kubeClientKey"

abbrev pub consul_cluster : Str
consul_cluster = bytes "consulCluster"

abbrev pub max_in_flight_requests : Str
max_in_flight_requests = bytes "maxInFlightRequests"

abbrev pub traffic_controller_url : Str
traffic_controller_url = bytes "trafficControllerURL"

abbrev pub skip_ssl_verification : Str
skip_ssl_verification = bytes "skipSSLVerification"

abbrev pub bulk_lrp_status_workers : Str
bulk_lrp_status_workers = bytes "bulkLRPStatusWorkers"

abbrev pub dropsonde_port : Str
dropsonde_port = bytes "dropsondePort"

abbrev pub dropsonde_origin : Str
dropsonde_origin = bytes "tps_listener"

abbrev flag : Str → Value → Flag
flag name value = record { name = name; value = value }

-- The flags that the file declares, with their defaults.
unfoldable pub listener_flags : List Flag
listener_flags =
    flag listen_addr (text (bytes "0.0.0.0:1518"))
    ∷ flag dropsonde_port (number (pos 3457))
    ∷ flag traffic_controller_url (text [])
    ∷ flag skip_ssl_verification (boolean true)
    ∷ flag max_in_flight_requests (number (pos 200))
    ∷ flag kube_cluster (text [])
    ∷ flag kube_ca_cert (text [])
    ∷ flag kube_client_cert (text [])
    ∷ flag kube_client_key (text [])
    ∷ flag bulk_lrp_status_workers (number (pos 15))
    ∷ flag consul_cluster (text [])
    ∷ []
