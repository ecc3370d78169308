-- ===== src/Listener/Start.antt =====
-- When the listener starts, and with which runners.
use tps.Base.{
  str_eq, [], ◌∷◌, if◌then◌else◌, ℕ, ℤ, pos, negsuc, Str, bytes, true, Option-cases, none, some,
  List, ◌≡◌, ◌≢◌, ◌↔◌, refl, arith, inl, inr, ◌⊎◌,
}
use tps.Flags.{boolean_of, Flag, text_of, number_of}
use tps.Handler.Table.{new}
use tps.Listener.{
  KubeConfig, kube_cluster, kube_client_cert, kube_client_key, kube_ca_cert, max_in_flight_requests,
  traffic_controller_url, skip_ssl_verification, api, debug_server, listen_addr, consul_cluster,
  bulk_lrp_status_workers, starts, System, Member, registration_runner, noaa_consumer_of,
  kube_config_of, max_in_flight_of, members_of, start,
}

ℤ-cases : (n : ℤ) → ((m : ℕ) × (n ≡ pos m)) ⊎ ((m : ℕ) × (n ≡ negsuc m))
ℤ-cases (pos m) = inl (m, refl)
ℤ-cases (negsuc m) = inr (m, refl)

module _ {Router : Type 0} (system : System Router) (flags : List Flag) where
  -- The cluster, with the host and the files of the flags.
  abbrev pub cluster : KubeConfig
  cluster = record {
    host = text_of kube_cluster flags;
    cert_file = text_of kube_client_cert flags;
    key_file = text_of kube_client_key flags;
    ca_file = text_of kube_ca_cert flags;
  }

  -- All that the listener needs: the clients of Kubernetes and consul, a limit of size `m` for which
  -- there is a router, and an address with a port.
  pub record IsReady (m port : ℕ) : Type 0 where
    pub kubernetes : system.new_k8s_client cluster ≡ true
    pub limit : number_of max_in_flight_requests flags ≡ pos m
    pub routed : new system.new_router m ≢ none
    pub consul : system.new_consul_client (text_of consul_cluster flags) ≡ true
    pub address :
        (host : Str) × (service : Str) × (system.split_host_port (text_of listen_addr flags)
          ≡ some (host, service))
        × (system.lookup_port service ≡ some port)

  -- The group of a listener with that limit and that port.
  abbrev pub group_of : ℕ → ℕ → List Member
  group_of m port =
      let served =
        api (text_of listen_addr flags) (record {
          kube = cluster;
          noaa = record {
            traffic_controller_url = text_of traffic_controller_url flags;
            insecure_skip_verify = boolean_of skip_ssl_verification flags;
          };
          max_in_flight = m;
          bulk_lrp_status_workers = number_of bulk_lrp_status_workers flags;
        })
        ∷ registration_runner (record { name = bytes "tps"; port = port; ttl = bytes "3s" })
            (text_of consul_cluster flags) system.locket_retry_interval
        ∷ [] in
      if str_eq (system.debug_address flags) []
      then served
      else debug_server (system.debug_address flags) ∷ served

  start_group :
      (ms : List Member)
      → start system flags ≡ starts ms
      → (m : ℕ) × (port : ℕ) × IsReady m port × (ms ≡ group_of m port)
  unfolding start kube_config_of noaa_consumer_of max_in_flight_of members_of
  start_group ms h = elim (ℤ-cases (max_in_flight_of flags)) [
    | inl (m, limit) ↦ elim (Option-cases (new system.new_router m)) [
      | inl unrouted ↦ absurd (ground arith)
      | inr (router, made) ↦
          elim (Option-cases (system.split_host_port (text_of listen_addr flags))) [
            | inl e ↦ absurd (ground arith)
            | inr ((host, service), e) ↦ elim (Option-cases (system.lookup_port service)) [
              | inl f ↦ absurd (ground arith)
              | inr (port, f) ↦ (
                m,
                port,
                record {
                  kubernetes = ground arith;
                  limit = limit;
                  routed = λ n. ground arith;
                  consul = ground arith;
                  address = (host, service, e, f);
                },
                ground arith,
              )
            ]
          ]
    ]
    | inr (m, e) ↦ absurd (ground arith)
  ]

  group_starts : (m port : ℕ) → IsReady m port → start system flags ≡ starts (group_of m port)
  unfolding start kube_config_of noaa_consumer_of max_in_flight_of members_of
  group_starts m port ready =
      let (host, service, split, found) = ready.address in
      elim (Option-cases (new system.new_router m)) [
        | inl f ↦ absurd (ready.routed f)
        | inr (router, f) ↦
            ground (arith, ready.kubernetes, ready.consul, split, found, ready.limit, f)
      ]

  -- The listener starts a group of runners exactly if its clients of Kubernetes and consul can be
  -- made, its limit on the requests is a size for which the router takes the handlers, and its address
  -- names a port. The group then is the debug server, if that has an address, the server of the
  -- handler with the limit, the workers, the cluster and the traffic controller of the flags, and the
  -- registration of the port with consul, in this order.
  pub start-starts_iff :
      (ms : List Member)
      → (start system flags ≡ starts ms)
        ↔ ((m : ℕ) × (port : ℕ) × IsReady m port × (ms ≡ group_of m port))
  start-starts_iff ms =
      (start_group ms, λ (m, port, ready, expected). rw expected (group_starts m port ready))
