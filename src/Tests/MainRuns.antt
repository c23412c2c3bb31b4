-- ===== src/Tests/MainRuns.antt =====
-- Runs of the start of an agent.
use cmx_rdma.Base.{◌≡◌, refl, true, none, some, List, [], ◌∷◌, arith, bytes_eq}
use cmx_rdma.Agent.Config.{AgentConfig, default_config, default_memory}
use cmx_rdma.Agent.Config.Valid.{IsValid}
use cmx_rdma.Agent.Service.{composite_key}
use cmx_rdma.Agent.Grpc.Fetch.{GetRequest}
use cmx_rdma.Agent.Main.{Environment, load_config, Agent, serves, main}
use cmx_rdma.Agent.Main.Started.{main-serves, serves-IsValid}
use cmx_rdma.Agent.Main.Serving.{nothing_stored, thresholds, main-exact}
use cmx_rdma.Agent.Grpc.Store
use cmx_rdma.Agent.Sessions.{Event, stores, ticks, deletes, run, learned}
use cmx_rdma.Agent.Sessions.Exact.{Answers}
use cmx_rdma.Tests.ServiceRuns.{hash, other_hash, request, chunks}
use cmx_rdma.Tests.Data.{crates, hundredths, zeros}
use cmx_rdma.Tests.Cluster.{etcd, node_json}
use cmx_rdma.Tests.AgentRuns.{any_address, config, default_valid}

-- No configuration file; a host name; everything else succeeds.
abbrev environment : Environment hundredths
environment = record {
  config_file = none;
  from_str = λ text. none;
  is_socket_addr = any_address;
  env_node_id = none;
  hostname = some (104 ∷ 0 ∷ 0 ∷ []);
  exporter = true;
  next_pool_id = 0;
  mapped = some zeros;
}

loaded : load_config environment ≡ some config
unfolding load_config
loaded = refl

-- A store, a tick and a deletion of another key.
abbrev events : List Event
events = stores 6 (Store.header request ∷ chunks) ∷ ticks ∷ deletes hash ∷ []

abbrev get_request : GetRequest
get_request = record { prefix_hash = other_hash; model_id = [] }

main-exact_example :
    (agent : Agent crates etcd node_json hundredths) × (main crates etcd node_json hundredths
        environment
      ≡ serves agent)
    × Answers crates get_request 0
        (run crates hundredths (thresholds config) events agent.service)
        (learned crates hundredths
          (thresholds config)
          events
          agent.service
          nothing_stored
          (composite_key crates.sha256 [] other_hash))
unfolding default_config default_memory
main-exact_example =
    main-exact crates etcd node_json hundredths environment config zeros events get_request 0 loaded
      default_valid (omega arith) (omega arith) (omega arith) (omega arith) refl refl refl refl refl

serves_agent :
    (agent : Agent crates etcd node_json hundredths) × (main crates etcd node_json hundredths
        environment
      ≡ serves agent)
unfolding default_config default_memory
serves_agent =
    let (agent, serving, _, _, _, _) =
      main-serves crates etcd node_json hundredths environment config zeros loaded default_valid
        (omega arith) (omega arith) (omega arith) refl refl refl refl in
    (agent, serving)

serves-IsValid_example :
    (read : AgentConfig hundredths) × (load_config environment ≡ some read)
    × IsValid hundredths any_address read
    × (environment.exporter ≡ true)
    × (any_address read.metrics.listen_addr ≡ true)
serves-IsValid_example =
    serves-IsValid crates etcd node_json hundredths environment serves_agent.0 serves_agent.1
