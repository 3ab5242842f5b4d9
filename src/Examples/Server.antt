-- ===== src/Examples/Server.antt =====
-- Runs of the server's binary and of its health endpoints, over a host of locks alone.
use d_lmdb.Base.{ℕ, ◌≡◌, refl, true, false, some, none, [], ◌∷◌, Result, ok, err}
use d_lmdb.Bytes.{Bytes, ascii}
use d_lmdb.Lmdb.Memory.{memory}
use d_lmdb.Config.{LmdbFileSection}
use d_lmdb.Open.{lock_path}
use d_lmdb.Open.Cluster.{Cluster}
use d_lmdb.Programs.{Node}
use d_lmdb.Http.Response.{Response}
use d_lmdb.Http.Server.{KvRequest}
use d_lmdb.Http.Health.{StatusResponse, Target, kv, primary, replica, status}
use d_lmdb.Http.Health.Answers.{Answers, served, health-Answers}
use d_lmdb.Binary.{Process, serve_command}
use d_lmdb.Binary.Locks.{IsQuiet, serve_command_releases}
use d_lmdb.Examples.Open.{Locks, host, host-IsHost, unlocked}
use d_lmdb.Examples.Open
use d_lmdb.Examples.Wal.{plain}
use d_lmdb.Examples.Http.{axum, reads_ascii, context}

-- this node follows node 2
abbrev cluster : Cluster host
cluster = record {
  LeaderInfo = ℕ;
  leader_id = λ l. l;
  wait_ready = λ e t w. (w, ok tt);
  leader_info = λ e w. some 2;
  is_leader = λ e w. false;
  membership = λ e w. record { members = 1 ∷ 2 ∷ []; learners = []; committed_index = 5 };
}

abbrev to_json : StatusResponse ℕ → Bytes
to_json r = r.members

abbrev kv_routes : KvRequest → Locks → Locks × Response
kv_routes req w = (w, record { status = 204; headers = []; body = ok [] })

-- the real layer refuses what is too large; here every key-value request is
abbrev limit_layer : ℕ → (Target → Locks → Locks × Response) → Target → Locks → Locks × Response
limit_layer limit router (kv req) w = (w, record { status = 413; headers = []; body = ok [] })
limit_layer limit router target w = router target w

abbrev answers : Target → Locks × Response
answers target =
    served axum host plain cluster to_json Open.node kv_routes limit_layer target unlocked

health-Answers_example :
    ((answers primary).0 ≡ unlocked)
    × Answers axum false (answers primary).1
    × ((answers replica).0 ≡ unlocked)
    × Answers axum true (answers replica).1
    × (answers status ≡ (
      unlocked,
      record {
        status = 200;
        headers = (ascii "content-type", ascii "application/json") ∷ [];
        body = ok (1 ∷ 2 ∷ []);
      },
    ))
health-Answers_example =
    health-Answers axum host plain cluster to_json Open.node kv_routes limit_layer unlocked
      reads_ascii refl refl refl

-- a server whose configuration is read, and whose port is taken
abbrev process : Process host
process = record {
  PathBuf = Bytes;
  SocketAddr = ℕ;
  TcpStream = Unit {0};
  Listener = Unit {0};
  to_str = λ path. some path;
  port = λ addr. addr;
  listen_address_of = λ text. ok 8080;
  read_to_string = λ path w. (w, ok (ascii "[http]"));
  connect_timeout = λ addr t w. (w, ok tt);
  set_read_timeout = λ s t w. w;
  write_all = λ s b w. (w, ok tt);
  read_response = λ s w. (w, ok (ascii "HTTP/1.1 200 OK"));
  drop_stream = λ s w. w;
  bind = λ addr w. (w, err (ascii "address in use"));
  serve_requests = λ l routes w. (w, ok tt);
  drop_engine = λ e w. w;
}

abbrev node : Node Locks memory
node = record {
  handle = λ w. Open.node.db;
  keep = λ d w. w;
  clock = λ w. 8;
  submit = λ r w. (w, ok true);
  confirm = λ key w. (w, ok none);
}

node-IsQuiet : IsQuiet host host-IsHost process node
node-IsQuiet = record {
  keep_keeps = λ d w q. refl;
  read_keeps = λ path w q. refl;
  bind_keeps = λ addr w q. refl;
  serve_keeps = λ l routes w q. refl;
  drop_engine_keeps = λ e w q. refl;
}

abbrev section_of : Bytes → Result LmdbFileSection Bytes
section_of path = ok (record {
  data_dir = ascii "data";
  map_size_gb = none;
  max_key_bytes = none;
  max_value_bytes = none;
})

serve_command_releases_example :
    host-IsHost.holder
      (serve_command host process plain cluster node section_of context to_json
        (λ level key w. ok none)
        (λ limit router. router)
        (ascii "config.toml")
        unlocked).0
      (lock_path host plain (ascii "data"))
    ≡ host-IsHost.holder unlocked (lock_path host plain (ascii "data"))
serve_command_releases_example =
    serve_command_releases host host-IsHost plain section_of cluster process node node-IsQuiet
      context to_json (λ level key w. ok none) (λ limit router. router) (ascii "config.toml")
      unlocked (lock_path host plain (ascii "data"))
