-- ===== src/Binary.antt =====
-- The server's binary: d-lmdb-server/src/main.rs, and `serve` of d-lmdb-server/src/http/mod.rs.
pub mod Locks
use d_lmdb.Base.{ℕ, Bool, true, false, Option, none, some, Result, ok, err, map_err}
use d_lmdb.Bytes.{Bytes, ascii, starts_with}
use d_lmdb.Lmdb.{Lmdb}
use d_lmdb.Wal.{Codec}
use d_lmdb.Config.{LmdbFileSection}
use d_lmdb.Db.Types.{Error, ClientApiError}
use d_lmdb.Host.{Host}
use d_lmdb.Open.{Opened, open_from_file, drop_state_machine}
use d_lmdb.Open.Cluster.{Cluster}
use d_lmdb.Programs.{Node}
use d_lmdb.Http.Error.{set_local_http_port}
use d_lmdb.Http.Response.{Response}
use d_lmdb.Http.Kv.{Context, ConsistencyLevel}
use d_lmdb.Http.Server.{route, app}
use d_lmdb.Http.Health.{StatusResponse, Target, routes}

-- `std::io::Error`: one of the system's, or one made with a kind from another error
pub data IoError : Type 0 where
  system : Bytes → IoError
  invalid_data : Bytes → IoError
  other : Error → IoError

abbrev pub IoStep : Type 0 → Type 0 → Type 0
IoStep W A = W → W × Result A IoError

abbrev pub after : {W A B : Type 0} → W × Result A IoError → (A → IoStep W B) → W × Result B IoError
after (w, ok a) next = next a w
after (w, err e) next = (w, err e)

infixl 5 ◌>>=◌
unfoldable pub ◌>>=◌ : {W A B : Type 0} → IoStep W A → (A → IoStep W B) → IoStep W B
◌>>=◌ first next w = after (first w) next

-- an operation, with its error converted by `?` or `map_err`
unfoldable pub converted : {W A E : Type 0} → (E → IoError) → (W → W × Result A E) → IoStep W A
converted f m w = let (w', r) = m w in (w', map_err f r)

-- a value that is dropped at the end of its scope, whatever the rest gives
unfoldable pub finally : {W A : Type 0} → (W → W) → IoStep W A → IoStep W A
finally cleanup m w = let (w', r) = m w in (cleanup w', r)

-- What the binary uses of files, of TCP, of the `toml` parser and of `axum`. A time to wait is in
-- seconds. `listen_address_of` parses a file's text and gives its `http.listen_address`;
-- `serve_requests` runs until it fails. `drop_engine` drops an engine that was not stopped.
pub record Process {W : Type 0} {L : Lmdb} (host : Host W L) : Type 1 where
  pub PathBuf : Type 0
  pub SocketAddr : Type 0
  pub TcpStream : Type 0
  pub Listener : Type 0
  pub to_str : PathBuf → Option Bytes
  pub port : SocketAddr → ℕ
  pub listen_address_of : Bytes → Result SocketAddr Bytes
  pub read_to_string : PathBuf → W → W × Result Bytes Bytes
  pub connect_timeout : SocketAddr → ℕ → W → W × Result TcpStream Bytes
  pub set_read_timeout : TcpStream → ℕ → W → W
  pub write_all : TcpStream → Bytes → W → W × Result (Unit {0}) Bytes
  pub read_response : TcpStream → W → W × Result Bytes Bytes
  pub drop_stream : TcpStream → W → W
  pub bind : SocketAddr → W → W × Result Listener Bytes
  pub serve_requests : Listener → (Target → W → W × Response) → W → W × Result (Unit {0}) Bytes
  pub drop_engine : host.Engine → W → W

pub data Command (PathBuf : Type 0) : Type 0 where
  serve healthcheck : PathBuf → Command PathBuf

-- how the process ends: `main` returns, or `exit`
pub data Ended : Type 0 where
  returned : Result (Unit {0}) IoError → Ended
  exited : ℕ → Ended

module _ {W : Type 0} {L : Lmdb} (host : Host W L) (p : Process host) where
  unfoldable pub read_http_listen_address : p.PathBuf → IoStep W p.SocketAddr
  read_http_listen_address config = do
    text ← converted system (p.read_to_string config)
    converted invalid_data (λ w. (w, p.listen_address_of text))

  abbrev pub status_request : Bytes
  status_request = ascii "GET /status HTTP/1.1\r\nHost: localhost\r\nConnection: close\r\n\r\n"

  -- the answer of the rest of the function to a response that was read, or not
  abbrev pub answered : Result Bytes Bytes → Bool
  answered (ok response) = starts_with (ascii "HTTP/1.1 200") response
  answered (err e) = false

  abbrev pub read_after : p.TcpStream → W × Result (Unit {0}) Bytes → W × Bool
  read_after stream (w, err e) = (w, false)
  read_after stream (w, ok u) = let (w', r) = p.read_response stream w in (w', answered r)

  -- the stream is dropped where the function returns
  abbrev pub probe_over : W × Result p.TcpStream Bytes → W × Bool
  probe_over (w, err e) = (w, false)
  probe_over (w, ok stream) =
      let (w', healthy) =
        read_after stream (p.write_all stream status_request (p.set_read_timeout stream 2 w)) in
      (p.drop_stream stream w', healthy)

  unfoldable pub probe_status_endpoint : p.SocketAddr → W → W × Bool
  probe_status_endpoint addr w = probe_over (p.connect_timeout addr 2 w)

  -- `exit` where the node is not healthy
  abbrev pub exit_by : W × Bool → W × Ended
  exit_by (w, true) = (w, returned (ok tt))
  exit_by (w, false) = (w, exited 1)

  abbrev pub probed : W × Result p.SocketAddr IoError → W × Ended
  probed (w, err e) = (w, returned (err e))
  probed (w, ok addr) = exit_by (probe_status_endpoint addr w)

  module _ (C : Codec) (cluster : Cluster host) (n : Node W L)
      (parse : Bytes → Result LmdbFileSection Bytes) (c : Context)
      (to_json : StatusResponse cluster.LeaderInfo → Bytes)
      (confirm : ConsistencyLevel → Bytes → W → Result (Option Bytes) ClientApiError)
      (limit_layer : ℕ → (Target → W → W × Response) → Target → W → W × Response) where
    -- the routes on a handle, where `port` is the port that was set for this process
    abbrev pub router : Opened host C → Option ℕ → Target → W → W × Response
    router db port = routes host C cluster to_json db (λ req w.
        route (record c { local_port = port }) n.submit n.handle n.keep confirm (n.clock w) req w)

    -- the port has not been set before
    unfoldable pub serve_http : Opened host C → p.SocketAddr → IoStep W (Unit {0})
    serve_http db addr = do
      listener ← converted system (p.bind addr)
      converted system (
          p.serve_requests listener
            (app c.axum limit_layer db.db (router db (set_local_http_port none (p.port addr)))))

    -- `Drop` of a handle that was not closed, by its fields in their order
    unfoldable pub drop_db : Opened host C → W → W
    drop_db o w =
        host.drop_file o.data_dir_lock
          (drop_state_machine host C (n.handle w).state_machine (p.drop_engine o.inner w))

    -- `main` for `serve`; the handle that was opened is part of the world from then on
    unfoldable pub serve_command : p.PathBuf → IoStep W (Unit {0})
    serve_command config = do
      db ← converted other (open_from_file host C parse (p.to_str config))
      finally (drop_db db) do
        held ← (λ w. (n.keep db.db w, ok tt))
        addr ← read_http_listen_address config
        serve_http db addr

    abbrev pub run_serve : p.PathBuf → W → W × Ended
    run_serve config w = let (w', r) = serve_command config w in (w', returned r)

    unfoldable pub main : Command p.PathBuf → W → W × Ended
    main (serve config) w = run_serve config w
    main (healthcheck config) w = probed (read_http_listen_address config w)
