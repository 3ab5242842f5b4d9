-- ===== src/Binary/Locks.antt =====
-- The lock of the data directory over a run of the server: d-lmdb-server/src/main.rs with
-- `DLmdb::open_from_file` of d-lmdb/src/db.rs.
use d_lmdb.Base.{ℕ, ◌≡◌, refl, ap, ◌∙◌, [], Option, Result, ok, err, Result-cases, inl, inr}
use d_lmdb.Bytes.{Bytes}
use d_lmdb.Lmdb.{Lmdb}
use d_lmdb.Wal.{Codec}
use d_lmdb.Db.Types.{Error, ClientApiError}
use d_lmdb.Config.{LmdbFileSection, path_text, from_file}
use d_lmdb.Host.{Host, IsHost, released}
use d_lmdb.Host
use d_lmdb.Db.Read.{DLmdb}
use d_lmdb.Open.{Opened, lock_path, open_from_file}
use d_lmdb.Open.Cluster.{Cluster}
use d_lmdb.Open.Steps.{Same}
use d_lmdb.Open.Acquire.{released_taken}
use d_lmdb.Open.Lock.{Locked, open_with_locks}
use d_lmdb.Programs.{Node}
use d_lmdb.Http.Response.{Response}
use d_lmdb.Http.Kv.{Context, ConsistencyLevel}
use d_lmdb.Http.Health.{StatusResponse, Target}
use d_lmdb.Binary.{
  IoError, other, IoStep, after, ◌>>=◌, converted, finally, Process, read_http_listen_address,
  serve_http, drop_db, serve_command,
}

-- Nothing of what the server does with files, TCP and its handle, and no request that it serves, takes
-- or releases a lock.
pub record IsQuiet {W : Type 0} {L : Lmdb} (host : Host W L) (is : IsHost host) (p : Process host)
    (n : Node W L) : Type 0 where
  pub keep_keeps : (d : DLmdb L) (w : W) → Same host is w (n.keep d w)
  pub read_keeps : (path : p.PathBuf) (w : W) → Same host is w (p.read_to_string path w).0
  pub bind_keeps : (addr : p.SocketAddr) (w : W) → Same host is w (p.bind addr w).0
  pub serve_keeps :
      (l : p.Listener) (routes : Target → W → W × Response) (w : W)
      → Same host is w (p.serve_requests l routes w).0
  pub drop_engine_keeps : (e : host.Engine) (w : W) → Same host is w (p.drop_engine e w)

module _ {W : Type 0} {L : Lmdb} (host : Host W L) (is : IsHost host) where
  abbrev Keeps : {A : Type 0} → IoStep W A → Type 0
  Keeps m = (w : W) → Same host is w (m w).0

  after-Same :
      {A B : Type 0} (w : W) (p : W × Result A IoError) (next : A → IoStep W B)
      → Same host is w p.0
      → ((a : A) → Keeps (next a))
      → Same host is w (after p next).0
  after-Same w (w', ok a) next s k q = k a w' q ∙ s q
  after-Same w (w', err e) next s k q = s q

  bind-Keeps :
      {A B : Type 0} (m : IoStep W A) (next : A → IoStep W B)
      → Keeps m
      → ((a : A) → Keeps (next a))
      → Keeps (m >>= next)
  unfolding ◌>>=◌
  bind-Keeps m next k l w = after-Same w (m w) next (k w) l

  converted-Keeps :
      {A E : Type 0} (f : E → IoError) (m : W → W × Result A E)
      → ((w : W) → Same host is w (m w).0)
      → Keeps (converted f m)
  unfolding converted
  converted-Keeps f m k = k

  module _ (C : Codec) (parse : Bytes → Result LmdbFileSection Bytes) where
    -- the lock that an attempt to open a configuration's directory is about
    open_from_file-Locked :
        (path : Option Bytes) (w : W)
        → (lock : Bytes) × Locked host C is w lock (open_from_file host C parse path w)
    unfolding open_from_file Host.◌>>=◌ Host.converted
    open_from_file-Locked path w = elim (Result-cases (path_text path)) [
      | inr (x, e) ↦ rw (e, Host.after) ([], λ q. refl)
      | inl (path_str, e) ↦ elim (Result-cases (from_file parse path)) [
        | inr (x, f) ↦ rw (e, f, Host.after) ([], λ q. refl)
        | inl (config, f) ↦
            rw (e, f, Host.after)
              (
                lock_path host C config.data_dir,
                open_with_locks host C is _
                    (λ wal m v q. is.start_custom_keeps config.data_dir wal m path_str v q)
                    config.data_dir config w,
              )
      ]
    ]

    module _ (cluster : Cluster host) (p : Process host) (n : Node W L)
        (quiet : IsQuiet host is p n) (c : Context)
        (to_json : StatusResponse cluster.LeaderInfo → Bytes)
        (confirm : ConsistencyLevel → Bytes → W → Result (Option Bytes) ClientApiError)
        (limit_layer : ℕ → (Target → W → W × Response) → Target → W → W × Response) where
      abbrev serving : p.PathBuf → Opened host C → IoStep W (Unit {0})
      serving config db = do
        held ← (λ w. (n.keep db.db w, ok tt))
        addr ← read_http_listen_address host p config
        serve_http host p C cluster n parse c to_json confirm limit_layer db addr

      serving-Keeps : (config : p.PathBuf) (db : Opened host C) → Keeps (serving config db)
      unfolding read_http_listen_address serve_http
      serving-Keeps config db =
          bind-Keeps _ _ (λ w. quiet.keep_keeps db.db w)
            λ u.
              bind-Keeps _ _
                (bind-Keeps _ _ (converted-Keeps _ _ (quiet.read_keeps config))
                  (λ text. converted-Keeps _ _ (λ w q. refl)))
                λ addr.
                  bind-Keeps _ _ (converted-Keeps _ _ (quiet.bind_keeps addr))
                    λ listener. converted-Keeps _ _ (quiet.serve_keeps listener _)

      dropped-Same :
          (w : W) (lock : Bytes) (o : W × Result (Opened host C) Error) (config : p.PathBuf)
          → Locked host C is w lock o
          → Same host is w
              (after (converted other (λ v. o) w) (λ db.
                finally
                  (drop_db host p C cluster n parse c to_json confirm limit_layer db)
                  (serving config db))).0
      unfolding converted finally drop_db
      dropped-Same w lock (w', err e) config same q = same q
      dropped-Same w lock (w', ok o) config (free, fresh, held) q =
          is.drop_releases _ _ q
          ∙ ap (released _) (
              is.drop_env_keeps _ _ q
              ∙ quiet.drop_engine_keeps _ _ q
              ∙ serving-Keeps config o w' q
              ∙ held q)
          ∙ released_taken _ (is.holder w) lock free fresh q

      pub serve_command_releases :
          (config : p.PathBuf) (w : W) (q : Bytes)
          → is.holder
              (serve_command host p C cluster n parse c to_json confirm limit_layer config w).0
              q
            ≡ is.holder w q
      unfolding serve_command ◌>>=◌ converted
      serve_command_releases config w q =
          let (lock, locked) = open_from_file-Locked (p.to_str config) w in
          dropped-Same w lock (open_from_file host C parse (p.to_str config) w) config locked q
