-- ===== src/Http/Error/Address.antt =====
-- The leader's address in d-lmdb-server/src/http/error.rs.
use d_lmdb.Base.{ℕ, ◌≡◌, ◌≢◌, ap, none, ◌∷◌, ◌++◌, All}
use d_lmdb.Bytes.{Bytes}
use d_lmdb.Text.{decimal}
use d_lmdb.Text.Split.{rsplit_once-append, rsplit_once-none}
use d_lmdb.Http.Error.{host_of, replace_port, rewrite_to_http_address, set_local_http_port}

-- no colon stands in a text
abbrev pub HasNoColon : Bytes → Type 0
HasNoColon s = All (λ x. x ≢ b':') s

-- With the node's port set to `port` first, whatever is set later, an address that ends in a colon
-- and a text without one keeps what stands before that colon, and gets the port in the text's place;
-- an address without a colon gets colon and port appended.
pub rewrite_port :
    (host peer : Bytes) (port later : ℕ)
    → HasNoColon peer
    → let set = set_local_http_port (set_local_http_port none port) later in
      (rewrite_to_http_address set (host ++ (b':' ∷ peer)) ≡ host ++ (b':' ∷ decimal port))
      × (rewrite_to_http_address set peer ≡ peer ++ (b':' ∷ decimal port))
unfolding set_local_http_port rewrite_to_http_address replace_port
rewrite_port host peer port later h = (
  ap (λ o. host_of (host ++ (b':' ∷ peer)) o ++ (b':' ∷ decimal port))
      (rsplit_once-append b':' host peer h),
  ap (λ o. host_of peer o ++ (b':' ∷ decimal port)) (rsplit_once-none b':' peer h),
)
