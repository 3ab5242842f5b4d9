-- ===== src/Config.antt =====
-- d-lmdb/src/config.rs: the configuration of a node. The parser of files is a parameter: it gives
-- the section `[lmdb]` of a file, with the keys that the file has.
pub mod Defaults
use d_lmdb.Base.{ℕ, ◌*◌, ◌%◌, ◌^◌, Option, some, none, Result, ok, err, ◌>>=◌, map_err}
use d_lmdb.Bytes.{Bytes, ascii}
use d_lmdb.Db.Types.{Error, path, config_error}

pub record DLmdbConfig : Type 0 where
  pub data_dir : Bytes
  pub map_size_gb : ℕ
  pub max_key_bytes : ℕ
  pub max_value_bytes : ℕ

-- a section of a file; a key that is left out takes its default
pub record LmdbFileSection : Type 0 where
  pub data_dir : Bytes
  pub map_size_gb : Option ℕ
  pub max_key_bytes : Option ℕ
  pub max_value_bytes : Option ℕ

abbrev pub default_map_size_gb : ℕ
default_map_size_gb = 10

abbrev pub default_max_key_bytes : ℕ
default_max_key_bytes = 512

abbrev pub default_max_value_bytes : ℕ
default_max_value_bytes = 1024 * 1024

-- `#[serde(default = ..)]`
abbrev pub or_default : Option ℕ → ℕ → ℕ
or_default (some n) default = n
or_default none default = default

unfoldable pub new : Bytes → DLmdbConfig
new data_path = record {
  data_dir = data_path;
  map_size_gb = 10 * 1024 * 1024 * 1024;
  max_key_bytes = default_max_key_bytes;
  max_value_bytes = default_max_value_bytes;
}

-- the configuration of a section; the size is computed in 64 bits, as a release build does
unfoldable pub of_section : LmdbFileSection → DLmdbConfig
of_section s = record {
  data_dir = s.data_dir;
  map_size_gb = (or_default s.map_size_gb default_map_size_gb * 1024 * 1024 * 1024) % 2 ^ 64;
  max_key_bytes = or_default s.max_key_bytes default_max_key_bytes;
  max_value_bytes = or_default s.max_value_bytes default_max_value_bytes;
}

-- `to_str().ok_or_else(..)`: a path that is not UTF-8 has no text
unfoldable pub path_text : Option Bytes → Result Bytes Error
path_text none = err (path (ascii "path is not valid UTF-8"))
path_text (some text) = ok text

unfoldable pub from_file :
    (Bytes → Result LmdbFileSection Bytes) → Option Bytes → Result DLmdbConfig Error
from_file parse file = do
  path_str ← path_text file
  root ← map_err config_error (parse path_str)
  ok (of_section root)
