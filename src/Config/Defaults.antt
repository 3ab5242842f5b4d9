-- ===== src/Config/Defaults.antt =====
-- The defaults of d-lmdb/src/config.rs, which it has in two places.
use d_lmdb.Base.{ℕ, ◌*◌, ◌<◌, ◌^◌, ◌≡◌, refl, some, none, Result, ok, arith}
use d_lmdb.Bytes.{Bytes}
use d_lmdb.Config.{LmdbFileSection, new, of_section, path_text, from_file}

-- A file that gives the data directory alone makes the configuration that `new` makes of it, and a
-- file's map size below 2 ^ 34 is taken as so many times 2 ^ 30 bytes, with no wrap.
pub from_file-new :
    (parse : Bytes → Result LmdbFileSection Bytes) (file dir : Bytes) (gb keys values : ℕ)
    → gb < 2 ^ 34
    → parse file
      ≡ ok (record {
        data_dir = dir;
        map_size_gb = none;
        max_key_bytes = none;
        max_value_bytes = none;
      })
    → (from_file parse (some file) ≡ ok (new dir))
      × ((of_section (record {
        data_dir = dir;
        map_size_gb = some gb;
        max_key_bytes = some keys;
        max_value_bytes = some values;
      })).map_size_gb
          ≡ gb * 2 ^ 30)
unfolding from_file of_section new path_text
from_file-new parse file dir gb keys values h parsed = (rw parsed refl, omega arith)
