-- ===== src/Daemon/Cache.antt =====
-- src/daemon.rs: the cache of the lighting that was last applied, for the controller that cannot be
-- read.
pub mod Kept
mod Examples
use asense.Base.{
  ltb, leb, not, ◌==◌, if◌then◌else◌, length, ℕ, ◌+◌, Bool, true, false, Option, none, some, List,
  [], ◌∷◌, ◌++◌,
}
use asense.Base.Text.{Bytes}
use asense.Result.{Result, ok, err, ensure, ◌>>=◌, ◌>>◌}
use asense.Lighting.{LightingTarget, target_eq, LightingRequest}

abbrev pub max_lighting_cache_bytes : ℕ
max_lighting_cache_bytes = 2048

abbrev pub max_cached_lighting_targets : ℕ
max_cached_lighting_targets = 4

pub record CachedLighting : Type 0 where
  pub schema : ℕ
  pub requests : List LightingRequest

pub data CacheError : Type 0 where
  cannot_open cannot_read too_large invalid_cache unsupported_schema : CacheError
  too_many_targets cannot_encode cannot_create cannot_write : CacheError

-- what opening the file and reading at most so many bytes of it gives
pub data CacheRead : Type 0 where
  not_found open_failed read_failed : CacheRead
  bytes_read : Bytes → CacheRead

-- The cache file in its directory, and `serde_json` for its contents.
pub record CacheFile : Type 1 where
  pub World : Type 0
  pub read_at_most : ℕ → World → CacheRead
  pub create_dir_all : World → Bool × World
  pub write_all : Bytes → World → Bool × World
  pub to_vec : CachedLighting → Option Bytes
  pub from_slice : Bytes → Option CachedLighting

abbrev pub retain_others : LightingTarget → List LightingRequest → List LightingRequest
retain_others target [] = []
retain_others target (cached ∷ more) =
    let rest = retain_others target more in
    if target_eq cached.target target then rest else cached ∷ rest

-- `retain` and `push`
unfoldable pub replace : List LightingRequest → LightingRequest → List LightingRequest
replace cached request = retain_others request.target cached ++ request ∷ []

abbrev pub check_cached : CachedLighting → Result CacheError (List LightingRequest)
check_cached cached =
    if not (cached.schema == 1)
    then err unsupported_schema
    else if ltb max_cached_lighting_targets (length cached.requests)
    then err too_many_targets
    else ok cached.requests

module _ (file : CacheFile) where
  open file use {World, read_at_most, create_dir_all, write_all, to_vec, from_slice}

  abbrev pub parse_cached : Bytes → Result CacheError (List LightingRequest)
  parse_cached bytes =
      if ltb max_lighting_cache_bytes (length bytes)
      then err too_large
      else elim (from_slice bytes) [ none ↦ err invalid_cache | some cached ↦ check_cached cached ]

  abbrev pub loaded : CacheRead → Result CacheError (List LightingRequest)
  loaded not_found = ok []
  loaded open_failed = err cannot_open
  loaded read_failed = err cannot_read
  loaded (bytes_read bytes) = parse_cached bytes

  unfoldable pub load_cached_lighting : World → Result CacheError (List LightingRequest)
  load_cached_lighting w = loaded (read_at_most (max_lighting_cache_bytes + 1) w)

  abbrev pub finish_write : Bool × World → Result CacheError Unit × World
  finish_write (true, w) = (ok tt, w)
  finish_write (false, w) = (err cannot_write, w)

  abbrev pub store_in : Bytes → Bool × World → Result CacheError Unit × World
  store_in bytes (true, w) = finish_write (write_all bytes w)
  store_in bytes (false, w) = (err cannot_create, w)

  abbrev pub store_bytes : Option Bytes → World → Result CacheError Unit × World
  store_bytes none w = (err cannot_encode, w)
  store_bytes (some bytes) w =
      if ltb max_lighting_cache_bytes (length bytes)
      then (err too_large, w)
      else store_in bytes (create_dir_all w)

  abbrev pub save_into :
      Result CacheError (List LightingRequest)
      → LightingRequest
      → World
      → Result CacheError Unit × World
  save_into (err e) request w = (err e, w)
  save_into (ok cached) request w =
      store_bytes (to_vec (record { schema = 1; requests = replace cached request })) w

  -- `save_cached_lighting_at`
  unfoldable pub save_cached_lighting : LightingRequest → World → Result CacheError Unit × World
  unfolding load_cached_lighting
  save_cached_lighting request w = save_into (load_cached_lighting w) request w
