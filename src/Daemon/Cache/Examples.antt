-- ===== src/Daemon/Cache/Examples.antt =====
-- A lighting cache at concrete values.
use asense.Base.{
  ◌==◌, if◌then◌else◌, ℕ, ◌≡◌, refl, sym, subst, inr, true, Option, none, some, List, [], ◌∷◌,
  arith,
}
use asense.Base.Text.{Bytes}
use asense.Base.Hex.{Color}
use asense.Result.{ok}
use asense.Lighting.{
  target_eq, LightingTarget, LightingMode, LightingRequest, keyboard, cover_logo, rear_logo,
  lightbar, off, static, breathing, neon,
}
use asense.Daemon.Cache.{
  CachedLighting, CacheRead, not_found, bytes_read, CacheFile, replace, load_cached_lighting,
  save_cached_lighting,
}
use asense.Daemon.Cache.Kept.{
  request_held, IsCache, Faithful, Loads, load_cached_lighting-save_cached_lighting,
}

abbrev target_code : LightingTarget → ℕ
target_code keyboard = 0
target_code cover_logo = 1
target_code rear_logo = 2
target_code lightbar = 3

abbrev code_target : ℕ → LightingTarget
code_target n =
    if n == 0
    then keyboard
    else if n == 1
    then cover_logo
    else if n == 2
    then rear_logo
    else lightbar

abbrev mode_code : LightingMode → ℕ
mode_code off = 0
mode_code static = 1
mode_code breathing = 2
mode_code neon = 3

abbrev code_mode : ℕ → LightingMode
code_mode n = if n == 0 then off else if n == 1 then static else if n == 2 then breathing else neon

code_target-target_code : (t : LightingTarget) → code_target (target_code t) ≡ t
code_target-target_code keyboard = refl
code_target-target_code cover_logo = refl
code_target-target_code rear_logo = refl
code_target-target_code lightbar = refl

code_mode-mode_code : (m : LightingMode) → code_mode (mode_code m) ≡ m
code_mode-mode_code off = refl
code_mode-mode_code static = refl
code_mode-mode_code breathing = refl
code_mode-mode_code neon = refl

-- a library that encodes one request without colours of zones, and refuses the rest
abbrev encode_zones : ℕ → LightingRequest → List Color → Option Bytes
encode_zones schema q [] = some (
    schema
    ∷ target_code q.target
    ∷ mode_code q.mode
    ∷ q.brightness
    ∷ q.speed
    ∷ q.color.0
    ∷ q.color.1
    ∷ q.color.2
    ∷ [])
encode_zones schema q (c ∷ more) = none

abbrev encode_requests : ℕ → List LightingRequest → Option Bytes
encode_requests schema [] = none
encode_requests schema (q ∷ []) = encode_zones schema q q.zone_colors
encode_requests schema (q ∷ p ∷ more) = none

abbrev decode_one : Bytes → Option CachedLighting
decode_one (schema ∷ t ∷ m ∷ b ∷ v ∷ r ∷ g ∷ u ∷ []) = some (record {
  schema = schema;
  requests =
      record {
        target = code_target t;
        mode = code_mode m;
        brightness = b;
        speed = v;
        color = (r, g, u);
        zone_colors = [];
      }
      ∷ [];
})
decode_one _ = none

decode_one-zones :
    (schema : ℕ) (q : LightingRequest) (zones : List Color) (bytes : Bytes)
    → q.zone_colors ≡ zones
    → encode_zones schema q zones ≡ some bytes
    → decode_one bytes ≡ some (record { schema = schema; requests = q ∷ [] })
decode_one-zones schema q [] bytes h e =
    let same : (schema
          ∷ target_code q.target
          ∷ mode_code q.mode
          ∷ q.brightness
          ∷ q.speed
          ∷ q.color.0
          ∷ q.color.1
          ∷ q.color.2
          ∷ [])
        ≡ bytes =
      cc in
    subst (λ s. decode_one s ≡ some (record { schema = schema; requests = q ∷ [] })) same
      (λ i. some (record {
        schema = schema;
        requests =
            record {
              target = code_target-target_code q.target i;
              mode = code_mode-mode_code q.mode i;
              brightness = q.brightness;
              speed = q.speed;
              color = q.color;
              zone_colors = sym h i;
            }
            ∷ [];
      }))
decode_one-zones schema q (c ∷ more) bytes h e = ground (arith, e)

decode_one-requests :
    (schema : ℕ) (requests : List LightingRequest) (bytes : Bytes)
    → encode_requests schema requests ≡ some bytes
    → decode_one bytes ≡ some (record { schema = schema; requests = requests })
decode_one-requests schema [] bytes e = ground (arith, e)
decode_one-requests schema (q ∷ []) bytes e = decode_one-zones schema q q.zone_colors bytes refl e
decode_one-requests schema (q ∷ p ∷ more) bytes e = ground (arith, e)

-- a file in memory
abbrev shown : Option Bytes → CacheRead
shown none = not_found
shown (some bytes) = bytes_read bytes

abbrev memory_cache : CacheFile
memory_cache = record {
  World = Option Bytes;
  read_at_most = λ n w. shown w;
  create_dir_all = λ w. (true, w);
  write_all = λ bytes w. (true, some bytes);
  to_vec = λ cached. encode_requests cached.schema cached.requests;
  from_slice = decode_one;
}

memory_faithful : Faithful memory_cache
memory_faithful = record {
  decoded = λ cached bytes e. decode_one-requests cached.schema cached.requests bytes e;
  kept = λ bytes n w wrote fits. inr (inr refl);
}

abbrev breathe : LightingRequest
breathe = record {
  target = cover_logo;
  mode = breathing;
  brightness = 80;
  speed = 3;
  color = (255, 0, 128);
  zone_colors = [];
}

nothing_loaded : load_cached_lighting memory_cache none ≡ ok []
unfolding load_cached_lighting
nothing_loaded = refl

saved : (save_cached_lighting memory_cache breathe none).0 ≡ ok tt
unfolding save_cached_lighting load_cached_lighting replace
saved = refl

load_cached_lighting-save_cached_lighting_example :
    (held : List LightingRequest) × IsCache held
    × ((target : LightingTarget)
        → request_held target held
          ≡ (if target_eq breathe.target target then some breathe else request_held target []))
    × Loads memory_cache memory_faithful held (save_cached_lighting memory_cache breathe none).1
load_cached_lighting-save_cached_lighting_example =
    load_cached_lighting-save_cached_lighting memory_cache memory_faithful [] breathe none
      nothing_loaded (λ target. omega arith) saved
