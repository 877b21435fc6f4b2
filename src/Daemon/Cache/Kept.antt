-- ===== src/Daemon/Cache/Kept.antt =====
-- src/daemon.rs: what a saved lighting cache says when it is loaded again.
use asense.Base.{
  ltb, if◌then◌else◌, length, ℕ, suc, ◌+◌, ◌≤◌, ◌≡◌, refl, sym, ap, subst, ◌∙◌, ◌⊎◌, inl, inr, Bool,
  true, false, Bool-cases, Option, none, some, List, [], ◌∷◌, ◌++◌, arith,
}
use asense.Base.Text.{Bytes}
use asense.Result.{Result, ok, err, ok_injective}
use asense.Lighting.{
  LightingTarget, target_eq, LightingRequest, keyboard, cover_logo, rear_logo, lightbar,
}
use asense.Daemon.Cache.{
  CachedLighting, CacheError, too_large, cannot_read, cannot_open, open_failed, read_failed,
  bytes_read, CacheFile, retain_others, replace, check_cached, parse_cached, loaded,
  load_cached_lighting, finish_write, store_in, store_bytes, save_into, save_cached_lighting,
}

-- how many of the requests are for the target
abbrev times : LightingTarget → List LightingRequest → ℕ
times target [] = 0
times target (cached ∷ more) =
    let rest = times target more in if target_eq cached.target target then suc rest else rest

-- one request for each target
abbrev pub IsCache : List LightingRequest → Type 0
IsCache cached = (target : LightingTarget) → times target cached ≤ 1

target_eq_sound : (a b : LightingTarget) → target_eq a b ≡ true → a ≡ b
target_eq_sound a b h = ground (arith, h)

target_eq_own : (a : LightingTarget) → target_eq a a ≡ true
target_eq_own a = ground arith

times-append :
    (target : LightingTarget) (s t : List LightingRequest)
    → times target (s ++ t) ≡ times target s + times target t
times-append target [] t = omega arith
times-append target (cached ∷ s) t = ground (arith, times-append target s t)

retained :
    (target other : LightingTarget) (cached : List LightingRequest)
    → times other (retain_others target cached) ≤ times other cached
retained target other [] = omega arith
retained target other (c ∷ cached) = ground (arith, retained target other cached)

removed :
    (target : LightingTarget) (cached : List LightingRequest)
    → times target (retain_others target cached) ≡ 0
removed target [] = refl
removed target (c ∷ cached) = ground (arith, removed target cached)

alone : (target : LightingTarget) (request : LightingRequest) → times target (request ∷ []) ≤ 1
alone target request = ground arith

replace-IsCache :
    (cached : List LightingRequest) (request : LightingRequest)
    → IsCache cached
    → IsCache (replace cached request)
unfolding replace
replace-IsCache cached request h target = elim (Bool-cases (target_eq request.target target)) [
  | inl e ↦
      let gone : times target (retain_others request.target cached) ≡ 0 =
        subst (λ t. times t (retain_others request.target cached) ≡ 0)
          (target_eq_sound request.target target e) (removed request.target cached) in
      omega (
        arith,
        times-append target (retain_others request.target cached) (request ∷ []),
        gone,
        alone target request,
      )
  | inr e ↦ omega (
    arith,
    times-append target (retain_others request.target cached) (request ∷ []),
    retained request.target target cached,
    h target,
    last e,
  )
]
  where
    last : target_eq request.target target ≡ false → times target (request ∷ []) ≡ 0
    last e = ground (arith, e)

-- the request for a target
unfoldable pub request_held : LightingTarget → List LightingRequest → Option LightingRequest
request_held target [] = none
request_held target (cached ∷ more) =
    let later = request_held target more in
    if target_eq cached.target target then some cached else later

other_than :
    (a b c : LightingTarget) → target_eq a b ≡ true → target_eq b c ≡ false → target_eq a c ≡ false
other_than a b c h k = ground (arith, h, k)

not_here :
    (a b c : LightingTarget) → target_eq a b ≡ false → target_eq b c ≡ true → target_eq a c ≡ false
not_here a b c h k = ground (arith, h, k)

request_held-other :
    (cached : List LightingRequest) (request : LightingRequest) (target : LightingTarget)
    → target_eq request.target target ≡ false
    → request_held target (retain_others request.target cached ++ request ∷ [])
      ≡ request_held target cached
unfolding request_held
request_held-other [] request target h = rw h refl
request_held-other (c ∷ cached) request target h =
    elim (Bool-cases (target_eq c.target request.target)) [
      | inl e ↦
          rw (e, other_than c.target request.target target e h)
            (request_held-other cached request target h)
      | inr e ↦ elim (Bool-cases (target_eq c.target target)) [
        | inl k ↦ rw (e, k) refl
        | inr k ↦ rw (e, k) (request_held-other cached request target h)
      ]
    ]

request_held-own :
    (cached : List LightingRequest) (request : LightingRequest) (target : LightingTarget)
    → target_eq request.target target ≡ true
    → request_held target (retain_others request.target cached ++ request ∷ []) ≡ some request
unfolding request_held
request_held-own [] request target h = rw h refl
request_held-own (c ∷ cached) request target h =
    elim (Bool-cases (target_eq c.target request.target)) [
      | inl e ↦ rw e (request_held-own cached request target h)
      | inr e ↦
          rw (e, not_here c.target request.target target e h)
            (request_held-own cached request target h)
    ]

request_held-replace :
    (cached : List LightingRequest) (request : LightingRequest) (target : LightingTarget)
    → request_held target (replace cached request)
      ≡ (if target_eq request.target target then some request else request_held target cached)
unfolding replace
request_held-replace cached request target = elim (Bool-cases (target_eq request.target target)) [
  | inl e ↦ request_held-own cached request target e ∙ sym (rw e refl)
  | inr e ↦ request_held-other cached request target e ∙ sym (rw e refl)
]

one_more :
    (target : LightingTarget) (n a b c d : ℕ)
    → n ≡ a + b + c + d
    → suc n
      ≡ (if target_eq target keyboard then suc a else a)
        + (if target_eq target cover_logo then suc b else b)
        + (if target_eq target rear_logo then suc c else c)
        + (if target_eq target lightbar then suc d else d)
one_more keyboard n a b c d h = omega (arith, h)
one_more cover_logo n a b c d h = omega (arith, h)
one_more rear_logo n a b c d h = omega (arith, h)
one_more lightbar n a b c d h = omega (arith, h)

length-times :
    (cached : List LightingRequest)
    → length cached
      ≡ times keyboard cached
        + times cover_logo cached
        + times rear_logo cached
        + times lightbar cached
length-times [] = refl
length-times (c ∷ cached) =
    one_more c.target (length cached) (times keyboard cached) (times cover_logo cached)
      (times rear_logo cached) (times lightbar cached) (length-times cached)

IsCache-length : (cached : List LightingRequest) → IsCache cached → length cached ≤ 4
IsCache-length cached h =
    omega (arith, length-times cached, h keyboard, h cover_logo, h rear_logo, h lightbar)

check_cached-IsCache :
    (cached : List LightingRequest)
    → IsCache cached
    → check_cached (record { schema = 1; requests = cached }) ≡ ok cached
check_cached-IsCache cached h =
    let fits : ltb 4 (length cached) ≡ false = ground (arith, IsCache-length cached h) in
    rw fits refl

-- What is taken of the file and of the library for its contents: a value is decoded from its
-- encoding, and a file that has been written without an error gives those bytes when it can be read.
pub record Faithful (file : CacheFile) : Type 0 where
  pub decoded :
      (cached : CachedLighting) (bytes : Bytes)
      → file.to_vec cached ≡ some bytes
      → file.from_slice bytes ≡ some cached
  pub kept :
      (bytes : Bytes) (n : ℕ) (w : file.World)
      → (file.write_all bytes w).0 ≡ true
      → length bytes ≤ n
      → (file.read_at_most n (file.write_all bytes w).1 ≡ open_failed)
        ⊎ (file.read_at_most n (file.write_all bytes w).1 ≡ read_failed)
        ⊎ (file.read_at_most n (file.write_all bytes w).1 ≡ bytes_read bytes)

module _ (file : CacheFile) (faithful : Faithful file) where
  open file use {World, read_at_most, create_dir_all, write_all, to_vec, from_slice}
  open faithful use {decoded, kept}

  -- the file cannot be read, or it holds the requests
  abbrev pub Loads : List LightingRequest → World → Type 0
  Loads cached w =
      (load_cached_lighting file w ≡ err cannot_open)
      ⊎ (load_cached_lighting file w ≡ err cannot_read)
      ⊎ (load_cached_lighting file w ≡ ok cached)

  parse_cached-encoded :
      (cached : List LightingRequest) (bytes : Bytes)
      → IsCache cached
      → to_vec (record { schema = 1; requests = cached }) ≡ some bytes
      → length bytes ≤ 2048
      → parse_cached file bytes ≡ ok cached
  parse_cached-encoded cached bytes h e fits =
      let small : ltb 2048 (length bytes) ≡ false = ground (arith, fits) in
      rw (small, decoded (record { schema = 1; requests = cached }) bytes e)
        (check_cached-IsCache cached h)

  write_all-Loads :
      (cached : List LightingRequest) (bytes : Bytes) (w : World)
      → IsCache cached
      → to_vec (record { schema = 1; requests = cached }) ≡ some bytes
      → length bytes ≤ 2048
      → (write_all bytes w).0 ≡ true
      → Loads cached (write_all bytes w).1
  unfolding load_cached_lighting
  write_all-Loads cached bytes w h e fits wrote = elim (kept bytes 2049 w wrote (omega arith)) [
    | inl k ↦ inl (ap (loaded file) k)
    | inr (inl k) ↦ inr (inl (ap (loaded file) k))
    | inr (inr k) ↦ inr (inr (ap (loaded file) k ∙ parse_cached-encoded cached bytes h e fits))
  ]

  finish_write-ok :
      (P : World → Type 0) (p : Bool × World)
      → (p.0 ≡ true → P p.1)
      → (finish_write file p).0 ≡ ok tt
      → P (finish_write file p).1
  finish_write-ok P (true, w) h e = h refl
  finish_write-ok P (false, w) h e = ground (arith, e)

  store_in-ok :
      (P : World → Type 0) (bytes : Bytes) (p : Bool × World)
      → ((v : World) → (write_all bytes v).0 ≡ true → P (write_all bytes v).1)
      → (store_in file bytes p).0 ≡ ok tt
      → P (store_in file bytes p).1
  store_in-ok P bytes (true, w) h e = finish_write-ok P (write_all bytes w) (h w) e
  store_in-ok P bytes (false, w) h e = ground (arith, e)

  store_fits-ok :
      (P : World → Type 0) (bytes : Bytes) (w : World) (large : Bool)
      → (large ≡ false → (v : World) → (write_all bytes v).0 ≡ true → P (write_all bytes v).1)
      → (if large then (err too_large, w) else store_in file bytes (create_dir_all w)).0 ≡ ok tt
      → P (if large then (err too_large, w) else store_in file bytes (create_dir_all w)).1
  store_fits-ok P bytes w true h e = ground (arith, e)
  store_fits-ok P bytes w false h e = store_in-ok P bytes (create_dir_all w) (h refl) e

  store_bytes-Loads :
      (cached : List LightingRequest) (o : Option Bytes) (w : World)
      → IsCache cached
      → to_vec (record { schema = 1; requests = cached }) ≡ o
      → (store_bytes file o w).0 ≡ ok tt
      → Loads cached (store_bytes file o w).1
  store_bytes-Loads cached none w h encoded e = ground (arith, e)
  store_bytes-Loads cached (some bytes) w h encoded e =
      store_fits-ok (Loads cached) bytes w (ltb 2048 (length bytes))
        (λ fits v wrote. write_all-Loads cached bytes v h encoded (ground (arith, fits)) wrote) e

  save_into-Loads :
      (r : Result CacheError (List LightingRequest)) (cached : List LightingRequest)
      (request : LightingRequest) (w : World)
      → r ≡ ok cached
      → IsCache cached
      → (save_into file r request w).0 ≡ ok tt
      → Loads (replace cached request) (save_into file r request w).1
  save_into-Loads (err x) cached request w same h e = ground (arith, same)
  save_into-Loads (ok found) cached request w same h e =
      let equal : found ≡ cached = ok_injective same in
      subst (λ c. Loads (replace c request) (save_into file (ok found) request w).1) equal
        (store_bytes-Loads (replace found request)
          (to_vec (record { schema = 1; requests = replace found request })) w
          (replace-IsCache found request (subst IsCache (sym equal) h)) refl e)

  -- When the cache that was loaded has one request for each target at most, and saving a request gives
  -- no error, then loading it gives requests of which there is one for each target at most, so that
  -- there are never too many, and which are the new one for its target and for every other target the
  -- one that was there before; or the file cannot be opened or read.
  pub load_cached_lighting-save_cached_lighting :
      (cached : List LightingRequest) (request : LightingRequest) (w : World)
      → load_cached_lighting file w ≡ ok cached
      → IsCache cached
      → (save_cached_lighting file request w).0 ≡ ok tt
      → (held : List LightingRequest) × IsCache held
        × ((target : LightingTarget)
            → request_held target held ≡ (
                if target_eq request.target target
                then some request
                else request_held target cached))
        × Loads held (save_cached_lighting file request w).1
  unfolding save_cached_lighting
  load_cached_lighting-save_cached_lighting cached request w loads h e = (
    replace cached request,
    replace-IsCache cached request h,
    request_held-replace cached request,
    save_into-Loads (load_cached_lighting file w) cached request w loads h e,
  )
