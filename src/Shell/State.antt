-- ===== src/Shell/State.antt =====
-- What the commands of scutil/ share: the variables of scutil.c (`value`, `store`, `watchedKeys`,
-- and so on) as a record, what they print, and the two libraries they call as parameters:
-- CoreFoundation, and SCDynamicStore with its cache.
use configd_extra.Base.{
  ℕ, Bool, false, List, ◌∷◌, Option, none, some, Bytes, if◌then◌else◌, ◌≡◌, refl,
}
use configd_extra.Base.Int.{ℤ}

-- CoreFoundation's strings (`CFStringRef`, `NULL` included), property lists and mutable copies.
-- `CFStringCreateWithCString` gives `NULL` for bytes that are not UTF-8, which `is_null` tells.
-- `sort_values` is `CFArraySortValues` with `CFStringCompare`.
pub record Cf (Key P : Type 0) : Type 0 where
  pub create_string : Bytes → Key
  pub is_null : Key → Bool
  pub key_equal : Key → Key → Bool
  pub sort_values : List Key → List Key
  pub is_dictionary : P → Bool
  pub empty_dictionary : P
  pub set_value : P → Key → P → P
  pub remove_value : P → Key → P
  pub of_string : Key → P
  pub of_boolean : Bool → P
  pub of_data : Bytes → P
  pub of_number : ℤ → P
  pub of_array : List P → P

-- A string for a text, for code that releases it or puts it into an array without a test: on `NULL`
-- those fault, `none`.
unfoldable pub created : {Key P : Type 0} → Cf Key P → Bytes → Option Key
created cf a = let k = cf.create_string a in if cf.is_null k then none else some k

-- The text is one for which there is a string.
unfoldable pub Converts : {Key P : Type 0} → Cf Key P → Bytes → Type 0
Converts cf a = cf.is_null (cf.create_string a) ≡ false

pub created-Converts :
    {Key P : Type 0} (cf : Cf Key P) (a : Bytes)
    → Converts cf a
    → created cf a ≡ some (cf.create_string a)
unfolding created Converts
created-Converts cf a h = rw h refl

-- SCDynamicStore. `W` is the state of the library, its server and the run loop, `H` a session. A
-- session is an argument as the code passes it, `NULL` (`none`) included; the fields of
-- `SCDynamicStorePrivate`, which the code reads itself, are those of a session that is there.
pub record StoreApi (Key P H W : Type 0) : Type 0 where
  pub sc_error : W → ℕ
  pub create : W → W × Option H
  pub create_with_session_keys : W → W × Option H
  pub release : W → H → W
  pub set_disconnect_callback : W → H → W
  pub unset_dispatch_queue : W → Option H → W
  pub invalidate_source : W → W
  pub stop_run_loop : W → W
  pub cache_is_active : W → Option H → Bool
  pub cache_open : W → Option H → W
  pub cache_close : W → Option H → W
  pub cache_commit_changes : W → Option H → W
  pub cached_set : W → H → Option (List Key)
  pub cached_removals : W → H → Option ℕ
  pub cached_notifys : W → H → Option ℕ
  pub copy_key_list : W → Option H → Key → W × Option (List Key)
  pub copy_value : W → Option H → Key → W × Option P
  pub copy_multiple : W → Option H → List Key → W × Option P
  pub add_value : W → Option H → Key → Option P → W × Bool
  pub add_temporary_value : W → Option H → Key → Option P → W × Bool
  pub set_store_value : W → Option H → Key → Option P → W × Bool
  pub remove_store_value : W → Option H → Key → W × Bool
  pub notify_value : W → Option H → Key → W × Bool
  pub set_notification_keys : W → Option H → List Key → List Key → W × Bool
  pub copy_notified_keys : W → Option H → W × Option (List Key)

-- What `SCPrint` writes: a text, a text about a command or a file, `SCErrorString` of a status, a line
-- with its nesting level, a value, a numbered key.
pub data Message (Key P : Type 0) : Type 0 where
  text : Bytes → Message Key P
  about_command : Bytes → Bytes → Message Key P
  status : ℕ → Message Key P
  at_level : ℕ → Bytes → Message Key P
  shown : P → Message Key P
  numbered : Bytes → ℕ → Key → Message Key P

-- `out` has the last message first. `notify_source` and `notify_loop` say whether `notifyRls` and
-- `notifyRl` are set.
pub record Shell (Key P H W : Type 0) : Type 0 where
  pub value : Option P
  pub store : Option H
  pub watched_keys : Option (List Key)
  pub watched_patterns : Option (List Key)
  pub notify_source : Bool
  pub notify_loop : Bool
  pub do_dispatch : Bool
  pub term_requested : Bool
  pub enable_private_api : Bool
  pub nesting : ℕ
  pub world : W
  pub out : List (Message Key P)

unfoldable pub print : {Key P H W : Type 0} → Message Key P → Shell Key P H W → Shell Key P H W
print m s = record s { out = m ∷ s.out }

-- The error codes of SystemConfiguration.h.
abbrev pub no_store_session : ℕ
no_store_session = 2001

abbrev pub no_key : ℕ
no_key = 1004

abbrev pub key_exists : ℕ
key_exists = 1005

abbrev pub locked : ℕ
locked = 1006

abbrev pub need_lock : ℕ
need_lock = 1007
