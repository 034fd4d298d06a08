-- ===== src/Prefs/State.antt =====
-- scutil/prefs.c: the variables that its functions share, what they print, how they end, and the
-- libraries they call as parameters.
use configd_extra.Base.{ℕ, Bool, ◌⊎◌, List, ◌∷◌, Option, none, some, Bytes, ◌≡◌, elim_some}
use configd_extra.Shell.State.{Cf, created, Converts, created-Converts}

-- `AuthorizationRef`: the constant `kSCPreferencesUseEntitlementAuthorization`, or a reference.
pub data Authorization : Type 0 where
  use_entitlement : Authorization
  reference : ℕ → Authorization

-- CoreFoundation's strings and property lists. `entries` is `CFDictionaryGetKeysAndValues`.
pub record Plists (Key P : Type 0) : Type 0 where
  pub cf : Cf Key P
  pub entries : P → List (Key × P)
  pub get_value : P → Key → Option P
  pub contains_key : P → Key → Bool
  pub add_value : P → Key → P → P

-- SCPreferences, Security and the C library. `W` is their state, `H` a session of preferences, which
-- is an argument as the code passes it, `NULL` (`none`) included. `create_authorization` gives the
-- status of a failure.
pub record PrefsApi (Key P H W : Type 0) : Type 0 where
  pub sc_error : W → ℕ
  pub is_root : W → Bool
  pub get_env : W → Bytes → Option Bytes
  pub create_authorization : W → W × (ℕ ⊎ ℕ)
  pub free_authorization : W → ℕ → W
  pub remove_when_empty : Key
  pub protection_class : Key
  pub create : W → Key → Option Key → W × Option H
  pub create_with_authorization : W → Key → Option Key → Option Authorization → W × Option H
  pub create_with_options : W → Key → Option Key → Option Authorization → P → W × Option H
  pub release : W → H → W
  pub lock : W → Option H → Bool → W × Bool
  pub unlock : W → Option H → W × Bool
  pub commit_changes : W → Option H → W × Bool
  pub apply_changes : W → Option H → W × Bool
  pub synchronize : W → Option H → W
  pub path_get_value : W → Option H → Key → W × Option P
  pub path_get_link : W → Option H → Key → W × Option Key
  pub path_set_value : W → Option H → Key → P → W × Bool
  pub path_set_link : W → Option H → Key → Key → W × Bool
  pub path_remove_value : W → Option H → Key → W × Bool

pub data Stream : Type 0 where
  stdout : Stream
  stderr : Stream

-- What is printed: a text, `SCErrorString` of a status behind a text, a number behind a text, a text
-- about a name, a string behind a text, a value, and a path with its index and its parent.
pub data Message (Key P : Type 0) : Type 0 where
  text : Bytes → Message Key P
  status : Bytes → ℕ → Message Key P
  numbered : Bytes → ℕ → Message Key P
  about_name : Bytes → Bytes → Message Key P
  named : Bytes → Key → Message Key P
  shown : P → Message Key P
  path_at : ℕ → Option Key → Key → Message Key P

-- `out` has the last message first. `interactive` is `currentInput != NULL` with a terminal behind
-- it. `value` and `term_requested` are the ones of the whole shell.
pub record Preferences (Key P H W : Type 0) : Type 0 where
  pub prefs : Option H
  pub ni_prefs : Option H
  pub prefs_path : Option Bytes
  pub authorization : Option Authorization
  pub prefs_changed : Bool
  pub value : Option P
  pub term_requested : Bool
  pub interactive : Bool
  pub world : W
  pub out : List (Stream × Message Key P)

unfoldable pub say :
    {Key P H W : Type 0} → Stream → Message Key P → Preferences Key P H W → Preferences Key P H W
say to m s = record s { out = (to, m) ∷ s.out }

-- How a call ends: it returns, it leaves the program by `exit`, or it is a fault.
pub data Ends (S : Type 0) : Type 0 where
  returned : S → Ends S
  exited : ℕ → S → Ends S
  faulted : Ends S

infixl 5 ◌>>=◌
abbrev pub ◌>>=◌ : {S : Type 0} → Ends S → (S → Ends S) → Ends S
returned s >>= f = f s
exited n s >>= f = exited n s
faulted >>= f = faulted

-- The status codes of SystemConfiguration.h.
abbrev pub status_ok : ℕ
status_ok = 0

abbrev pub invalid_argument : ℕ
invalid_argument = 1002

abbrev pub access_error : ℕ
access_error = 1003

abbrev pub no_key : ℕ
no_key = 1004

-- A string for a text, for code that releases it without a test: `NULL` is a fault there.
unfoldable pub with_string : {Key P S : Type 0} → Plists Key P → Bytes → (Key → Ends S) → Ends S
with_string lists a next_step = elim (created lists.cf a) [ none ↦ faulted | some k ↦ next_step k ]

pub with_string-Converts :
    {Key P S : Type 0} (lists : Plists Key P) (a : Bytes) (f : Key → Ends S)
    → Converts lists.cf a
    → with_string lists a f ≡ f (lists.cf.create_string a)
unfolding with_string
with_string-Converts lists a f c =
    elim_some (created lists.cf a) f faulted _ (created-Converts lists.cf a c)
