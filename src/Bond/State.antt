-- ===== src/Bond/State.antt =====
-- SystemConfiguration/BondConfiguration.c: a bond, and the kernel's requests on bonds.
use configd_extra.Base.{
  ℕ, Bool, true, false, List, [], ◌∷◌, Option, none, some, ◌==◌, if◌then◌else◌,
}
use configd_extra.Base.Int.{ℤ, pos, negsuc}

-- The framework's codes.
abbrev pub status_ok : ℕ
status_ok = 0

abbrev pub invalid_argument : ℕ
invalid_argument = 1002

abbrev pub key_exists : ℕ
key_exists = 1005

-- SCNetworkInterface: the BSD name, whether the interface can be in a bond, and `CFEqual`, here and on
-- the names.
pub record Interfaces (I Key : Type 0) : Type 0 where
  pub bsd_name : I → Key
  pub supports_bond : I → Bool
  pub same : I → I → Bool
  pub name_equal : Key → Key → Bool

-- The parts of a bond that the functions read: its name, `bond.interfaces`, which is never `NULL`, and
-- `bond.mode`.
pub record Bond (I Key : Type 0) : Type 0 where
  pub bond_if : Key
  pub interfaces : List I
  pub mode : Option ℤ

-- `ibr_op` with its argument.
pub data Request (Key : Type 0) : Type 0 where
  set_mode_of : ℤ → Request Key
  add_member : Key → Request Key
  remove_member : Key → Request Key

-- The system: `socket`, the request `SIOCSIFBOND` on a bond, and `__createInterface` and
-- `__destroyInterface`. Each says whether it succeeds.
pub record BondKernel (Key W : Type 0) : Type 0 where
  pub errno : W → ℕ
  pub open_socket : W → W × Bool
  pub request : W → Key → Request Key → W × Bool
  pub create_interface : W → Key → W × Bool
  pub destroy_interface : W → Key → W × Bool

-- IF_BOND_MODE_LACP
abbrev pub mode_lacp : ℤ
mode_lacp = pos 0

abbrev pub mode_number : Option ℤ → ℤ
mode_number none = mode_lacp
mode_number (some m) = m

unfoldable pub equal_ℤ : ℤ → ℤ → Bool
equal_ℤ (pos a) (pos b) = a == b
equal_ℤ (negsuc a) (negsuc b) = a == b
equal_ℤ (pos a) (negsuc b) = false
equal_ℤ (negsuc a) (pos b) = false

-- `_SC_CFEqual` on modes.
unfoldable pub equal_mode : Option ℤ → Option ℤ → Bool
equal_mode none none = true
equal_mode (some a) (some b) = equal_ℤ a b
equal_mode none (some b) = false
equal_mode (some a) none = false

module _ {I Key : Type 0} (ifs : Interfaces I Key) where
  -- `CFArrayContainsValue` and `CFSetContainsValue`.
  unfoldable pub is_among : List I → I → Bool
  is_among [] i = false
  is_among (j ∷ l) i = let rest = is_among l i in if ifs.same j i then true else rest
