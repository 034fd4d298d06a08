-- ===== src/Nwi/Flags.antt =====
-- The bit fields of `flags`, the rank encoding, and the diff codes. A field of `n` bits at bit `k`
-- is `x / 2 ^ k % 2 ^ n`.
use configd_extra.Base.{ℕ, ◌+◌, ◌-◌, ◌*◌, ◌/◌, ◌%◌, ◌^◌, Bytes, codes, ltb, ◌==◌, if◌then◌else◌}
use configd_extra.Base.Int.{ℤ, pos, negsuc}
use configd_extra.Nwi.State.{Ifstate}

-- `(flags & mask) >> k` for a mask of `n` bits from bit `k` on
abbrev pub field : ℕ → ℕ → ℕ → ℕ
field k n x = x / 2 ^ k % 2 ^ n

-- `flags & ~mask`
abbrev pub clear_field : ℕ → ℕ → ℕ → ℕ
clear_field k n x = x - field k n x * 2 ^ k

-- NWI_IFSTATE_FLAGS
unfoldable pub public_flags : ℕ → ℕ
public_flags flags = field 0 8 flags

-- NWI_IFSTATE_FLAGS_GET_DIFF
unfoldable pub flags_get_diff : ℕ → ℕ
flags_get_diff flags = field 8 4 flags

-- NWI_IFSTATE_FLAGS_FROM_DIFF
unfoldable pub flags_from_diff : ℕ → ℕ
flags_from_diff diff = diff % 16 * 2 ^ 8

abbrev pub diff_unchanged : ℕ
diff_unchanged = 0

abbrev pub diff_added : ℕ
diff_added = 1

abbrev pub diff_removed : ℕ
diff_removed = 2

abbrev pub diff_changed : ℕ
diff_changed = 3

abbrev pub diff_rank_up : ℕ
diff_rank_up = 4

abbrev pub diff_rank_down : ℕ
diff_rank_down = 5

-- NWI_IFSTATE_FLAGS_NOT_IN_IFLIST, bit 5
unfoldable pub not_in_iflist : ℕ → ℕ
not_in_iflist flags = field 5 1 flags

-- `flags |= NWI_IFSTATE_FLAGS_LAST_ITEM`, and `flags &= ~` of it; bit 12
unfoldable pub set_last_item : ℕ → ℕ
set_last_item flags = clear_field 12 1 flags + 2 ^ 12

unfoldable pub clear_last_item : ℕ → ℕ
clear_last_item flags = clear_field 12 1 flags

-- `flags &= ~NWI_IFSTATE_FLAGS_MASK; flags |= NWI_IFSTATE_FLAGS(new_flags)`
unfoldable pub replace_public_flags : ℕ → ℕ → ℕ
unfolding public_flags
replace_public_flags flags new_flags = clear_field 0 8 flags + public_flags new_flags

unfoldable pub ifstate_set_signature : Ifstate → Bytes → Ifstate
ifstate_set_signature i signature = record i {
  flags = clear_field 4 1 i.flags + 2 ^ 4;
  signature = signature;
}

unfoldable pub ifstate_get_diff : Ifstate → ℕ
unfolding flags_get_diff
ifstate_get_diff i = flags_get_diff i.flags

unfoldable pub set_diff_flags : ℕ → ℕ → ℕ
unfolding flags_from_diff
set_diff_flags flags diff =
    if diff == diff_unchanged
    then clear_field 8 4 flags
    else clear_field 8 4 flags + flags_from_diff diff

unfoldable pub ifstate_set_diff : Ifstate → ℕ → Ifstate
unfolding set_diff_flags
ifstate_set_diff i diff = record i { flags = set_diff_flags i.flags diff }

unfoldable pub diff_str : ℕ → Bytes
diff_str diff =
    if diff == diff_unchanged
    then codes ""
    else if diff == diff_added
    then codes "+"
    else if diff == diff_removed
    then codes "-"
    else if diff == diff_changed
    then codes "!"
    else if diff == diff_rank_up
    then codes "/"
    else if diff == diff_rank_down
    then codes "\\"
    else codes "?"

unfoldable pub ifstate_get_diff_str : Ifstate → Bytes
unfolding diff_str ifstate_get_diff
ifstate_get_diff_str i = diff_str (ifstate_get_diff i)

-- `nwi_ifstate_difference_t`
pub data Difference : Type 0 where
  diff_is_none diff_is_changed diff_is_removed : Difference

unfoldable pub difference_of : ℕ → Difference
difference_of diff =
    if diff == diff_added
    then diff_is_changed
    else if diff == diff_changed
    then diff_is_changed
    else if diff == diff_removed
    then diff_is_removed
    else diff_is_none

unfoldable pub ifstate_get_difference : Ifstate → Difference
unfolding difference_of ifstate_get_diff
ifstate_get_difference i = difference_of (ifstate_get_diff i)

-- The rank: an assertion in the top 8 bits and a service index in the lower 24.
unfoldable pub rank_assertion_make : ℕ → ℕ
rank_assertion_make r = r * 2 ^ 24 % 2 ^ 32

unfoldable pub rank_assertion_mask : ℕ → ℕ
rank_assertion_mask r = field 24 8 r * 2 ^ 24

unfoldable pub rank_index_mask : ℕ → ℕ
rank_index_mask r = field 0 24 r

unfoldable pub uint32_cmp : ℕ → ℕ → ℤ
uint32_cmp a b = if a == b then pos 0 else if ltb a b then negsuc 0 else pos 1

unfoldable pub rank_compare : ℕ → ℕ → ℤ
unfolding uint32_cmp
rank_compare a b = uint32_cmp a b
