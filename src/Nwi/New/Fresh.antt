-- ===== src/Nwi/New/Fresh.antt =====
-- The state that `nwi_state_new` allocates: valid, and with no entry.
use configd_extra.Base.{ℕ, ◌*◌, ◌≡◌, refl, [], length-replicate, segment_zero, arith}
use configd_extra.Nwi.Entries.{entries}
use configd_extra.Nwi.New.{zero_ifstate, fresh}
use configd_extra.Nwi.State.{IsValid, list_start, get_ifstate_count}

pub fresh-IsValid : (n : ℕ) → IsValid (fresh n)
unfolding fresh
fresh-IsValid n = record {
  slots = length-replicate (2 * n) zero_ifstate;
  indices = length-replicate n 0;
  v4_fits = omega arith;
  v6_fits = omega arith;
  listed_fits = omega arith;
}

pub count-fresh : (n af : ℕ) → get_ifstate_count (fresh n) af ≡ 0
unfolding fresh get_ifstate_count
count-fresh n af = ground arith

pub entries-fresh : (n af : ℕ) → entries (fresh n) af ≡ []
entries-fresh n af =
    rw (count-fresh n af) (segment_zero (fresh n).ifstate_list (list_start (fresh n) af))

pub max-fresh : (n : ℕ) → (fresh n).max_if_count ≡ n
unfolding fresh
max-fresh n = refl
