-- ===== src/Dns/Buffer.antt =====
-- libsystem_configuration/dnsinfo_internal.h: `_dns_configuration_buffer_create`, which checks the
-- sizes of a configuration and makes room behind it, and `__dns_configuration_expand_add_list`,
-- which claims that room piece by piece. `header_size` is `sizeof(_dns_config_buf_t)`; `n_attribute`
-- and `n_padding` are the header's two counts in host order.
use configd_extra.Base.{
  ℕ, ◌+◌, ◌-◌, ◌*◌, ◌%◌, ◌^◌, ◌≤◌, ◌<◌, ◌≡◌, refl, ◌⊎◌, inl, inr, ◌&&◌, ◌++◌, Option, none, some,
  Bytes, length, replicate, ltb, leb, ◌==◌, if◌then◌else◌, Bool-cases, arith,
}

abbrev pub config_buf_max : ℕ
config_buf_max = 1024 * 1024

-- `size_t` has 64 bits, `uint32_t` 32.
abbrev pub size_t : ℕ → ℕ
size_t n = n % 2 ^ 64

abbrev pub uint32 : ℕ → ℕ
uint32 n = n % 2 ^ 32

-- `DNS_CONFIG_BUF_MAX - dataLen`
unfoldable pub room_behind : ℕ → ℕ
room_behind data_len = size_t (config_buf_max + 2 ^ 64 - data_len)

-- The checks that are assertions in a debug build: `none` is `NULL`.
unfoldable pub buffer_create : ℕ → ℕ → ℕ → Bytes → Option Bytes
buffer_create header_size n_attribute n_padding data' =
    if size_t (header_size + n_attribute) == length data'
    then (if ltb (room_behind (length data')) n_padding
        then none
        else if ltb config_buf_max (size_t (length data' + n_padding))
        then none
        else some (data' ++ replicate n_padding 0))
    else none

-- The room that is left: where it begins, and its size.
pub record Padding : Type 0 where
  pub start : ℕ
  pub size : ℕ

-- `*padding += need; *n_padding -= need`
abbrev pub the_rest : Padding → ℕ → Padding
the_rest p need = record { start = p.start + need; size = p.size - need }

-- The claim of `need` bytes for a list: its address, or `none` for `NULL` when it is empty. The outer
-- `none` is `FALSE`.
unfoldable pub claim_bytes : Padding → ℕ → Option (Padding × Option ℕ)
claim_bytes p need =
    if ltb p.size need
    then none
    else some (the_rest p need, if need == 0 then none else some p.start)

unfoldable pub expand_add_list : Padding → ℕ → ℕ → Option (Padding × Option ℕ)
expand_add_list p count size = claim_bytes p (uint32 (count * size))

room_small : (n : ℕ) → n ≤ config_buf_max → room_behind n ≡ config_buf_max - n
unfolding room_behind
room_small n h = omega arith

checks :
    {A : Type 0} (a data_len n_padding room max : ℕ) (x : Option A)
    → (data_len ≤ max → room ≡ max - data_len)
    → (if a == data_len
        then (if ltb room n_padding
            then none
            else if ltb max (data_len + n_padding)
            then none
            else x)
        else none)
      ≡ (if (a == data_len) && leb (data_len + n_padding) max then x else none)
checks a data_len n_padding room max x h = ground (arith, h)

size_t_small : (n : ℕ) → n < 2 ^ 64 → size_t n ≡ n
size_t_small n h = omega arith

uint32_small : (n : ℕ) → n < 2 ^ 32 → uint32 n ≡ n
uint32_small n h = omega arith

-- A configuration whose size is the header and the attributes that it counts, and that fits into the
-- largest buffer together with the padding it asks for, gives a buffer of just that; any other gives
-- NULL. The subtraction that wraps for a larger configuration lets none through. The sizes are below
-- 2^63 and the two counts below 2^32.
pub buffer_create-fits :
    (header_size n_attribute n_padding : ℕ) (data' : Bytes)
    → header_size < 2 ^ 32
    → n_attribute < 2 ^ 32
    → n_padding < 2 ^ 32
    → length data' < 2 ^ 63
    → buffer_create header_size n_attribute n_padding data' ≡ (
        if (header_size + n_attribute == length data')
          && leb (length data' + n_padding) config_buf_max
        then some (data' ++ replicate n_padding 0)
        else none)
unfolding buffer_create
buffer_create-fits header_size n_attribute n_padding data' hh ha hp hd =
    rw
      (
        size_t_small (header_size + n_attribute) (omega arith),
        size_t_small (length data' + n_padding) (omega arith),
      )
      (checks (header_size + n_attribute) (length data') n_padding (room_behind (length data'))
        config_buf_max (some (data' ++ replicate n_padding 0)) (room_small (length data')))

list_of :
    (need start : ℕ)
    → ((need ≡ 0) × ((if need == 0 then none else some start) ≡ none))
      ⊎ ((0 < need) × ((if need == 0 then none else some start) ≡ some start))
list_of need start = elim (Bool-cases (need == 0)) [
  | inl empty ↦ inl (ground arith, rw empty refl)
  | inr some_bytes ↦ inr (ground arith, rw some_bytes refl)
]

claimed :
    (p : Padding) (need : ℕ)
    → ((claim_bytes p need ≡ none) × (p.size < need))
      ⊎ ((q : Padding) × (l : Option ℕ) × (claim_bytes p need ≡ some (q, l))
          × (q.start ≡ p.start + need)
          × (q.start + q.size ≡ p.start + p.size)
          × (((need ≡ 0) × (l ≡ none)) ⊎ ((0 < need) × (l ≡ some p.start))))
unfolding claim_bytes
claimed p need = elim (Bool-cases (ltb p.size need)) [
  | inl small ↦ inl (rw small refl, ground arith)
  | inr fits ↦ inr (
    the_rest p need,
    if need == 0 then none else some p.start,
    rw fits refl,
    refl,
    ground arith,
    list_of need p.start,
  )
]
