-- ===== src/Dns/Tests.antt =====
-- The theorems on the DNS configuration buffer at small sizes.
use configd_extra.Base.{◌≡◌, [], ◌∷◌, ◌++◌, none, some, replicate, arith, Bytes, refl, ◌^◌}
use configd_extra.Dns.Buffer.{
  Padding, buffer_create, buffer_create-fits, expand_add_list, claim_bytes,
}

abbrev header_and_attribute : Bytes
header_and_attribute = replicate 8 1 ++ (5 ∷ 6 ∷ [])

buffer_create-fits_example :
    buffer_create 8 2 4 header_and_attribute ≡ some (header_and_attribute ++ replicate 4 0)
buffer_create-fits_example =
    buffer_create-fits 8 2 4 header_and_attribute (omega arith) (omega arith) (omega arith)
      (omega arith)

abbrev padding : Padding
padding = record { start = 100; size = 40 }

-- The size of a list of 2^29 elements of 8 bytes wraps: it is claimed as one of no bytes.
size_wraps : expand_add_list padding (2 ^ 29) 8 ≡ some (padding, none)
unfolding expand_add_list claim_bytes
size_wraps = refl
