-- ===== src/Desc/Segments.antt =====
-- What is packed into a segment descriptor.
use xtf.Base.{ℕ, ◌+◌, ◌-◌, ◌*◌, ◌/◌, ◌%◌, ◌^◌, ◌<◌, ◌≡◌, ◌==◌, if◌then◌else◌, arith}
use xtf.Desc.{
  init_gdte, upper_base, user_desc_base, user_desc_limit, sizeof_env_tss, pack_tss_desc,
  pack_ldt_desc,
}

-- For a base of 64 bits, a limit of 20 bits and attributes of 16 bits, user_desc_base() gets back from an
-- initialised descriptor, with the upper half of the base in the next slot, the whole base if the
-- attributes are those of a system segment, and its lower 32 bits if not; user_desc_limit() gets back
-- the limit, in units of 4 KiB if the attributes say so.
pub init_gdte_lem :
    (base limit attr : ℕ)
    → base < 2 ^ 64
    → limit < 2 ^ 20
    → attr < 2 ^ 16
    → (user_desc_base (init_gdte base limit attr) (upper_base base)
        ≡ (if attr / 2 ^ 4 % 2 == 0 then base else base % 2 ^ 32))
      × (user_desc_limit (init_gdte base limit attr)
          ≡ (if attr / 2 ^ 15 % 2 == 0 then limit else limit * 2 ^ 12 + 4095))
unfolding user_desc_base user_desc_limit
init_gdte_lem base limit attr a b c = (ground arith, ground arith)

-- pack_tss_desc() and pack_ldt_desc() store an address that user_desc_base() gets back.
pub pack_ldt_desc_lem :
    (ldt limit : ℕ)
    → ldt < 2 ^ 64
    → limit < 2 ^ 20
    → (user_desc_base (pack_ldt_desc ldt limit).0 (pack_ldt_desc ldt limit).1 ≡ ldt)
      × (user_desc_limit (pack_ldt_desc ldt limit).0 ≡ limit)
      × (user_desc_base (pack_tss_desc ldt).0 (pack_tss_desc ldt).1 ≡ ldt)
      × (user_desc_limit (pack_tss_desc ldt).0 + 1 ≡ sizeof_env_tss)
unfolding pack_ldt_desc pack_tss_desc
pack_ldt_desc_lem ldt limit a b =
    let (x, y) = init_gdte_lem ldt limit 130 a b (omega arith) in
    let (z, w) = init_gdte_lem ldt (sizeof_env_tss - 1) 137 a (omega arith) (omega arith) in
    (x, y, z, omega (arith, w))
