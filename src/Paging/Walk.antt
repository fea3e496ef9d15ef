-- ===== src/Paging/Walk.antt =====
-- What the indices of the page tables say about a linear address.
use xtf.Base.{ℕ, ◌+◌, ◌*◌, ◌%◌, ◌^◌, ◌<◌, ◌≡◌, arith}
use xtf.Paging.{
  pae_l1_table_offset, pae_l2_table_offset, pae_l3_table_offset, pae_l4_table_offset,
  pse_l1_table_offset, pse_l2_table_offset,
}

-- Each index of a PAE page walk is below 512, and they give back the lower 48 bits of the linear
-- address, together with the offset in the page.
pub pae_table_offsets :
    (linear : ℕ)
    → (pae_l1_table_offset linear < 512)
      × (pae_l2_table_offset linear < 512)
      × (pae_l3_table_offset linear < 512)
      × (pae_l4_table_offset linear < 512)
      × (pae_l4_table_offset linear * 2 ^ 39
            + pae_l3_table_offset linear * 2 ^ 30
            + pae_l2_table_offset linear * 2 ^ 21
            + pae_l1_table_offset linear * 2 ^ 12
            + linear % 2 ^ 12
          ≡ linear % 2 ^ 48)
unfolding pae_l1_table_offset pae_l2_table_offset pae_l3_table_offset pae_l4_table_offset
pae_table_offsets linear = (omega arith, omega arith, omega arith, omega arith, omega arith)

-- The same of the two indices of a PSE page walk and the 32 bits of an address.
pub pse_table_offsets :
    (linear : ℕ)
    → (pse_l1_table_offset linear < 1024)
      × (pse_l2_table_offset linear < 1024)
      × (pse_l2_table_offset linear * 2 ^ 22 + pse_l1_table_offset linear * 2 ^ 12 + linear % 2 ^ 12
          ≡ linear % 2 ^ 32)
unfolding pse_l1_table_offset pse_l2_table_offset
pse_table_offsets linear = (omega arith, omega arith, omega arith)
