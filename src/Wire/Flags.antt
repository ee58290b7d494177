-- ===== src/Wire/Flags.antt =====
-- rpl.h: the flags and the small fields that share a byte. `a & mask` is `bit_and`, `a >> k` a
-- quotient.
use rpld_hymrpl.Prelude.{ℕ, ◌*◌, ◌/◌, ◌^◌, ◌==◌, bit_and, if◌then◌else◌}
use rpld_hymrpl.Dag.{
  Mop, no_downward, nonstoring, storing_no_multicast, storing_multicast, hybrid, other,
}

abbrev pub rpl_dio_ground_flag : ℕ
rpl_dio_ground_flag = 128

abbrev pub rpl_dio_mop_mask : ℕ
rpl_dio_mop_mask = 7 * 2 ^ 3

abbrev pub rpl_dio_prf_mask : ℕ
rpl_dio_prf_mask = 7 * 2 ^ 0

unfoldable pub rpl_dio_grounded : ℕ → ℕ
rpl_dio_grounded x = bit_and x rpl_dio_ground_flag

-- The number that `RPL_DIO_MOP` casts to the enum.
unfoldable pub rpl_dio_mop : ℕ → ℕ
rpl_dio_mop x = bit_and x rpl_dio_mop_mask / 2 ^ 3

unfoldable pub rpl_dio_prf : ℕ → ℕ
rpl_dio_prf x = bit_and x rpl_dio_prf_mask / 2 ^ 0

-- `enum RPL_DIO_MOP`; the values with no name are `other`.
unfoldable pub mop_named : ℕ → Mop
mop_named value =
    if value == 0
    then no_downward
    else if value == 1
    then nonstoring
    else if value == 2
    then storing_no_multicast
    else if value == 3
    then storing_multicast
    else if value == 6
    then hybrid
    else other value

-- `RPL_DIO_MOP`
unfoldable pub mop_of : ℕ → Mop
mop_of mopprf = mop_named (rpl_dio_mop mopprf)

unfoldable pub rpl_dao_k : ℕ → ℕ
rpl_dao_k x = bit_and x (2 ^ 7) / 2 ^ 7

unfoldable pub rpl_dao_d : ℕ → ℕ
rpl_dao_d x = bit_and x (2 ^ 6) / 2 ^ 6

unfoldable pub rpl_daoack_d : ℕ → ℕ
rpl_daoack_d x = bit_and x (2 ^ 7) / 2 ^ 7
