-- ===== src/Wire/Macros.antt =====
-- rpl.h: what its macros read of a flags byte.
use rpld_hymrpl.Prelude.{ℕ, ◌+◌, ◌*◌, ◌<◌, ◌≡◌, arith, bit_and_7, bit_and_64, bit_and_128}
use rpld_hymrpl.Dag.{Mop}
use rpld_hymrpl.Wire.Flags.{
  mop_of, rpl_dio_grounded, rpl_dio_prf, rpl_dao_k, rpl_dao_d, rpl_daoack_d,
}
use rpld_hymrpl.Wire.Structs.{mopprf, IsMop, mop_value-lt, mop_of-mopprf}

-- The macros of rpl.h read the parts of a flags byte back: of the mode byte of a DIO the grounded
-- flag, in its place, the mode and the preference, and of the flags byte of a DAO or a DAO-ACK the
-- flags K and D, where the parts fit their bits and the mode is one that a DIO can tell.
pub macros_read_back :
    (grounded prf k d rest : ℕ) (mode : Mop)
    → grounded < 2
    → prf < 8
    → IsMop mode
    → k < 2
    → d < 2
    → rest < 64
    → let mode_byte = mopprf grounded mode prf in
      let flags = k * 128 + d * 64 + rest in
      (rpl_dio_grounded mode_byte ≡ grounded * 128)
      × (mop_of mode_byte ≡ mode)
      × (rpl_dio_prf mode_byte ≡ prf)
      × (rpl_dao_k flags ≡ k)
      × (rpl_dao_d flags ≡ d)
      × (rpl_daoack_d flags ≡ k)
unfolding rpl_dio_grounded rpl_dio_prf rpl_dao_k rpl_dao_d rpl_daoack_d
macros_read_back grounded prf k d rest mode one small named k_small d_small rest_small =
    let byte = mopprf grounded mode prf in
    let flags = k * 128 + d * 64 + rest in
    let fits = mop_value-lt mode named in
    (
      omega (arith, bit_and_128 byte, fits),
      mop_of-mopprf grounded prf mode small named,
      omega (arith, bit_and_7 byte),
      omega (arith, bit_and_128 flags),
      omega (arith, bit_and_64 flags),
      omega (arith, bit_and_128 flags),
    )
