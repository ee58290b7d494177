-- ===== src/Wire/Structs.antt =====
-- The bytes of the structs of a DAO and a DIO, and that the casts read them back, wherever they stand.
use rpld_hymrpl.Prelude.{
  refl, ap, ◌∙◌, bit_and, bit_and_56, ℕ, ◌+◌, ◌*◌, ◌/◌, ◌%◌, ◌^◌, ◌<◌, ◌≡◌, ◌≢◌, List, [], ◌∷◌,
  ◌++◌, arith, length,
}
use rpld_hymrpl.Dag.{
  Addr, Mop, no_downward, nonstoring, storing_no_multicast, storing_multicast, hybrid, other,
}
use rpld_hymrpl.Wire.{
  memory_of, read16, bytes_of, NdRplDio, dio_of, NdRplDao, dao_of, RplDaoTarget, target_at,
  RplDaoTransit, transit_at,
}
use rpld_hymrpl.Wire.Flags.{mop_of, mop_named, rpl_dio_mop}
use rpld_hymrpl.Wire.Layout.{byte_at, byte_behind, addr_behind, length-bytes_of}

abbrev pub IsAddr : Addr → Type 0
IsAddr a = a < 256 ^ 16

abbrev pub target_head : RplDaoTarget → List ℕ
target_head t = t.rpl_dao_type ∷ t.rpl_dao_len ∷ t.rpl_dao_flags ∷ t.rpl_dao_prefixlen ∷ []

unfoldable pub target_bytes : RplDaoTarget → List ℕ
target_bytes t = target_head t ++ bytes_of 16 t.rpl_dao_prefix

abbrev pub transit_head : RplDaoTransit → List ℕ
transit_head t = t.transit_type ∷ t.transit_len ∷ t.flags ∷ t.path_ctrl ∷ t.seq ∷ t.lifetime ∷ []

unfoldable pub transit_bytes : RplDaoTransit → List ℕ
transit_bytes t = transit_head t ++ bytes_of 16 t.parent

pub length-target_bytes : (t : RplDaoTarget) → length (target_bytes t) ≡ 20
unfolding target_bytes
length-target_bytes t = omega (arith, length-bytes_of 16 t.rpl_dao_prefix)

pub length-transit_bytes : (t : RplDaoTransit) → length (transit_bytes t) ≡ 22
unfolding transit_bytes
length-transit_bytes t = omega (arith, length-bytes_of 16 t.parent)

pub target_at-target_bytes :
    (xs rest : List ℕ) (t : RplDaoTarget)
    → IsAddr t.rpl_dao_prefix
    → target_at (memory_of (xs ++ (target_bytes t ++ rest))) (length xs) ≡ t
unfolding target_bytes
target_at-target_bytes xs rest t h =
    let ys = target_bytes t ++ rest in
    λ i. record {
      rpl_dao_type = byte_at xs ys i;
      rpl_dao_len = byte_behind xs ys 1 i;
      rpl_dao_flags = byte_behind xs ys 2 i;
      rpl_dao_prefixlen = byte_behind xs ys 3 i;
      rpl_dao_prefix = addr_behind xs (target_head t) rest t.rpl_dao_prefix h i;
    }

pub transit_at-transit_bytes :
    (xs rest : List ℕ) (t : RplDaoTransit)
    → IsAddr t.parent
    → transit_at (memory_of (xs ++ (transit_bytes t ++ rest))) (length xs) ≡ t
unfolding transit_bytes
transit_at-transit_bytes xs rest t h =
    let ys = transit_bytes t ++ rest in
    λ i. record {
      transit_type = byte_at xs ys i;
      transit_len = byte_behind xs ys 1 i;
      flags = byte_behind xs ys 2 i;
      path_ctrl = byte_behind xs ys 3 i;
      seq = byte_behind xs ys 4 i;
      lifetime = byte_behind xs ys 5 i;
      parent = addr_behind xs (transit_head t) rest t.parent h i;
    }

abbrev pub dio_head : NdRplDio → List ℕ
dio_head d =
    d.rpl_instanceid
    ∷ d.rpl_version
    ∷ d.rpl_dagrank / 256
    ∷ d.rpl_dagrank % 256
    ∷ d.rpl_mopprf
    ∷ d.rpl_dtsn
    ∷ d.rpl_flags
    ∷ d.rpl_resv1
    ∷ []

unfoldable pub dio_bytes : NdRplDio → List ℕ
dio_bytes d = dio_head d ++ bytes_of 16 d.rpl_dagid

pub length-dio_bytes : (d : NdRplDio) → length (dio_bytes d) ≡ 24
unfolding dio_bytes
length-dio_bytes d = omega (arith, length-bytes_of 16 d.rpl_dagid)

pub dio_of-dio_bytes :
    (rest : List ℕ) (d : NdRplDio)
    → IsAddr d.rpl_dagid
    → dio_of (memory_of (dio_bytes d ++ rest)) ≡ d
unfolding dio_bytes
dio_of-dio_bytes rest d h =
    let rank : read16 (memory_of (dio_bytes d ++ rest)) 2 ≡ d.rpl_dagrank =
      unfold read16 in omega arith in
    λ i. record {
      rpl_instanceid = d.rpl_instanceid;
      rpl_version = d.rpl_version;
      rpl_dagrank = rank i;
      rpl_mopprf = d.rpl_mopprf;
      rpl_dtsn = d.rpl_dtsn;
      rpl_flags = d.rpl_flags;
      rpl_resv1 = d.rpl_resv1;
      rpl_dagid = addr_behind [] (dio_head d) rest d.rpl_dagid h i;
    }

-- The value of a mode in bits 5 to 3 of `rpl_mopprf`, between the grounded flag and the preference.
unfoldable pub mop_value : Mop → ℕ
mop_value no_downward = 0
mop_value nonstoring = 1
mop_value storing_no_multicast = 2
mop_value storing_multicast = 3
mop_value hybrid = 6
mop_value (other value) = value

abbrev pub mopprf : ℕ → Mop → ℕ → ℕ
mopprf grounded mode prf = grounded * 128 + mop_value mode * 8 + prf

-- A value with no name of its own.
abbrev pub IsMop : Mop → Type 0
IsMop (other value) = (3 < value) × (value < 8) × (value ≢ 6)
IsMop _ = Unit {0}

mop_named-mop_value : (mode : Mop) → IsMop mode → mop_named (mop_value mode) ≡ mode
unfolding mop_named mop_value
mop_named-mop_value no_downward h = refl
mop_named-mop_value nonstoring h = refl
mop_named-mop_value storing_no_multicast h = refl
mop_named-mop_value storing_multicast h = refl
mop_named-mop_value hybrid h = refl
mop_named-mop_value (other value) h = ground arith

pub mop_value-lt : (mode : Mop) → IsMop mode → mop_value mode < 8
unfolding mop_value
mop_value-lt no_downward h = omega arith
mop_value-lt nonstoring h = omega arith
mop_value-lt storing_no_multicast h = omega arith
mop_value-lt storing_multicast h = omega arith
mop_value-lt hybrid h = omega arith
mop_value-lt (other value) h = omega arith

pub mop_of-mopprf :
    (grounded prf : ℕ) (mode : Mop)
    → prf < 8
    → IsMop mode
    → mop_of (mopprf grounded mode prf) ≡ mode
unfolding mop_of rpl_dio_mop
mop_of-mopprf grounded prf mode small named =
    let read : bit_and (mopprf grounded mode prf) 56 / 8 ≡ mop_value mode =
      omega (arith, bit_and_56 (mopprf grounded mode prf), mop_value-lt mode named) in
    ap mop_named read ∙ mop_named-mop_value mode named

abbrev pub dao_head : NdRplDao → List ℕ
dao_head d = d.rpl_instanceid ∷ d.rpl_flags ∷ d.rpl_resv ∷ d.rpl_daoseq ∷ []

unfoldable pub dao_bytes : NdRplDao → List ℕ
dao_bytes d = dao_head d ++ bytes_of 16 d.rpl_dagid

pub length-dao_bytes : (d : NdRplDao) → length (dao_bytes d) ≡ 20
unfolding dao_bytes
length-dao_bytes d = omega (arith, length-bytes_of 16 d.rpl_dagid)

pub dao_of-dao_bytes :
    (rest : List ℕ) (d : NdRplDao)
    → IsAddr d.rpl_dagid
    → dao_of (memory_of (dao_bytes d ++ rest)) ≡ d
unfolding dao_bytes
dao_of-dao_bytes rest d h = λ i. record {
  rpl_instanceid = d.rpl_instanceid;
  rpl_flags = d.rpl_flags;
  rpl_resv = d.rpl_resv;
  rpl_daoseq = d.rpl_daoseq;
  rpl_dagid = addr_behind [] (dao_head d) rest d.rpl_dagid h i;
}
