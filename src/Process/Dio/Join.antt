-- ===== src/Process/Dio/Join.antt =====
-- The copy of the prefix of a DIO of a new dag.
use rpld_hymrpl.Prelude.{ℕ, zero, suc, ◌+◌, ◌/◌, ◌≤◌, ◌<◌, ◌≡◌, refl, ap, arith, length}
use rpld_hymrpl.Dag.{Prefix, Iface, infinite_rank}
use rpld_hymrpl.Wire.{Memory, read_bytes, read_addr}
use rpld_hymrpl.Wire.Flags.{mop_of}
use rpld_hymrpl.Process.{Net}
use rpld_hymrpl.Process.Dio.{dio_size, join_dag}

length-read_bytes : (msg : Memory) (i n : ℕ) → length (read_bytes msg i n) ≡ n
unfolding read_bytes
length-read_bytes msg i zero = refl
length-read_bytes msg i (suc n) = ap suc (length-read_bytes msg (i + 1) n)

-- A DIO of a new dag whose prefix option claims more than 128 bits, and that is long enough for them,
-- passes all checks: more than the sixteen bytes of an address are copied, and the dag is asked for.
-- `bits_to_bytes` is taken to round up.
pub long_prefix_copied :
    (net : Net) (iface : Iface) (msg : Memory) (len : ℕ)
    → msg dio_size ≡ 3
    → 128 < msg (dio_size + 2)
    → net.bits_to_bytes (msg (dio_size + 2)) ≡ (msg (dio_size + 2) + 7) / 8
    → 8 + (msg (dio_size + 2) + 7) / 8 ≤ len
    → (dest : Prefix) × (join_dag net iface msg len
        ≡ net.dag_create iface
            (msg 0)
            (read_addr msg 8)
            infinite_rank
            (msg 1)
            (mop_of (msg 4))
            dest)
      × (16 < length dest.bytes)
unfolding join_dag
long_prefix_copied net iface msg len kind long rounds fits =
    let size = net.bits_to_bytes (msg (dio_size + 2)) in
    let bytes = read_bytes msg (dio_size + 8) size in
    let count : length bytes ≡ size = length-read_bytes msg (dio_size + 8) size in
    (record { len = msg (dio_size + 2); bytes = bytes }, ground arith, omega (arith, count, rounds))
