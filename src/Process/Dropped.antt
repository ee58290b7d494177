-- ===== src/Process/Dropped.antt =====
-- The packets that process.c drops, by the tests of `process`, `process_dio` and `process_dao`.
use rpld_hymrpl.Prelude.{
  ℕ, zero, suc, ◌+◌, ◌-◌, ◌<◌, ◌≡◌, ◌≢◌, ◌⊎◌, inl, inr, refl, ap, sym, true, none, some, List, [],
  ◌∷◌, arith, get_elem?, set, ltb, ◌==◌, Bool-cases,
}
use rpld_hymrpl.Dag.{Addr, Time, Iface}
use rpld_hymrpl.Wire.{Memory, read_addr}
use rpld_hymrpl.Process.{Net}
use rpld_hymrpl.Process.Dio.{join_dag, process_dio, dio_size}
use rpld_hymrpl.Process.Dao.{process_dao, dao_size}
use rpld_hymrpl.Process.Dispatch.{process_message, process}

-- The message behind the ICMPv6 header.
abbrev pub message_of : Memory → Memory
message_of packet = λ i. packet (i + 4)

-- What is wrong with a prefix option: its header is cut off, it is of another type, or the prefix is
-- longer than the packet.
abbrev pub IsBadOption : Net → Memory → ℕ → Type 0
IsBadOption net packet len =
    (len < 36) ⊎ ((packet 28 ≢ 3) ⊎ (len < 36 + net.bits_to_bytes (packet 30)))

-- Why a message of an interface is dropped.
pub data IsDroppedAt (net : Net) (iface : Iface) (packet : Memory) (len : ℕ) : Type 0 where
  foreign_type : packet 0 ≢ 155 → IsDroppedAt net iface packet len
  other_code : 3 < packet 1 → IsDroppedAt net iface packet len
  short_dio : packet 1 ≡ 1 → len < 28 → IsDroppedAt net iface packet len
  bad_option :
      packet 1 ≡ 1
      → net.dag_lookup iface (packet 4) (read_addr (message_of packet) 8) ≡ none
      → IsBadOption net packet len
      → IsDroppedAt net iface packet len
  short_dao : packet 1 ≡ 2 → len < 24 → IsDroppedAt net iface packet len
  unknown_dao :
      packet 1 ≡ 2
      → net.dag_lookup iface (packet 4) (read_addr (message_of packet) 4) ≡ none
      → IsDroppedAt net iface packet len

set_same :
    (ifaces : List Iface) (i : ℕ) (iface : Iface)
    → get_elem? ifaces i ≡ some iface
    → set ifaces i iface ≡ ifaces
set_same [] i iface h = refl
set_same (x ∷ ifaces) zero iface h = let same : x ≡ iface = cc in ap (λ y. y ∷ ifaces) (sym same)
set_same (x ∷ ifaces) (suc i) iface h = ap (λ ys. x ∷ ys) (set_same ifaces i iface h)

module _ (net : Net) (now : Time) (iface : Iface) (packet : Memory) (len : ℕ) (from : Addr) where
  join_dag-none :
      IsBadOption net packet len → join_dag net iface (message_of packet) (len - 28) ≡ none
  unfolding join_dag
  join_dag-none bad = elim (Bool-cases (ltb (len - 28) 8)) [
    | inl short ↦ rw (short, join_dag) refl
    | inr fits ↦ elim (Bool-cases (packet 28 == 3)) [
      | inr other ↦ rw (fits, other, join_dag) refl
      | inl kind ↦
          let long : ltb (len - 28 - 8) (net.bits_to_bytes (packet 30)) ≡ true =
            ground (arith, bad, fits, kind) in
          rw (fits, kind, long, join_dag) refl
    ]
  ]

  process_dio_dropped :
      net.dag_lookup iface (packet 4) (read_addr (message_of packet) 8) ≡ none
      → IsBadOption net packet len
      → process_dio net now iface (message_of packet) (len - 4) from ≡ (iface, [])
  unfolding process_dio
  process_dio_dropped unknown bad = elim (Bool-cases (ltb (len - 4) dio_size)) [
    | inl short ↦ rw (short, process_dio) refl
    | inr fits ↦
        let behind : len - 4 - 24 ≡ len - 28 = omega arith in
        rw (fits, unknown, behind, join_dag-none bad) refl
  ]

  process_dao_dropped :
      net.dag_lookup iface (packet 4) (read_addr (message_of packet) 4) ≡ none
      → process_dao net iface (message_of packet) (len - 4) from ≡ (iface, [])
  unfolding process_dao
  process_dao_dropped unknown = elim (Bool-cases (ltb (len - 4) dao_size)) [
    | inl short ↦ rw (short, process_dao) refl
    | inr fits ↦ rw (fits, unknown) refl
  ]

  process_message_dropped :
      IsDroppedAt net iface packet len
      → packet 0 ≡ 155
      → process_message net now iface (packet 1) (message_of packet) (len - 4) from ≡ (iface, [])
  unfolding process_message process_dio process_dao
  process_message_dropped (foreign_type h) kind = absurd (h kind)
  process_message_dropped (other_code h) kind = ground (arith, h)
  process_message_dropped (short_dio code h) kind =
      let short : ltb (len - 4) 24 ≡ true = ground (arith, h) in rw (code, short) refl
  process_message_dropped (bad_option code unknown bad) kind =
      rw code (process_dio_dropped unknown bad)
  process_message_dropped (short_dao code h) kind =
      let short : ltb (len - 4) 20 ≡ true = ground (arith, h) in rw (code, short) refl
  process_message_dropped (unknown_dao code unknown) kind = rw code (process_dao_dropped unknown)

  -- A packet of another type than RPL, of a code above that of a DAO-ACK, a DIO or DAO shorter than its
  -- header, a DAO of an unknown dag, and a DIO of an unknown dag whose prefix option is cut off, of
  -- another type or longer than the packet, is dropped: no interface changes, and nothing is sent
  -- or asked for.
  pub process-dropped :
      (ifaces : List Iface) (place : ℕ)
      → get_elem? ifaces place ≡ some iface
      → IsDroppedAt net iface packet len
      → process net now ifaces (some (place, iface)) packet len from ≡ (ifaces, [])
  unfolding process
  process-dropped ifaces place held dropped = elim (Bool-cases (ltb len 4)) [
    | inl short ↦ rw (short, process) refl
    | inr fits ↦ elim (Bool-cases (packet 0 == 155)) [
      | inr other ↦ rw (fits, other, process) refl
      | inl kind ↦
          rw (fits, kind, process_message_dropped dropped (ground arith))
            (ap (λ l. (l, [])) (set_same ifaces place iface held))
    ]
  ]
