-- ===== src/Process/Dio/LaidOut.antt =====
-- A DIO with its prefix option as a sender lays it out, and what a node that does not know the dag
-- makes of it.
use mathlib.Core.List.{append_assoc}
use rpld_hymrpl.Prelude.{
  ℕ, ◌+◌, ◌-◌, ◌≤◌, ◌<◌, ◌≡◌, refl, ap, ◌∙◌, Bool, none, some, List, ◌∷◌, ◌++◌, arith, ltb, ◌==◌,
  not, length, length-append,
}
use rpld_hymrpl.Dag.{Addr, Time, Mop, Peer, Prefix, Dag, Iface, infinite_rank}
use rpld_hymrpl.Wire.{Memory, memory_of, read_bytes, NdRplDio, dio_of}
use rpld_hymrpl.Wire.Flags.{mop_of}
use rpld_hymrpl.Wire.Layout.{byte_behind, read_bytes-memory_of}
use rpld_hymrpl.Wire.Structs.{
  IsAddr, dio_bytes, length-dio_bytes, dio_of-dio_bytes, mopprf, IsMop, mop_of-mopprf,
}
use rpld_hymrpl.Process.{route_default, DagRef, dag_at, Net}
use rpld_hymrpl.Process.Dio.{send_daos, join_dag, inherit_class, update_at, process_dio}
use rpld_hymrpl.Process.Dio.Rank.{NetLaws}
use rpld_hymrpl.Process.Dio.History.{IsRank, Follows}
use rpld_hymrpl.Process.Dio.Created.{JoinLaws, update_at_new}

-- The prefix option, type 3, with as many bytes of prefix as its length in bits asks for.
pub record PrefixOption : Type 0 where
  pub opt_len : ℕ
  pub prefixlen : ℕ
  pub prf : ℕ
  pub lifetime : List ℕ
  pub prefix : List ℕ

abbrev pub option_head : PrefixOption → List ℕ
option_head o = 3 ∷ o.opt_len ∷ o.prefixlen ∷ o.prf ∷ o.lifetime

unfoldable pub announcement : NdRplDio → PrefixOption → List ℕ → List ℕ
announcement d o rest = dio_bytes d ++ (option_head o ++ (o.prefix ++ rest))

-- The dag that is asked for, by the fields that the message holds.
join_dag_of :
    (net : Net) (iface : Iface) (msg : Memory) (len : ℕ) (d : NdRplDio) (prefixlen : ℕ)
    (prefix : List ℕ)
    → dio_of msg ≡ d
    → msg 24 ≡ 3
    → msg 26 ≡ prefixlen
    → net.bits_to_bytes prefixlen ≡ length prefix
    → read_bytes msg 32 (length prefix) ≡ prefix
    → 8 + length prefix ≤ len
    → join_dag net iface msg len
      ≡ net.dag_create iface d.rpl_instanceid d.rpl_dagid infinite_rank d.rpl_version
          (mop_of d.rpl_mopprf)
          (record { len = prefixlen; bytes = prefix })
unfolding join_dag
join_dag_of net iface msg len d prefixlen prefix header kind bits counted copied room =
    let size : net.bits_to_bytes (msg 26) ≡ length prefix = ap net.bits_to_bytes bits ∙ counted in
    let no_short : ltb len 8 ≡ Bool.false = ground arith in
    let is_prefix : not (msg 24 == 3) ≡ Bool.false = ground arith in
    let no_short' : ltb (len - 8) (length prefix) ≡ Bool.false = ground arith in
    rw (no_short, is_prefix, size, no_short', bits, copied)
      (λ i.
        net.dag_create iface (header i).rpl_instanceid (header i).rpl_dagid infinite_rank
          (header i).rpl_version (mop_of (header i).rpl_mopprf)
          (record { len = prefixlen; bytes = prefix }))

process_dio_new :
    (net : Net) (now : Time) (iface iface' : Iface) (ref : DagRef) (msg : Memory) (len : ℕ)
    (from : Addr) (d : NdRplDio)
    → dio_of msg ≡ d
    → 24 ≤ len
    → net.dag_lookup iface d.rpl_instanceid d.rpl_dagid ≡ none
    → join_dag net iface msg (len - 24) ≡ some (iface', ref)
    → process_dio net now iface msg len from
      ≡ update_at net now from d.rpl_dagrank iface' ref (inherit_class iface (dag_at iface' ref))
unfolding process_dio
process_dio_new net now iface iface' ref msg len from d header room new joins =
    let no_short : ltb len 24 ≡ Bool.false = ground arith in
    let instance = ap (λ x. x.rpl_instanceid) header in
    let dagid = ap (λ x. x.rpl_dagid) header in
    let rank = ap (λ x. x.rpl_dagrank) header in
    rw (no_short, instance, dagid, new, joins, rank) refl

module _ (d : NdRplDio) (o : PrefixOption) (rest : List ℕ) (four : length o.lifetime ≡ 4) where
  length-announcement : length (announcement d o rest) ≡ 32 + length o.prefix + length rest
  unfolding announcement
  length-announcement = omega (
    arith,
    four,
    length-dio_bytes d,
    length-append (dio_bytes d) (option_head o ++ (o.prefix ++ rest)),
    length-append (option_head o) (o.prefix ++ rest),
    length-append o.prefix rest,
  )

  option_at :
      (i : ℕ)
      → memory_of (announcement d o rest) (24 + i)
        ≡ memory_of (option_head o ++ (o.prefix ++ rest)) i
  unfolding announcement
  option_at i =
      rw (length-dio_bytes d) at (byte_behind (dio_bytes d) (option_head o ++ (o.prefix ++ rest)) i)

  prefix_at : read_bytes (memory_of (announcement d o rest)) 32 (length o.prefix) ≡ o.prefix
  unfolding announcement
  prefix_at =
      let front = dio_bytes d ++ option_head o in
      let size : length front ≡ 32 =
        omega (arith, length-append (dio_bytes d) (option_head o), length-dio_bytes d, four) in
      rw (size, append_assoc (dio_bytes d) (option_head o) (o.prefix ++ rest)) at
        (read_bytes-memory_of front o.prefix rest)

  module _ (net : Net) (counted : net.bits_to_bytes o.prefixlen ≡ length o.prefix)
      (fits : IsAddr d.rpl_dagid) where
    header : dio_of (memory_of (announcement d o rest)) ≡ d
    unfolding announcement
    header = dio_of-dio_bytes (option_head o ++ (o.prefix ++ rest)) d fits

    -- What is asked of `dag_create` is what was laid out.
    join_dag-announcement :
        (iface : Iface)
        → join_dag net iface (memory_of (announcement d o rest)) (8 + length o.prefix + length rest)
          ≡ net.dag_create iface d.rpl_instanceid d.rpl_dagid infinite_rank d.rpl_version
              (mop_of d.rpl_mopprf)
              (record { len = o.prefixlen; bytes = o.prefix })
    join_dag-announcement iface =
        join_dag_of net iface (memory_of (announcement d o rest))
          (8 + length o.prefix + length rest) d o.prefixlen o.prefix header (option_at 0)
          (option_at 2) counted prefix_at (omega arith)

    process_dio_created :
        (now : Time) (iface iface' : Iface) (ref : DagRef) (mode : Mop) (grounded prf : ℕ)
        (from : Addr)
        → d.rpl_mopprf ≡ mopprf grounded mode prf
        → prf < 8
        → IsMop mode
        → net.dag_lookup iface d.rpl_instanceid d.rpl_dagid ≡ none
        → net.dag_create iface d.rpl_instanceid d.rpl_dagid infinite_rank d.rpl_version mode
            (record { len = o.prefixlen; bytes = o.prefix })
          ≡ some (iface', ref)
        → process_dio net now iface
            (memory_of (announcement d o rest))
            (length (announcement d o rest))
            from
          ≡ update_at net now from d.rpl_dagrank iface' ref
              (inherit_class iface (dag_at iface' ref))
    process_dio_created now iface iface' ref mode grounded prf from flags small named new made =
        let msg = memory_of (announcement d o rest) in
        let mode_of : mop_of d.rpl_mopprf ≡ mode =
          ap mop_of flags ∙ mop_of-mopprf grounded prf mode small named in
        let behind : length (announcement d o rest) - 24 ≡ 8 + length o.prefix + length rest =
          omega (arith, length-announcement) in
        process_dio_new net now iface iface' ref msg (length (announcement d o rest)) from d header
          (omega (arith, length-announcement)) new
          (rw behind (join_dag-announcement iface ∙ rw mode_of made))

    -- A DIO of a dag that the node does not know, with the prefix option behind its header and whatever
    -- behind that, makes the node a child of the sender: the dag that was created has the version,
    -- address and mode that were laid out, the prefix of the option and the class of the interface;
    -- the sender is its parent with the rank laid out, between 1 and 65534, and it stands one rank
    -- below. The node asks for the default route to the sender and for the DAOs of the mode, and for
    -- nothing else. The prefix has the bytes that `bits_to_bytes` counts, the lifetime has four; the
    -- address fits 128 bits, the mode and the preference three bits each; `dag_create` and
    -- `dag_peer_create` succeed. It relies on `NetLaws` and `JoinLaws`.
    pub process_dio-announcement :
        (laws : NetLaws net) (join : JoinLaws net) (now : Time) (iface iface' : Iface)
        (ref : DagRef) (mode : Mop) (grounded prf : ℕ) (from : Addr) (peer : Peer)
        → d.rpl_mopprf ≡ mopprf grounded mode prf
        → prf < 8
        → IsMop mode
        → IsRank d.rpl_dagrank
        → net.dag_peer_create from ≡ some peer
        → net.dag_lookup iface d.rpl_instanceid d.rpl_dagid ≡ none
        → net.dag_create iface d.rpl_instanceid d.rpl_dagid infinite_rank d.rpl_version mode
            (record { len = o.prefixlen; bytes = o.prefix })
          ≡ some (iface', ref)
        → let (iface'', effects) =
            process_dio net now iface
              (memory_of (announcement d o rest))
              (length (announcement d o rest))
              from in
          let parent : Peer = record { addr = from; rank = d.rpl_dagrank } in
          ((dag' : Dag) × (dag_at iface'' ref ≡ some dag')
            × Follows dag' parent
            × (dag'.version ≡ d.rpl_version)
            × (dag'.dodagid ≡ d.rpl_dagid)
            × (dag'.mop ≡ mode)
            × (dag'.dest ≡ record { len = o.prefixlen; bytes = o.prefix })
            × (dag'.node_class ≡ iface.node_class))
          × (effects ≡ route_default iface.ifindex from ∷ send_daos mode d.rpl_dagid parent)
    process_dio-announcement laws join now iface iface' ref mode grounded prf from peer flags small
          named rank peer_made new made =
        let dest : Prefix = record { len = o.prefixlen; bytes = o.prefix } in
        let (dag, at_ref, fresh) =
          join.creates iface iface' ref d.rpl_instanceid d.rpl_dagid infinite_rank d.rpl_version
            mode dest made in
        rw
          (process_dio_created now iface iface' ref mode grounded prf from flags small named new
            made)
          (update_at_new laws join now iface iface' ref from d.rpl_dagrank mode d.rpl_dagid
            d.rpl_version dest peer dag rank peer_made at_ref fresh)
