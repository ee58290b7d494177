-- ===== src/Tests/Layout.antt =====
-- Laid out messages, read by the handlers.
use rpld_hymrpl.Prelude.{
  ℕ, zero, suc, Each, get_elem?, ◌≡◌, refl, none, List, [], ◌∷◌, ◌++◌, arith, length, set, some,
  ◌+◌, replicate,
}
use rpld_hymrpl.Dag.{Peer, infinite_rank, Addr, seconds, hybrid, class_s, Child, Dag, Iface}
use rpld_hymrpl.Wire.{memory_of, bytes_of, NdRplDao, RplDaoTarget, RplDaoTransit, NdRplDio}
use rpld_hymrpl.Wire.Flags.{
  mop_of, rpl_dio_grounded, rpl_dio_prf, rpl_dao_k, rpl_dao_d, rpl_daoack_d,
}
use rpld_hymrpl.Wire.Macros.{macros_read_back}
use rpld_hymrpl.Wire.Structs.{dao_bytes, mopprf, target_bytes, transit_bytes}
use rpld_hymrpl.Process.{route_default, dag_at, rpl_dag, put_dag, source_routes, send_dao_ack}
use rpld_hymrpl.Process.Dispatch.{process}
use rpld_hymrpl.Process.Dao.Routes.{insert_of, routes_to}
use rpld_hymrpl.Process.Dao.ByClass.{HasChild, class_routes, ChildListLaws, process-class_routes}
use rpld_hymrpl.Process.Dao.Packet.{ChildLaws, dao_options, process-source_routes}
use rpld_hymrpl.Process.Dio.{process_dio, send_daos}
use rpld_hymrpl.Process.Dio.History.{Follows}
use rpld_hymrpl.Process.Dio.LaidOut.{PrefixOption, announcement, process_dio-announcement}
use rpld_hymrpl.Process.Dao.{Options, parse_options, parsed}
use rpld_hymrpl.Process.Dao.LaidOut.{
  DaoOption, target, transit, unknown, options_bytes, AreOptions, heed_all,
  parse_options-options_bytes,
}
use rpld_hymrpl.Tests.Data.{
  toy_net-NetLaws, toy_net-JoinLaws, toy_net, node_dag, root_dag, node_iface, add_rpl, new_dag,
}

abbrev target_of : Addr → DaoOption
target_of addr = target (record {
  rpl_dao_type = 5;
  rpl_dao_len = 18;
  rpl_dao_flags = 0;
  rpl_dao_prefixlen = 128;
  rpl_dao_prefix = addr;
})

abbrev transit_of : Addr → DaoOption
transit_of addr = transit (record {
  transit_type = 6;
  transit_len = 20;
  flags = 0;
  path_ctrl = 0;
  seq = 0;
  lifetime = 255;
  parent = addr;
})

-- Two targets, an option of another type, and a transit option.
abbrev options : List DaoOption
options = target_of 41 ∷ target_of 42 ∷ unknown 9 (1 ∷ 2 ∷ 3 ∷ []) ∷ transit_of 40 ∷ []

abbrev no_options : Options
no_options = record { transit = none; targets = []; dag = root_dag }

parse_options-options_bytes_example :
    parse_options toy_net
      (memory_of (replicate 20 0 ++ (options_bytes options ++ (7 ∷ []))))
      21
      100
      20
      (length (options_bytes options))
      no_options
    ≡ parsed (heed_all toy_net 21 options no_options)
parse_options-options_bytes_example =
    parse_options-options_bytes toy_net 21 (replicate 20 0) (7 ∷ []) options 100 no_options
      (
        (refl, refl, omega arith),
        ((refl, refl, omega arith), ((omega arith, omega arith), ((refl, refl, omega arith), tt))),
      )
      (unfold target_bytes transit_bytes bytes_of in omega arith)

-- A DIO of instance 2, version 1 and rank 9, in hybrid mode, with a prefix of 64 bits.
abbrev dio : NdRplDio
dio = record {
  rpl_instanceid = 2;
  rpl_version = 1;
  rpl_dagrank = 9;
  rpl_mopprf = mopprf 1 hybrid 0;
  rpl_dtsn = 0;
  rpl_flags = 0;
  rpl_resv1 = 0;
  rpl_dagid = 99;
}

abbrev option : PrefixOption
option = record {
  opt_len = 14;
  prefixlen = 64;
  prf = 0;
  lifetime = replicate 4 255;
  prefix = replicate 8 253;
}

abbrev joined : Iface
joined = add_rpl node_iface (record {
  instance_id = 2;
  dags = new_dag 5 99 65535 1 hybrid (record { len = 64; bytes = replicate 8 253 }) ∷ [];
})

process_dio-announcement_example :
    let (iface', effects) =
      process_dio toy_net
        (seconds 101)
        node_iface
        (memory_of (announcement dio option (7 ∷ [])))
        (length (announcement dio option (7 ∷ [])))
        22 in
    let parent : Peer = record { addr = 22; rank = 9 } in
    ((dag' : Dag) × (dag_at iface' (0, 0) ≡ some dag')
      × Follows dag' parent
      × (dag'.version ≡ 1)
      × (dag'.dodagid ≡ 99)
      × (dag'.mop ≡ hybrid)
      × (dag'.dest ≡ record { len = 64; bytes = replicate 8 253 })
      × (dag'.node_class ≡ class_s))
    × (effects ≡ route_default 5 22 ∷ send_daos hybrid 99 parent)
process_dio-announcement_example =
    process_dio-announcement dio option (7 ∷ []) refl toy_net refl (omega arith) toy_net-NetLaws
      toy_net-JoinLaws (seconds 101) node_iface joined (0, 0) hybrid 1 0 22
      (record { addr = 22; rank = infinite_rank }) refl (omega arith) tt (omega arith) refl refl
      refl

-- A DAO of instance 1 with two targets, in the memory before some other bytes.
abbrev dao : NdRplDao
dao = record { rpl_instanceid = 1; rpl_flags = 0; rpl_resv = 0; rpl_daoseq = 7; rpl_dagid = 99 }

abbrev target_to : Addr → RplDaoTarget
target_to addr = record {
  rpl_dao_type = 5;
  rpl_dao_len = 18;
  rpl_dao_flags = 0;
  rpl_dao_prefixlen = 128;
  rpl_dao_prefix = addr;
}

abbrev targets : List RplDaoTarget
targets = target_to 41 ∷ target_to 42 ∷ []

abbrev transit_to : RplDaoTransit
transit_to = record {
  transit_type = 6;
  transit_len = 20;
  flags = 0;
  path_ctrl = 0;
  seq = 0;
  lifetime = 255;
  parent = 40;
}

abbrev root_iface : Iface
root_iface = record node_iface { rpls = record { instance_id = 1; dags = root_dag ∷ [] } ∷ [] }

toy_net-ChildLaws : ChildLaws toy_net
toy_net-ChildLaws = record {
  child_mop = λ d a f. refl;
  child_rank = λ d a f. refl;
  child_root = λ d a f. refl;
  child_ifindex = λ d a f. refl;
}

process-source_routes_example :
    let bytes = dao_bytes dao ++ (options_bytes (dao_options targets transit_to) ++ 7 ∷ []) in
    let (ifaces', effects) =
      process toy_net 5
        (root_iface ∷ [])
        (some (0, root_iface))
        (memory_of (155 ∷ 2 ∷ 0 ∷ 0 ∷ bytes))
        (24 + length (options_bytes (dao_options targets transit_to)))
        21 in
    (dag' : Dag) × (ifaces' ≡ set (root_iface ∷ []) 0 (put_dag root_iface (0, 0) dag'))
    × ((dag'.root ≡ insert_of 40 21 41 ∷ insert_of 40 21 42 ∷ [])
        × (effects
            ≡ source_routes 5 (record { addr = 40; target = 41 } ∷ [])
              ∷ source_routes 5 (record { addr = 40; target = 42 } ∷ [])
              ∷ send_dao_ack 21
              ∷ []))
unfolding routes_to
process-source_routes_example =
    process-source_routes toy_net toy_net-ChildLaws 21 (λ past new. refl) dao targets transit_to
      (7 ∷ [])
      ((refl, refl, omega arith), ((refl, refl, omega arith), ((refl, refl, omega arith), tt)))
      (omega arith) (omega arith) 5 (root_iface ∷ []) 0 root_iface (0, 0) root_dag 0 0 refl
      (unfold dag_at rpl_dag in refl) refl refl

HasChild-last : (childs : List Child) (c : Child) → HasChild (childs ++ c ∷ []) c.addr
HasChild-last [] c = (c, 0, refl, refl)
HasChild-last (x ∷ childs) c = let (found, i, e, h) = HasChild-last childs c in (found, suc i, e, h)

HasChild-append :
    (childs : List Child) (c : Child) (b : Addr) (found : Child) (i : ℕ)
    → get_elem? childs i ≡ some found
    → found.addr ≡ b
    → HasChild (childs ++ c ∷ []) b
HasChild-append [] c b found i e h = absurd (cc)
HasChild-append (x ∷ childs) c b found zero e h = (found, 0, e, h)
HasChild-append (x ∷ childs) c b found (suc i) e h =
    let (y, j, e', h') = HasChild-append childs c b found i e h in (y, suc j, e', h')

toy_net-ChildListLaws : ChildListLaws toy_net
toy_net-ChildListLaws = record {
  child_mop = λ d a f. refl;
  child_rank = λ d a f. refl;
  child_class = λ d a f. refl;
  child_added = λ d a f. HasChild-last d.childs (record { addr = a; from = f });
  child_kept =
      λ d a f b (c, i, e, h). HasChild-append d.childs (record { addr = a; from = f }) b c i e h;
}

options-AreOptions : AreOptions options
options-AreOptions = (
  (refl, refl, omega arith),
  ((refl, refl, omega arith), ((omega arith, omega arith), ((refl, refl, omega arith), tt))),
)

process-class_routes_example :
    let bytes = dao_bytes dao ++ (options_bytes options ++ 7 ∷ []) in
    let (ifaces', effects) =
      process toy_net 5
        (node_iface ∷ [])
        (some (0, node_iface))
        (memory_of (155 ∷ 2 ∷ 0 ∷ 0 ∷ bytes))
        (24 + length (options_bytes options))
        21 in
    (dag' : Dag) × (ifaces' ≡ set (node_iface ∷ []) 0 (put_dag node_iface (0, 0) dag'))
    × (Each (HasChild dag'.childs) (41 ∷ 42 ∷ [])
        × (effects ≡ class_routes class_s dag' ++ send_dao_ack 21 ∷ []))
process-class_routes_example =
    process-class_routes toy_net toy_net-ChildListLaws 21 dao options (7 ∷ []) options-AreOptions
      (omega arith) 5 (node_iface ∷ []) 0 node_iface (0, 0) node_dag 0 0 refl
      (unfold dag_at rpl_dag in refl) refl (omega arith)

-- A grounded DAG in hybrid mode, and a DAO with both flags.
macros_read_back_example :
    (rpl_dio_grounded (mopprf 1 hybrid 3) ≡ 128)
    × (mop_of (mopprf 1 hybrid 3) ≡ hybrid)
    × (rpl_dio_prf (mopprf 1 hybrid 3) ≡ 3)
    × (rpl_dao_k 197 ≡ 1)
    × (rpl_dao_d 197 ≡ 1)
    × (rpl_daoack_d 197 ≡ 1)
macros_read_back_example =
    macros_read_back 1 3 1 1 5 hybrid (omega arith) (omega arith) tt (omega arith) (omega arith)
      (omega arith)
