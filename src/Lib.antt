-- ===== src/Lib.antt =====
-- Verification of the HyMRPL extensions of rpld: a RPL daemon in which every node is of Class S
-- (storing-like) or Class N (non-storing-like), and changes class on an authenticated command or on the
-- advice of an engine that watches its own links, energy and parents.
--
-- The program's parts, and the files that model them:
--   * hymrpl_adaptive.c, first half: the engine. `struct hymrpl_adaptive` is `Adaptive` of Adaptive.antt,
--     and each function there has its name without `hymrpl_`. Window, Stability, Hysteresis,
--     Streaks and Decision hold the proofs on the ring of DAO outcomes, the four slots of parent changes,
--     the hysteresis counter and the score.
--   * hymrpl_adaptive.c, second half: the FIFO. `struct hymrpl_fifo_sec` is `FifoSec` of Fifo.antt;
--     `verify_hmac`, `fifo_sec_init`, `fifo_sec_check` and `generate_token` are the functions of those
--     names, cut into helpers at their steps. Cases, Split, Verify, Replay, Limits and Effect hold the
--     proofs; Fifo/Pipe.antt is the named pipe, of which one poll reads 127 bytes at most.
--   * hymrpl_cmd.c: the sender of commands, Cmd.antt. Cmd/RoundTrip and Cmd/EndToEnd put sender and
--     daemon together, Cmd/Obeyed for a sequence of commands; Cmd/Fits is about the buffers.
--   * process.c: the handlers of RPL messages. Process.antt has what they share; Process/Dio.antt is
--     `process_dio`, Process/Dao.antt `process_dao`, Process/Dispatch.antt the rest and `process`;
--     Process/Outcomes.antt is the case distinction over them that the invariants share. Of the
--     children of Process/Dio, Rank, Asked and Created are about one DIO, History about many, Known
--     about the bytes of one for a dag that is there; Process/Network.antt is
--     about a network of such nodes; Process/Places.antt is about pointers to dags,
--     Process/Dropped.antt about packets that fail a test.
--   * rpl.h: Wire.antt has the codes and the packed structs; a cast of a pointer into a message is a
--     function that reads the fields at their offsets, and Wire/Layout and Wire/Structs lay structs out
--     as bytes and read them back; Wire/Flags.antt has the macros for flags, which Wire/Macros.antt is
--     about. The children LaidOut of Process/Dio and Process/Dao, and
--     Bytes, Packet and ByClass of Process/Dao, use them.
--   * rpld_new.c: the callbacks. Rpld.antt is `parent_check_cb` and `hymrpl_periodic_cb`, which polls
--     the FIFO, then asks the engine; Rpld/Timers.antt is the setup of the timers, the solicitation and
--     the reload of the Trickle period; Rpld/System.antt is the start of the daemon in `main` and its
--     event loop, as a step relation over all callbacks in any order. Process/Sound.antt and
--     Rpld/System/Sound.antt are about ranks and classes over all of it, Rpld/System/Node.antt is an
--     abstract node, Rpld/System/Replay.antt is about the FIFO's state along
--     the event loop, and Rpld/Switching.antt and its child about rounds and the decisions in them.
--     Rpld/Liveness.antt, Rpld/Orphans.antt and Rpld/Loops.antt are about parents that fall silent, and
--     Rpld/DefaultRoute.antt about the default routes asked for.
--     Rpld/Main.antt is `main`: the options, the calls of the start with their outcomes, the exits and the
--     shutdown; and `icmpv6_cb`.
--   * dag.h, config.h, hymrpl_adaptive.h: Dag.antt has the data, with the loop that sets a class,
--     which the FIFO and the periodic callback both run.
--   Prelude.antt and its children pass library names on and add Boolean tests, lists and bits over the
--   native numbers; Text.antt is the C library's text functions that the code calls. Tests.antt and its
--   children are concrete runs.
--
-- How C is modelled. A function that writes to a struct returns the struct; a return of -1 is `none`; a
-- call that acts on the outside (netlink, sockets, notices to the engine) is an `Effect` of a list, in the
-- order of the calls. A number is a natural number, with the wrap of my_rank (16 bits), of the nonce (64
-- bits) and of a decoded byte (8 bits) written out. A time, a double of seconds in C, is a number of
-- microseconds; comparisons of differences are written as sums. Of a double read from a file, only whether
-- it is `<= 0.0` and the period it stands for are kept, so that NaN has its place. A message is a function from offsets to
-- bytes together with a length, so that a read behind its end is a read.
--
-- What is a parameter: HMAC-SHA256 of OpenSSL (`hmac`, taken to give 32 bytes where that matters); the
-- single precision floats of the engine (`FloatOps`, with the laws `OrderLaws` and `RatioLaws` where a
-- theorem needs the order of rounded results); the functions of dag.c, tree.c and helpers.c that
-- process.c calls (`Net`, with `NetLaws`: dag_process_dio keeps rank and parent, a new peer has infinite
-- rank, dag_is_peer compares addresses; and `DagLaws`: dag_create adds a dag with no parent and leaves the
-- others alone, and the functions of dag.c leave the class of a dag alone; and `JoinLaws`: the new dag has
-- the fields that were asked for; and `ChildLaws` and
-- `ChildListLaws`: a new child leaves mode, rank, class, tree and interface of a dag and its other
-- children alone); the clock; the content of files and what a read returns.
--
-- Fuel: the loop over the options of a DAO has the length of the options as its fuel. Each turn takes two
-- bytes at least, so that is enough. All other loops are structural.
--
-- What is not modelled: the functions of libev, log.c, netlink.c, socket.c, config.c, dag.c, send.c and
-- recv.c, which are not in this repository (their calls are effects, outcomes or parameters; `getopt` and
-- `atoi` too; nothing is said of what the kernel makes of the routes it is asked for); the printed texts; the structs of rpl.h for security and DIS options, which no code here
-- names; the patches, scripts and Python tools. A network of nodes takes a DIO to carry the sender's
-- my_rank, since `send_dio` is not in this repository.
pub mod Prelude
pub mod Text
pub mod Dag
pub mod Wire
pub mod Adaptive
pub mod Fifo
pub mod Cmd
pub mod Process
pub mod Rpld
mod Tests
