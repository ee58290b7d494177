-- ===== src/Process/Sound/Packet.antt =====
-- Every packet keeps every dag sound.
use rpld_hymrpl.Prelude.{
  ℕ, ◌+◌, ◌-◌, inl, inr, Option, none, some, List, arith, ltb, ◌==◌, Bool-cases, get_elem?, Maybe,
  Each-get, Each-set,
}
use rpld_hymrpl.Dag.{Addr, Time, Iface}
use rpld_hymrpl.Wire.{Memory}
use rpld_hymrpl.Process.{Net}
use rpld_hymrpl.Process.Dispatch.{process_message, process}
use rpld_hymrpl.Process.Outcomes.{process_message_outcome}
use rpld_hymrpl.Process.Sound.{SoundIface, IsSound, DagLaws, process_dio-SoundIface}
use rpld_hymrpl.Process.Sound.Dao.{process_dao-SoundIface}

abbrev pub located_at : ℕ → Option Iface → Option (ℕ × Iface)
located_at place none = none
located_at place (some iface) = some (place, iface)

-- What `iface_find_by_ifindex` finds at a place of the list.
abbrev pub located : List Iface → Option ℕ → Option (ℕ × Iface)
located ifaces none = none
located ifaces (some place) = located_at place (get_elem? ifaces place)

module _ (net : Net) (laws : DagLaws net) where
  process_message-SoundIface :
      (now : Time) (iface : Iface) (code : ℕ) (msg : Memory) (len : ℕ) (from : Addr)
      → SoundIface iface
      → SoundIface (process_message net now iface code msg len from).0
  process_message-SoundIface now iface code msg len from h =
      process_message_outcome net SoundIface iface h now code msg len from
        (process_dio-SoundIface net laws now iface msg len from h)
        (process_dao-SoundIface net laws iface msg len from h)

  process_at-IsSound :
      (now : Time) (ifaces : List Iface) (place : ℕ) (found : Option Iface) (packet : Memory)
      (len : ℕ) (from : Addr)
      → IsSound ifaces
      → Maybe SoundIface found
      → IsSound (process net now ifaces (located_at place found) packet len from).0
  unfolding process
  process_at-IsSound now ifaces place none packet len from h k = ground arith
  process_at-IsSound now ifaces place (some iface) packet len from h k =
      elim (Bool-cases (ltb len 4)) [
        | inl short ↦ rw (short, process) h
        | inr fits ↦ elim (Bool-cases (packet 0 == 155)) [
          | inl rpl ↦
              rw (fits, rpl, process)
                (Each-set SoundIface ifaces place h (
                  process_message-SoundIface now iface (packet 1) (λ i. packet (i + 4)) (len - 4)
                    from k))
          | inr refused ↦ rw (fits, refused, process) h
        ]
      ]

  -- With `DagLaws`: whatever packet comes in on an interface, in whatever form, every dag of every
  -- interface keeps its rank tied to its parent's and the class of its interface, if it was so before.
  pub process-IsSound :
      (now : Time) (ifaces : List Iface) (found : Option ℕ) (packet : Memory) (len : ℕ)
      (from : Addr)
      → IsSound ifaces
      → IsSound (process net now ifaces (located ifaces found) packet len from).0
  unfolding process
  process-IsSound now ifaces none packet len from h = ground arith
  process-IsSound now ifaces (some place) packet len from h =
      process_at-IsSound now ifaces place (get_elem? ifaces place) packet len from h
        (Each-get SoundIface ifaces place h)
