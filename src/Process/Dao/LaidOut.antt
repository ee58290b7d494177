-- ===== src/Process/Dao/LaidOut.antt =====
-- The options of a DAO as a sender lays them out, and what the loop over the options makes of them.
use mathlib.Core.List.{append_assoc}
use rpld_hymrpl.Prelude.{
  ℕ, zero, suc, ◌+◌, ◌-◌, Bool, ◌≤◌, ◌≡◌, ◌≢◌, refl, ap, ◌∙◌, some, List, [], ◌∷◌, ◌++◌, arith, ltb,
  ◌==◌, length, length-append, if◌then◌else◌,
}
use rpld_hymrpl.Dag.{Addr}
use rpld_hymrpl.Wire.{
  Memory, memory_of, opt_at, RplDaoTarget, RplDaoTransit, rpl_dao_rpltarget, rpl_dao_transitinfo,
}
use rpld_hymrpl.Wire.Layout.{byte_at, byte_behind}
use rpld_hymrpl.Wire.Structs.{
  IsAddr, target_bytes, transit_bytes, target_at-target_bytes, transit_at-transit_bytes,
  length-target_bytes, length-transit_bytes,
}
use rpld_hymrpl.Process.{Net}
use rpld_hymrpl.Process.Dao.{Options, parsed, take_option, parse_options, max_dao_targets}

pub data DaoOption : Type 0 where
  target : RplDaoTarget → DaoOption
  transit : RplDaoTransit → DaoOption
  unknown : ℕ → List ℕ → DaoOption

abbrev pub option_bytes : DaoOption → List ℕ
option_bytes (target t) = target_bytes t
option_bytes (transit t) = transit_bytes t
option_bytes (unknown code payload) = code ∷ length payload ∷ payload

abbrev pub options_bytes : List DaoOption → List ℕ
options_bytes [] = []
options_bytes (x ∷ xs) = option_bytes x ++ options_bytes xs

-- The type and the length of an option are those of what it holds.
abbrev pub IsOption : DaoOption → Type 0
IsOption (target t) =
    (t.rpl_dao_type ≡ rpl_dao_rpltarget) × (t.rpl_dao_len ≡ 18) × IsAddr t.rpl_dao_prefix
IsOption (transit t) =
    (t.transit_type ≡ rpl_dao_transitinfo) × (t.transit_len ≡ 20) × IsAddr t.parent
IsOption (unknown code payload) = (code ≢ rpl_dao_rpltarget) × (code ≢ rpl_dao_transitinfo)

abbrev pub AreOptions : List DaoOption → Type 0
AreOptions [] = Unit {0}
AreOptions (x ∷ xs) = IsOption x × AreOptions xs

-- What an option means: a target makes a child, and is kept while there is room; the last transit
-- option gives the parent.
abbrev pub heed : Net → Addr → DaoOption → Options → Options
heed net from (target t) o = record o {
  dag = net.dag_lookup_child_or_create o.dag t.rpl_dao_prefix from;
  targets =
      if ltb (length o.targets) max_dao_targets
      then o.targets ++ t.rpl_dao_prefix ∷ []
      else o.targets;
}
heed net from (transit t) o = record o { transit = some t.parent }
heed net from (unknown code payload) o = o

abbrev pub heed_all : Net → Addr → List DaoOption → Options → Options
heed_all net from [] o = o
heed_all net from (x ∷ xs) o = heed_all net from xs (heed net from x o)

module _ (net : Net) (from : Addr) where
  -- One option, wherever it stands: its length, its length field, and what it is taken for.
  take_option-heed :
      (pre rest : List ℕ) (x : DaoOption) (o : Options)
      → IsOption x
      → let msg = memory_of (pre ++ (option_bytes x ++ rest)) in
        (2 + (opt_at msg (length pre)).opt_len ≡ length (option_bytes x))
        × (take_option net msg from (length pre) o ≡ heed net from x o)
  unfolding take_option
  take_option-heed pre rest (target t) o (kind, size, fits) =
      let e = target_at-target_bytes pre rest t fits in
      (
        omega (arith, ap (λ r. r.rpl_dao_len) e, length-target_bytes t),
        ground (arith, ap (λ r. r.rpl_dao_type) e, ap (λ r. r.rpl_dao_prefix) e),
      )
  take_option-heed pre rest (transit t) o (kind, size, fits) =
      let e = transit_at-transit_bytes pre rest t fits in
      (
        omega (arith, ap (λ r. r.transit_len) e, length-transit_bytes t),
        ground (arith, ap (λ r. r.transit_type) e, ap (λ r. r.parent) e),
      )
  take_option-heed pre rest (unknown code payload) o h =
      let ys = code ∷ length payload ∷ (payload ++ rest) in
      (omega (arith, byte_behind pre ys 1), ground (arith, byte_at pre ys))

  -- One turn of the loop.
  parse_options_turn :
      (msg : Memory) (fuel p optlen : ℕ) (o : Options)
      → 2 ≤ optlen
      → parse_options net msg from (suc fuel) p optlen o
        ≡ parse_options net msg from fuel
            (p + (2 + (opt_at msg p).opt_len))
            (optlen - (2 + (opt_at msg p).opt_len))
            (take_option net msg from p o)
  unfolding parse_options
  parse_options_turn msg fuel p optlen o h =
      let some_left : (optlen == 0) ≡ Bool.false = ground arith in
      let room : ltb optlen 2 ≡ Bool.false = ground arith in rw (some_left, room) refl

  parse_options_end :
      (msg : Memory) (fuel p : ℕ) (o : Options) → parse_options net msg from fuel p 0 o ≡ parsed o
  unfolding parse_options
  parse_options_end msg zero p o = refl
  parse_options_end msg (suc fuel) p o = refl

  -- One turn on an option that a sender laid out leads behind it.
  parse_options_behind :
      (pre tail : List ℕ) (x : DaoOption) (fuel n : ℕ) (o : Options)
      → IsOption x
      → parse_options net
          (memory_of (pre ++ (option_bytes x ++ tail)))
          from
          (suc fuel)
          (length pre)
          (length (option_bytes x) + n)
          o
        ≡ parse_options net
            (memory_of ((pre ++ option_bytes x) ++ tail))
            from
            fuel
            (length (pre ++ option_bytes x))
            n
            (heed net from x o)
  parse_options_behind pre tail x fuel n o h =
      let msg = memory_of (pre ++ (option_bytes x ++ tail)) in
      let (size, taken) = take_option-heed pre tail x o h in
      let whole = length (option_bytes x) + n in
      let front : length pre + (2 + (opt_at msg (length pre)).opt_len)
          ≡ length (pre ++ option_bytes x) =
        omega (arith, size, length-append pre (option_bytes x)) in
      let behind : whole - (2 + (opt_at msg (length pre)).opt_len) ≡ n = omega (arith, size) in
      parse_options_turn msg fuel (length pre) whole o (omega (arith, size))
      ∙ rw (front, behind, taken, append_assoc pre (option_bytes x) tail) refl

  -- The loop over options that a sender laid out ends, with the fuel that the daemon gives it, having
  -- heeded each of them in order: every target, up to sixteen, and the last transit option. Options of
  -- other types are passed over, and what stands behind the options does not matter.
  pub parse_options-options_bytes :
      (pre rest : List ℕ) (xs : List DaoOption) (fuel : ℕ) (o : Options)
      → AreOptions xs
      → length (options_bytes xs) ≤ fuel
      → parse_options net
          (memory_of (pre ++ (options_bytes xs ++ rest)))
          from
          fuel
          (length pre)
          (length (options_bytes xs))
          o
        ≡ parsed (heed_all net from xs o)
  parse_options-options_bytes pre rest [] fuel o h k =
      parse_options_end (memory_of (pre ++ rest)) fuel (length pre) o
  parse_options-options_bytes pre rest (x ∷ xs) zero o h k =
      let more = take_option-heed pre (options_bytes xs ++ rest) x o h.0 in
      absurd (omega (arith, more.0, length-append (option_bytes x) (options_bytes xs)))
  parse_options-options_bytes pre rest (x ∷ xs) (suc fuel) o h k =
      let tail = options_bytes xs ++ rest in
      let size = (take_option-heed pre tail x o h.0).0 in
      let all = option_bytes x ++ options_bytes xs in
      let ih =
        parse_options-options_bytes (pre ++ option_bytes x) rest xs fuel (heed net from x o) h.1
          (omega (arith, size, length-append (option_bytes x) (options_bytes xs))) in
      let goal : parse_options net (memory_of (pre ++ (all ++ rest))) from (suc fuel) (length pre)
            (length all) o
          ≡ parsed (heed_all net from xs (heed net from x o)) =
        rw
          (
            append_assoc (option_bytes x) (options_bytes xs) rest,
            length-append (option_bytes x) (options_bytes xs),
          )
          (parse_options_behind pre tail x fuel (length (options_bytes xs)) o h.0 ∙ ih) in
      goal
