-- ===== src/Process/Dao/Loop.antt =====
-- The loop over the options of a DAO: it ends, keeps its bound, and what it reads.
use mathlib.Core.List.{append_assoc}
use rpld_hymrpl.Prelude.{
  ap, ◌∙◌, List, ◌++◌, ℕ, zero, suc, ◌+◌, ◌-◌, ◌≤◌, ◌≡◌, inl, inr, some, [], ◌∷◌, arith, ltb, ◌==◌,
  Bool-cases, length, length-append,
}
use rpld_hymrpl.Dag.{Addr}
use rpld_hymrpl.Wire.{Memory, memory_of, bytes_of, read_addr}
use rpld_hymrpl.Wire.Layout.{byte_at, addr_behind}
use rpld_hymrpl.Wire.Structs.{IsAddr}
use rpld_hymrpl.Process.{Net}
use rpld_hymrpl.Process.Dao.{
  Options, Parsed, parsed, dropped, stuck, take_option, parse_options, max_dao_targets,
}

-- The loop has ended with what satisfies `P`.
abbrev pub Ends : (Options → Type 0) → Parsed → Type 0
Ends P (parsed o) = P o
Ends P (dropped o) = P o
Ends P stuck = ⊥

abbrev pub Bounded : Options → Type 0
Bounded o = length o.targets ≤ max_dao_targets

module _ (net : Net) (msg : Memory) (from : Addr) where
  take_option-Bounded : (p : ℕ) (o : Options) → Bounded o → Bounded (take_option net msg from p o)
  unfolding take_option
  take_option-Bounded p o h = ground (arith, length-append o.targets (read_addr msg (p + 4) ∷ []))

  -- The loop over the options ends on every message, well formed or not, with fuel for its length.
  -- From an array of sixteen targets at most it never holds more than the sixteen that there is room
  -- for.
  pub parse_options-Ends :
      (fuel p optlen : ℕ) (o : Options)
      → optlen ≤ fuel
      → Bounded o
      → Ends Bounded (parse_options net msg from fuel p optlen o)
  unfolding parse_options
  parse_options-Ends zero p optlen o h b = let e : optlen ≡ 0 = omega arith in rw e b
  parse_options-Ends (suc fuel) p optlen o h b =
      let step = 2 + msg (p + 1) in
      let next = take_option net msg from p o in
      elim (Bool-cases (optlen == 0)) [
        | inl done ↦ rw done b
        | inr more ↦ elim (Bool-cases (ltb optlen 2)) [
          | inl short ↦ rw (more, short) b
          | inr fits ↦
              rw (more, fits)
                (parse_options-Ends fuel (p + step) (optlen - step) next (ground arith)
                  (take_option-Bounded p o b))
        ]
      ]

  last_transit :
      (fuel p : ℕ) (o : Options)
      → msg p ≡ 6
      → parse_options net msg from (suc (suc fuel)) p 2 o
        ≡ parsed (record o { transit = some (read_addr msg (p + 6)) })
  unfolding parse_options take_option
  last_transit fuel p o e = ground arith

-- Let a message end with the type and the length byte of a transit option, whatever the length says,
-- behind any bytes `before`. Then the option is taken, and its parent is the address that stands four
-- bytes behind the end of the message: what happens to be left in the buffer there.
pub transit_reads_past_end :
    (net : Net) (from : Addr) (fuel : ℕ) (before gap rest : List ℕ) (opt_len : ℕ) (parent : Addr)
    (o : Options)
    → length gap ≡ 4
    → IsAddr parent
    → let message = before ++ (6 ∷ opt_len ∷ []) in
      let buffer = message ++ (gap ++ (bytes_of 16 parent ++ rest)) in
      parse_options net
        (memory_of buffer)
        from
        (suc (suc fuel))
        (length before)
        (length message - length before)
        o
      ≡ parsed (record o { transit = some parent })
transit_reads_past_end net from fuel before gap rest opt_len parent o four fits =
    let tail = gap ++ (bytes_of 16 parent ++ rest) in
    let msg = memory_of (before ++ (6 ∷ opt_len ∷ tail)) in
    let same : (before ++ (6 ∷ opt_len ∷ [])) ++ tail ≡ before ++ (6 ∷ opt_len ∷ tail) =
      append_assoc before (6 ∷ opt_len ∷ []) tail in
    let two : length (before ++ (6 ∷ opt_len ∷ [])) - length before ≡ 2 =
      omega (arith, length-append before (6 ∷ opt_len ∷ [])) in
    let six : length before + length (6 ∷ opt_len ∷ gap) ≡ length before + 6 =
      omega (arith, four) in
    let addr : read_addr msg (length before + 6) ≡ parent =
      rw six at (addr_behind before (6 ∷ opt_len ∷ gap) rest parent fits) in
    rw (same, two)
      (last_transit net msg from fuel (length before) o (byte_at before (6 ∷ opt_len ∷ tail))
        ∙ ap (λ a. parsed (record o { transit = some a })) addr)
