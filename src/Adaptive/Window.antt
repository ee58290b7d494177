-- ===== src/Adaptive/Window.antt =====
-- The ring of DAO outcomes behind the PDR estimate, against the list of the latest outcomes.
use mathlib.Core.List.{append-nil, append_assoc}
use native.Mathlib.Decide.{dec_lt}
use native.Mathlib.Numerals.{add-one}
use native.Mathlib.Nat.{mod-eq_of_lt}
use rpld_hymrpl.Prelude.{
  ℕ, suc, ◌+◌, ◌-◌, ◌%◌, ◌≤◌, ◌<◌, ◌≡◌, refl, ◌∙◌, Bool, List, [], ◌∷◌, ◌++◌, arith, ltb, ◌⊎◌,
  if◌then◌else◌, map, length, length-append, set, take, drop, length-set, length-take, length-drop,
  take-append-drop, take-set, drop-set, drop-drop_one, drop_one-append, drop_all, take_all,
  drop-append_le, last_items, drop-ge, Option, ◌==◌,
}
use rpld_hymrpl.Adaptive.{
  FloatOps, Adaptive, pdr_window_size, sum, successes, pdr_slots, compute_pdr, push_outcome,
  record_dao, adaptive_init, hundred,
}

pub sum-append : (xs ys : List ℕ) → sum (xs ++ ys) ≡ sum xs + sum ys
unfolding sum
sum-append [] ys = omega arith
sum-append (x ∷ xs) ys = omega (arith, sum-append xs ys)

abbrev pub bit : Bool → ℕ
bit b = if b then 1 else 0

module _ {F : Type 0} where
  -- The ring is as long as it should be, its index is in range, and it fills from the front.
  pub record IsWindow (adp : Adaptive F) : Type 0 where
    pub size : length adp.pdr_window ≡ pdr_window_size
    pub index_in : adp.pdr_idx < pdr_window_size
    pub count_le : adp.pdr_count ≤ pdr_window_size
    pub filling : (adp.pdr_idx ≡ adp.pdr_count) ⊎ (adp.pdr_count ≡ pdr_window_size)

  -- The outcomes that the ring holds, oldest first.
  abbrev pub outcomes : Adaptive F → List ℕ
  outcomes adp =
      if ltb adp.pdr_count pdr_window_size
      then take adp.pdr_idx adp.pdr_window
      else drop adp.pdr_idx adp.pdr_window ++ take adp.pdr_idx adp.pdr_window

-- A bounded list of outcomes: a new one pushes out the oldest of twenty.
abbrev pub push_bounded : List ℕ → ℕ → List ℕ
push_bounded q v = if ltb (length q) pdr_window_size then q ++ v ∷ [] else drop 1 (q ++ v ∷ [])

-- Turning a list at a position that went round at its end.
rotate_wrap :
    (w : List ℕ) (i : ℕ)
    → i < length w
    → drop ((i + 1) % length w) w ++ take ((i + 1) % length w) w ≡ drop (suc i) w ++ take (suc i) w
rotate_wrap w i h = elim (dec_lt (i + 1) (length w)) [
  | yes p ↦ rw (mod-eq_of_lt p, add-one) refl
  | no p ↦
      let e : (i + 1) % length w ≡ 0 = grind arith in
      rw (e, drop_all (suc i) w (omega arith), take_all (suc i) w (omega arith)) (append-nil w)
]

push_full :
    (w : List ℕ) (i v : ℕ)
    → i < length w
    → drop (suc i) (set w i v) ++ take (suc i) (set w i v)
      ≡ drop 1 ((drop i w ++ take i w) ++ v ∷ [])
push_full w i v h =
    rw
      (
        take-set i w v h,
        drop-set i w v,
        append_assoc (drop i w) (take i w) (v ∷ []),
        drop_one-append (drop i w) (take i w ++ v ∷ []) (omega (arith, length-drop i w)),
        drop-drop_one i w,
      )
      refl

module _ {F : Type 0} (b : Bool) {adp : Adaptive F} (valid : IsWindow adp) where
  push_outcome-IsWindow : IsWindow (push_outcome b adp)
  unfolding push_outcome
  push_outcome-IsWindow = ground (arith, length-set adp.pdr_window adp.pdr_idx (bit b))

  outcomes-push_outcome : outcomes (push_outcome b adp) ≡ push_bounded (outcomes adp) (bit b)
  unfolding push_outcome
  outcomes-push_outcome = ground (
    arith,
    length-take adp.pdr_idx adp.pdr_window,
    length-drop adp.pdr_idx adp.pdr_window,
    length-set adp.pdr_window adp.pdr_idx (bit b),
    length-append (drop adp.pdr_idx adp.pdr_window) (take adp.pdr_idx adp.pdr_window),
    take-set adp.pdr_idx adp.pdr_window (bit b),
    push_full adp.pdr_window adp.pdr_idx (bit b),
    rotate_wrap (set adp.pdr_window adp.pdr_idx (bit b)) adp.pdr_idx,
    drop_all (suc adp.pdr_idx) (set adp.pdr_window adp.pdr_idx (bit b)),
    add-one adp.pdr_idx,
  )

module _ {F : Type 0} {adp : Adaptive F} (valid : IsWindow adp) where
  -- The sum and the divisor of `compute_pdr` are those of the outcomes held.
  pub successes-outcomes :
      (successes adp ≡ sum (outcomes adp)) × (pdr_slots adp ≡ length (outcomes adp))
  unfolding successes
  successes-outcomes = ground (
    arith,
    length-take adp.pdr_idx adp.pdr_window,
    length-drop adp.pdr_idx adp.pdr_window,
    length-append (drop adp.pdr_idx adp.pdr_window) (take adp.pdr_idx adp.pdr_window),
    sum-append (drop adp.pdr_idx adp.pdr_window) (take adp.pdr_idx adp.pdr_window),
    sum-append (take adp.pdr_idx adp.pdr_window) (drop adp.pdr_idx adp.pdr_window),
    take-append-drop adp.pdr_idx adp.pdr_window,
    take_all pdr_window_size adp.pdr_window,
  )

-- Twenty at most of a list, and one more item.
last_items-push :
    (xs : List ℕ) (v : ℕ)
    → push_bounded (last_items pdr_window_size xs) v ≡ last_items pdr_window_size (xs ++ v ∷ [])
last_items-push xs v = ground (
  arith,
  length-append xs (v ∷ []),
  length-drop (length xs - 20) xs,
  drop_one-append (drop (length xs - 20) xs) (v ∷ []),
  drop-drop_one (length xs - 20) xs,
  drop-append_le (suc (length xs - 20)) xs (v ∷ []),
  drop-append_le (length xs - 20) xs (v ∷ []),
  drop-ge (length xs + 1 - 20) (suc (length xs - 20)) (xs ++ v ∷ []),
)

module _ {F : Type 0} (fl : FloatOps F) where
  -- The PDR in per cent that a list of outcomes stands for.
  abbrev pub pdr_of : List ℕ → F
  pdr_of q =
      if length q == 0
      then hundred fl
      else fl.mul (fl.div (fl.int (sum q)) (fl.int (length q))) (hundred fl)

  pub record_dao-IsWindow :
      (b : Bool) {adp : Adaptive F} → IsWindow adp → IsWindow (record_dao fl b adp)
  record_dao-IsWindow b {adp} valid =
      unfold record_dao compute_pdr in ground (arith, push_outcome-IsWindow b valid)

  outcomes-compute_pdr : (adp : Adaptive F) → outcomes (compute_pdr fl adp) ≡ outcomes adp
  unfolding compute_pdr
  outcomes-compute_pdr adp = ground arith

  pdr-compute_pdr :
      {adp : Adaptive F} → IsWindow adp → (compute_pdr fl adp).pdr ≡ pdr_of (outcomes adp)
  unfolding compute_pdr
  pdr-compute_pdr {adp} valid = ground (
    arith,
    successes-outcomes valid,
    length-append (drop adp.pdr_idx adp.pdr_window) (take adp.pdr_idx adp.pdr_window),
    length-take adp.pdr_idx adp.pdr_window,
    length-drop adp.pdr_idx adp.pdr_window,
  )

  -- One DAO outcome: the list of outcomes held takes it in, pushing out the oldest of twenty, and
  -- the PDR is that of the new list.
  pub record_dao_refines :
      (b : Bool) {adp : Adaptive F}
      → IsWindow adp
      → (outcomes (record_dao fl b adp) ≡ push_bounded (outcomes adp) (bit b))
        × ((record_dao fl b adp).pdr ≡ pdr_of (outcomes (record_dao fl b adp)))
  record_dao_refines b {adp} valid =
      let next = push_outcome b adp in
      unfold record_dao in
      (
        outcomes-compute_pdr next ∙ outcomes-push_outcome b valid,
        rw (outcomes-compute_pdr next) (pdr-compute_pdr (push_outcome-IsWindow b valid)),
      )

  -- The outcomes of a run, oldest first, recorded one after the other.
  abbrev pub record_all : List Bool → Adaptive F → Adaptive F
  record_all [] adp = adp
  record_all (b ∷ bs) adp = record_all bs (record_dao fl b adp)

  record_all-IsWindow :
      (bs : List Bool) {adp : Adaptive F} → IsWindow adp → IsWindow (record_all bs adp)
  record_all-IsWindow [] valid = valid
  record_all-IsWindow (b ∷ bs) valid = record_all-IsWindow bs (record_dao-IsWindow b valid)

  adaptive_init-IsWindow : (ifname : Option (List ℕ)) → IsWindow (adaptive_init fl ifname)
  unfolding adaptive_init
  adaptive_init-IsWindow ifname = omega arith

  record_all_from :
      (bs : List Bool) (past : List ℕ) {adp : Adaptive F}
      → IsWindow adp
      → outcomes adp ≡ last_items pdr_window_size past
      → adp.pdr ≡ pdr_of (outcomes adp)
      → (outcomes (record_all bs adp) ≡ last_items pdr_window_size (past ++ map bit bs))
        × ((record_all bs adp).pdr ≡ pdr_of (outcomes (record_all bs adp)))
  record_all_from [] past valid held fits = (rw (append-nil past) held, fits)
  record_all_from (b ∷ bs) past {adp} valid held fits =
      let (taken, fits') = record_dao_refines b valid in
      rw (← append_assoc past (bit b ∷ []) (map bit bs)) (
        record_all_from bs (past ++ bit b ∷ []) (record_dao-IsWindow b valid)
          (taken ∙ rw held (last_items-push past (bit b))) fits')

  -- After any outcomes, from the initial state, the ring is valid and the PDR estimate is the share
  -- of successes among the latest twenty outcomes, or all of them if they are fewer.
  pub record_all-pdr :
      (ifname : Option (List ℕ)) (bs : List Bool)
      → IsWindow (record_all bs (adaptive_init fl ifname))
        × ((record_all bs (adaptive_init fl ifname)).pdr
            ≡ pdr_of (last_items pdr_window_size (map bit bs)))
  record_all-pdr ifname bs =
      let start = adaptive_init-IsWindow ifname in
      let (held, fits) =
        record_all_from bs [] start (unfold adaptive_init in refl) (unfold adaptive_init in refl) in
      (record_all-IsWindow bs start, rw held at fits)
