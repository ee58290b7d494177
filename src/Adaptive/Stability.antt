-- ===== src/Adaptive/Stability.antt =====
-- The four-slot buffer of parent changes, against the list of all changes.
use mathlib.Core.List.{append-nil, append_assoc}
use native.Mathlib.Numerals.{add-one}
use rpld_hymrpl.Prelude.{
  ℕ, zero, suc, ◌+◌, ◌-◌, ◌≤◌, ◌<◌, ◌≡◌, refl, sym, ap, ◌∙◌, true, Option, none, some, List, [],
  ◌∷◌, ◌++◌, arith, ltb, leb, leb→le, Bool-cases, inl, inr, if◌then◌else◌, min, length,
  length-append, take, drop, length-set, length-take, length-drop, take-append-drop, take-set,
  drop-drop_one, take_all, drop-append_le, last_items, drop-ge,
}
use rpld_hymrpl.Dag.{Addr, Time}
use rpld_hymrpl.Adaptive.{
  FloatOps, Adaptive, stability_window, count_since, changes_in_window, change_ratio, shift_times,
  push_change, parent_changed, compute_stability, adaptive_init, one,
}

abbrev pub All : (ℕ → Type 0) → List ℕ → Type 0
All P [] = Unit {0}
All P (x ∷ xs) = P x × All P xs

-- Times in order, oldest first.
abbrev pub IsAscending : List Time → Type 0
IsAscending [] = Unit {0}
IsAscending (t ∷ ts) = All (λ u. t ≤ u) ts × IsAscending ts

abbrev pub times_of : List (Time × Option Addr) → List Time
times_of [] = []
times_of ((now, new_parent) ∷ cs) = now ∷ times_of cs

count_since-append :
    (now : Time) (xs ys : List Time)
    → count_since now (xs ++ ys) ≡ count_since now xs + count_since now ys
unfolding count_since
count_since-append now [] ys = omega arith
count_since-append now (x ∷ xs) ys = ground (arith, count_since-append now xs ys)

count_since-length : (now : Time) (xs : List Time) → count_since now xs ≤ length xs
unfolding count_since
count_since-length now [] = omega arith
count_since-length now (x ∷ xs) = ground (arith, count_since-length now xs)

count_since_after :
    (now t : Time) (n : ℕ) (xs : List Time)
    → All (λ u. t ≤ u) xs
    → now ≤ t + stability_window
    → count_since now (drop n xs) ≡ length (drop n xs)
unfolding count_since
count_since_after now t zero [] h k = refl
count_since_after now t (suc n) [] h k = refl
count_since_after now t zero (x ∷ xs) h k = ground (arith, count_since_after now t zero xs h.1 k)
count_since_after now t (suc n) (x ∷ xs) h k = count_since_after now t n xs h.1 k

-- If a change among the oldest lies in the window, so do all the later ones.
count_since_later :
    (now : Time) (n : ℕ) (xs : List Time)
    → IsAscending xs
    → 0 < count_since now (take n xs)
    → count_since now (drop n xs) ≡ length (drop n xs)
unfolding count_since
count_since_later now zero xs h p = absurd (omega arith)
count_since_later now (suc n) [] h p = refl
count_since_later now (suc n) (x ∷ xs) h p = elim (Bool-cases (leb now (x + stability_window))) [
  | inl e ↦ count_since_after now x n xs h.0 (leb→le _ _ e)
  | inr e ↦ count_since_later now n xs h.1 (rw e at p)
]

-- Four changes are enough to tell the count up to three.
count_since-last_items :
    (now : Time) (xs : List Time)
    → IsAscending xs
    → min 3 (count_since now (last_items 4 xs)) ≡ min 3 (count_since now xs)
count_since-last_items now xs h =
    let n = length xs - 4 in
    grind (
      arith,
      count_since-append now (take n xs) (drop n xs),
      ap (count_since now) (take-append-drop n xs),
      count_since_later now n xs h,
      length-take n xs,
      length-drop n xs,
      count_since-length now (take n xs),
    )

last_items-push :
    (xs : List Time) (t : Time)
    → (if ltb (length (last_items 4 xs)) 4
        then last_items 4 xs ++ t ∷ []
        else drop 1 (last_items 4 xs) ++ t ∷ [])
      ≡ last_items 4 (xs ++ t ∷ [])
last_items-push xs v = ground (
  arith,
  length-append xs (v ∷ []),
  length-drop (length xs - 4) xs,
  drop-drop_one (length xs - 4) xs,
  drop-append_le (suc (length xs - 4)) xs (v ∷ []),
  drop-append_le (length xs - 4) xs (v ∷ []),
  drop-ge (length xs + 1 - 4) (suc (length xs - 4)) (xs ++ v ∷ []),
)

shift_times_lem :
    (now : Time) (ts : List Time) → length ts ≡ 4 → shift_times now ts ≡ drop 1 ts ++ now ∷ []
unfolding shift_times
shift_times_lem now [] e = absurd (omega arith)
shift_times_lem now (a ∷ []) e = absurd (omega arith)
shift_times_lem now (a ∷ b ∷ []) e = absurd (omega arith)
shift_times_lem now (a ∷ b ∷ c ∷ []) e = absurd (omega arith)
shift_times_lem now (a ∷ b ∷ c ∷ d ∷ []) e = refl
shift_times_lem now (a ∷ b ∷ c ∷ d ∷ x ∷ r) e = absurd (omega arith)

module _ {F : Type 0} where
  -- The buffer holds the latest four of the changes `past`, oldest first.
  pub record Holds (past : List Time) (adp : Adaptive F) : Type 0 where
    pub size : length adp.parent_change_times ≡ 4
    pub count_le : adp.parent_change_count ≤ 4
    pub held : take adp.parent_change_count adp.parent_change_times ≡ last_items 4 past

  push_change-Holds :
      (past : List Time) (now : Time) {adp : Adaptive F}
      → Holds past adp
      → Holds (past ++ now ∷ []) (push_change now adp)
  unfolding push_change
  push_change-Holds past now {adp} h = ground (
    arith,
    last_items-push past now,
    add-one adp.parent_change_count,
    shift_times_lem now adp.parent_change_times,
    length-set adp.parent_change_times adp.parent_change_count now,
    take-set adp.parent_change_count adp.parent_change_times now,
    length-take adp.parent_change_count adp.parent_change_times,
    take_all 4 adp.parent_change_times,
    take_all 4 (drop 1 adp.parent_change_times ++ now ∷ []),
    length-append (drop 1 adp.parent_change_times) (now ∷ []),
    length-drop 1 adp.parent_change_times,
  )

  parent_changed-Holds :
      (past : List Time) (now : Time) (new_parent : Option Addr) {adp : Adaptive F}
      → Holds past adp
      → Holds (past ++ now ∷ []) (parent_changed now new_parent adp)
  unfolding parent_changed
  parent_changed-Holds past now none h =
      let k = push_change-Holds past now h in
      record { size = k.size; count_le = k.count_le; held = k.held }
  parent_changed-Holds past now (some p) h =
      let k = push_change-Holds past now h in
      record { size = k.size; count_le = k.count_le; held = k.held }

  -- A run of parent changes, each with its time and the new parent, oldest first.
  abbrev pub change_all : List (Time × Option Addr) → Adaptive F → Adaptive F
  change_all [] adp = adp
  change_all ((now, new_parent) ∷ cs) adp = change_all cs (parent_changed now new_parent adp)

  change_all-Holds :
      (cs : List (Time × Option Addr)) (past : List Time) {adp : Adaptive F}
      → Holds past adp
      → Holds (past ++ times_of cs) (change_all cs adp)
  change_all-Holds [] past h = rw (append-nil past) h
  change_all-Holds ((now, new_parent) ∷ cs) past h =
      rw (← append_assoc past (now ∷ []) (times_of cs))
        (change_all-Holds cs (past ++ now ∷ []) (parent_changed-Holds past now new_parent h))

module _ {F : Type 0} (fl : FloatOps F) where
  -- What the ratio of the stability index needs of the floats: 3 / 3 is 1, and c / 3 is more than 1
  -- where c is more than 3.
  pub record RatioLaws : Type 0 where
    pub three_thirds : fl.div (fl.int 3) (fl.int 3) ≡ one fl
    pub above_one : (c : ℕ) → 3 < c → fl.lt (one fl) (fl.div (fl.int c) (fl.int 3)) ≡ true

  change_ratio-min : RatioLaws → (c : ℕ) → change_ratio fl c ≡ change_ratio fl (min 3 c)
  unfolding change_ratio
  change_ratio-min laws c = ground (arith, laws.three_thirds, laws.above_one c)

  adaptive_init-Holds : (ifname : Option (List ℕ)) → Holds [] (adaptive_init fl ifname)
  unfolding adaptive_init
  adaptive_init-Holds ifname = record { size = refl; count_le = omega arith; held = refl }

  -- After any changes of parent, in the order of time, the stability index that the engine computes
  -- from its four slots is the one that the list of all changes gives. It relies on `RatioLaws`.
  pub compute_stability_exact :
      RatioLaws
      → (ifname : Option (List ℕ)) (cs : List (Time × Option Addr)) (now : Time)
      → IsAscending (times_of cs)
      → (compute_stability fl now (change_all cs (adaptive_init fl ifname))).s_stab
        ≡ fl.sub (one fl) (change_ratio fl (count_since now (times_of cs)))
  unfolding compute_stability changes_in_window
  compute_stability_exact laws ifname cs now h =
      let holds = change_all-Holds cs [] (adaptive_init-Holds ifname) in
      ap (fl.sub (one fl)) (
        change_ratio-min laws _
        ∙ ap (λ n. change_ratio fl n)
            (ap (λ ts. min 3 (count_since now ts)) holds.held
              ∙ count_since-last_items now (times_of cs) h)
        ∙ sym (change_ratio-min laws _))
