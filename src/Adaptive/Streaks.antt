-- ===== src/Adaptive/Streaks.antt =====
-- `hymrpl_adaptive_get_recommendation` against a description of its answers that has no counter.
use rpld_hymrpl.Prelude.{
  ℕ, suc, ◌%◌, ◌≡◌, refl, Bool, not, ◌&&◌, ◌==◌, Option, none, some, List, [], ◌∷◌, arith,
  if◌then◌else◌,
}
use rpld_hymrpl.Dag.{NodeClass, class_s, class_n, same_class}
use rpld_hymrpl.Adaptive.{
  FloatOps, Adaptive, push_change, push_outcome, compute_pdr, compute_stability, update_energy,
  adaptive_init, record_dao, parent_changed, adaptive_eval_cb, adaptive_decide, score,
  class_of_score, hysteresis, get_recommendation,
}
use rpld_hymrpl.Adaptive.Hysteresis.{
  Action, outcome, change, evaluate, ask, Question, question, act, run,
}

-- The question called for class `r`, and the class at the time was not `r`.
abbrev pub calls_for : NodeClass → Question → Bool
calls_for r q = same_class q.decided r && not (same_class q.current r)

-- How many of the latest questions, without a gap, called for class `r`.
abbrev pub streak : NodeClass → List Question → ℕ
streak r [] = 0
streak r (q ∷ log) = let rest = streak r log in if calls_for r q then suc rest else 0

-- The answer to the latest question of a log: its class if it ends the third, the sixth and so on of
-- a row of questions that called for that class.
abbrev pub advice : List Question → Option NodeClass
advice [] = none
advice (q ∷ log) =
    if calls_for q.decided q && (streak q.decided (q ∷ log) % 3 == 0) then some q.decided else none

abbrev pub other_class : NodeClass → NodeClass
other_class class_s = class_n
other_class class_n = class_s

-- The counter is the streak for the pending class, by threes; there is none for the other class.
abbrev pub IsExact : NodeClass → ℕ → List Question → Type 0
IsExact pending counter log =
    (counter ≡ streak pending log % 3) × (streak (other_class pending) log ≡ 0)

module _ {F : Type 0} where
  hysteresis-IsExact :
      (current decided pending : NodeClass) (adp : Adaptive F) (log : List Question)
      → adp.pending_class ≡ pending
      → IsExact pending adp.hysteresis_counter log
      → let q : Question = record { decided = decided; current = current } in
        let (adp', out) = hysteresis current decided adp in
        IsExact adp'.pending_class adp'.hysteresis_counter (q ∷ log) × (out ≡ advice (q ∷ log))
  unfolding hysteresis
  hysteresis-IsExact class_s class_s class_s adp log e h = ground arith
  hysteresis-IsExact class_s class_s class_n adp log e h = ground arith
  hysteresis-IsExact class_s class_n class_s adp log e h = ground arith
  hysteresis-IsExact class_s class_n class_n adp log e h = ground arith
  hysteresis-IsExact class_n class_s class_s adp log e h = ground arith
  hysteresis-IsExact class_n class_s class_n adp log e h = ground arith
  hysteresis-IsExact class_n class_n class_s adp log e h = ground arith
  hysteresis-IsExact class_n class_n class_n adp log e h = ground arith

module _ {F : Type 0} (fl : FloatOps F) where
  abbrev pub Exact : Adaptive F → List Question → Type 0
  Exact adp log = IsExact adp.pending_class adp.hysteresis_counter log

  get_recommendation-Exact :
      (current : NodeClass) (adp : Adaptive F) (log : List Question)
      → Exact adp log
      → let (adp', out) = get_recommendation fl current adp in
        let log' = question fl current adp ∷ log in Exact adp' log' × (out ≡ advice log')
  unfolding get_recommendation adaptive_decide
  get_recommendation-Exact current adp log h =
      hysteresis-IsExact current (class_of_score fl (score fl adp)) adp.pending_class
        (record adp { last_score = score fl adp }) log refl h

  act-Exact :
      (a : Action F) (adp : Adaptive F) (log : List Question)
      → Exact adp log
      → let (adp', log') = act fl a (adp, log) in Exact adp' log'
  act-Exact (outcome success) adp log h = unfold record_dao compute_pdr push_outcome in ground arith
  act-Exact (change now none) adp log h = unfold parent_changed push_change in ground arith
  act-Exact (change now (some p)) adp log h = unfold parent_changed push_change in ground arith
  act-Exact (evaluate now battery capacity) adp log h =
      unfold adaptive_eval_cb adaptive_decide compute_stability update_energy in h
  act-Exact (ask current) adp log h = (get_recommendation-Exact current adp log h).0

  run-Exact :
      (acts : List (Action F)) (adp : Adaptive F) (log : List Question)
      → Exact adp log
      → let (adp', log') = run fl acts (adp, log) in Exact adp' log'
  run-Exact [] adp log h = h
  run-Exact (a ∷ acts) adp log h =
      run-Exact acts (act fl a (adp, log)).0 (act fl a (adp, log)).1 (act-Exact a adp log h)

  -- Whatever happened to the engine since it started, its answer is the one that the log of all
  -- questions gives: a class exactly if this question ends the third, the sixth and so on of an
  -- unbroken row of questions whose metrics called for that class while the node was of the other.
  pub get_recommendation-advice :
      (ifname : Option (List ℕ)) (acts : List (Action F)) (current : NodeClass)
      → let (adp, log) = run fl acts (adaptive_init fl ifname, []) in
        (get_recommendation fl current adp).1 ≡ advice (question fl current adp ∷ log)
  get_recommendation-advice ifname acts current =
      let (adp, log) = run fl acts (adaptive_init fl ifname, []) in
      let exact =
        run-Exact acts (adaptive_init fl ifname) [] (unfold adaptive_init in (refl, refl)) in
      (get_recommendation-Exact current adp log exact).1
