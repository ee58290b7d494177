-- ===== src/Tests/Adaptive.antt =====
-- Runs of the adaptive engine.
use rpld_hymrpl.Prelude.{
  ℕ, ◌-◌, ◌≡◌, refl, Bool, true, false, Option, none, some, List, [], ◌∷◌, arith,
}
use rpld_hymrpl.Dag.{Time, seconds, Addr, class_s, class_n}
use rpld_hymrpl.Adaptive.{
  Adaptive, adaptive_init, compute_stability, change_ratio, count_since, get_recommendation,
  adaptive_decide, score, class_of_score,
}
use rpld_hymrpl.Adaptive.Window.{IsWindow, pdr_of, record_all, record_all-pdr}
use rpld_hymrpl.Adaptive.Stability.{times_of, change_all, compute_stability_exact}
use rpld_hymrpl.Adaptive.Hysteresis.{Action, ask, outcome, question, run}
use rpld_hymrpl.Adaptive.Streaks.{advice, get_recommendation-advice}
use rpld_hymrpl.Adaptive.Decision.{better_metrics_keep_class_s}
use rpld_hymrpl.Tests.Floats.{fixed, fixed-RatioLaws, fixed-OrderLaws}

abbrev fresh : Adaptive ℕ
fresh = adaptive_init fixed none

abbrev bits : List Bool
bits = true ∷ false ∷ true ∷ []

record_all-pdr_example :
    IsWindow (record_all fixed bits fresh)
    × ((record_all fixed bits fresh).pdr ≡ pdr_of fixed (1 ∷ 0 ∷ 1 ∷ []))
record_all-pdr_example = record_all-pdr fixed none bits

abbrev changes : List (Time × Option Addr)
changes = (seconds 1, none) ∷ (seconds 50, some 21) ∷ (seconds 70, none) ∷ []

compute_stability_exact_example :
    (compute_stability fixed (seconds 80) (change_all changes fresh)).s_stab
    ≡ 1000 - change_ratio fixed (count_since (seconds 80) (times_of changes))
compute_stability_exact_example =
    compute_stability_exact fixed fixed-RatioLaws none changes (seconds 80) (omega arith)

abbrev asked_twice : List (Action ℕ)
asked_twice = outcome true ∷ ask class_n ∷ ask class_n ∷ []

better_metrics_keep_class_s_example :
    (adaptive_decide fixed (record fresh { energy_ema = 900 })).1 ≡ class_s
unfolding adaptive_init adaptive_decide score class_of_score
better_metrics_keep_class_s_example =
    better_metrics_keep_class_s fixed fixed-OrderLaws (record fresh { energy_ema = 500 })
      (record fresh { energy_ema = 900 })
      (record {
        pdr_nonneg = refl;
        pdr_le = refl;
        energy_nonneg = refl;
        energy_le = refl;
        stab_nonneg = refl;
        stab_le = refl;
      })
      refl

abbrev tested : Adaptive ℕ
tested = record_all fixed (true ∷ true ∷ true ∷ true ∷ []) fresh

-- The third question in a row, after one outcome.
get_recommendation-advice_example :
    let (adp, log) = run fixed asked_twice (fresh, []) in
    (get_recommendation fixed class_n adp).1 ≡ advice (question fixed class_n adp ∷ log)
get_recommendation-advice_example = get_recommendation-advice fixed none asked_twice class_n
