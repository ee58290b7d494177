-- ===== src/Rpld/Timers/Periods.antt =====
-- The periods of the timers: setup starts them, and keeps the daemon from giving a parent up early; a
-- reload gives every dag the period that the file asks for.
use rpld_hymrpl.Prelude.{
  ℕ, ◌+◌, ◌*◌, ◌<◌, ◌≡◌, inl, inr, refl, ap, Bool, Option, none, some, List, [], ◌∷◌, arith, map,
  Bool-cases, if◌then◌else◌,
}
use rpld_hymrpl.Dag.{Time, Dag, Rpl, Iface}
use rpld_hymrpl.Adaptive.{Adaptive}
use rpld_hymrpl.Rpld.{parent_check_interval, parent_check_cb}
use rpld_hymrpl.Rpld.Liveness.{parent_check_cb_early}
use rpld_hymrpl.Rpld.Timers.{
  start_timer, dag_init_timer, setup_dags, setup_rpls, rpld_setup, Scanned, read_trickle_config,
  reload_dag, reload_rpl, reload_iface, reload_with, reload_cb,
}

-- A predicate of every dag.
abbrev pub AllDags : (Dag → Type 0) → List Dag → Type 0
AllDags P [] = Unit {0}
AllDags P (d ∷ ds) = P d × AllDags P ds

abbrev pub AllRpls : (Dag → Type 0) → List Rpl → Type 0
AllRpls P [] = Unit {0}
AllRpls P (r ∷ rs) = AllDags P r.dags × AllRpls P rs

abbrev pub AllIfaces : (Dag → Type 0) → List Iface → Type 0
AllIfaces P [] = Unit {0}
AllIfaces P (i ∷ is) = AllRpls P i.rpls × AllIfaces P is

-- The Trickle timer runs with the period of the dag.
abbrev pub IsTimed : Dag → Type 0
IsTimed d = d.trickle_w ≡ start_timer d.trickle_t

-- Both timers run, and a liveness check changes nothing.
abbrev pub IsQuiet : {F : Type 0} → Bool → Time → Adaptive F → Dag → Type 0
IsQuiet enabled now adp d =
    IsTimed d
    × (d.parent_check_w ≡ start_timer parent_check_interval)
    × (parent_check_cb enabled now d adp ≡ record { dag = d; adp = adp; effects = [] })

-- The period of every dag is above the bound.
abbrev pub LongEnough : Time → Dag → Type 0
LongEnough t d = t < 8 * d.trickle_t

module _ {F : Type 0} (enabled : Bool) (start wait : Time) (adp : Adaptive F) where
  setup_dags-IsQuiet :
      (root : Bool) (ifindex : ℕ) (ds : List Dag)
      → AllDags (LongEnough wait) ds
      → AllDags (IsQuiet enabled (start + wait) adp) (setup_dags start root ifindex ds).0
  unfolding setup_dags dag_init_timer
  setup_dags-IsQuiet root ifindex [] h = tt
  setup_dags-IsQuiet root ifindex (d ∷ ds) h = (
    (
      refl,
      refl,
      parent_check_cb_early enabled (start + wait) adp (dag_init_timer start d)
          (let k = h.0 in omega arith),
    ),
    setup_dags-IsQuiet root ifindex ds h.1,
  )

  setup_rpls-IsQuiet :
      (root : Bool) (ifindex : ℕ) (rs : List Rpl)
      → AllRpls (LongEnough wait) rs
      → AllRpls (IsQuiet enabled (start + wait) adp) (setup_rpls start root ifindex rs).0
  unfolding setup_rpls
  setup_rpls-IsQuiet root ifindex [] h = tt
  setup_rpls-IsQuiet root ifindex (r ∷ rs) h =
      (setup_dags-IsQuiet root ifindex r.dags h.0, setup_rpls-IsQuiet root ifindex rs h.1)

  -- After the setup the Trickle timer of every dag runs with its period and its parent check every
  -- five seconds; and for as long as eight Trickle periods of each dag, no check gives a parent up.
  pub rpld_setup-IsQuiet :
      (is : List Iface)
      → AllIfaces (LongEnough wait) is
      → AllIfaces (IsQuiet enabled (start + wait) adp) (rpld_setup start is).0
  unfolding rpld_setup
  rpld_setup-IsQuiet [] h = tt
  rpld_setup-IsQuiet (i ∷ is) h =
      (setup_rpls-IsQuiet i.dodag_root i.ifindex i.rpls h.0, rpld_setup-IsQuiet is h.1)

-- The dag with a fixed period and timer in place of its own: what a reload may not change.
abbrev pub mask_dag : Dag → Dag
mask_dag d = record d { trickle_t = 0; trickle_w = start_timer 0 }

abbrev pub mask_rpl : Rpl → Rpl
mask_rpl r = record r { dags = map mask_dag r.dags }

abbrev pub mask_iface : Iface → Iface
mask_iface i = record i { rpls = map mask_rpl i.rpls }

abbrev pub mask : List Iface → List Iface
mask is = map mask_iface is

-- The dag has the period `t`, its timer too.
abbrev pub IsReloaded : Time → Dag → Type 0
IsReloaded t d = (d.trickle_t ≡ t) × IsTimed d

module _ (t : Time) where
  reload_dags :
      (ds : List Dag)
      → AllDags (IsReloaded t) (map (reload_dag t) ds)
        × (map mask_dag (map (reload_dag t) ds) ≡ map mask_dag ds)
  unfolding reload_dag
  reload_dags [] = (tt, refl)
  reload_dags (d ∷ ds) =
      let (all, same) = reload_dags ds in (((refl, refl), all), ap (λ r. mask_dag d ∷ r) same)

  reload_rpls :
      (rs : List Rpl)
      → AllRpls (IsReloaded t) (map (reload_rpl t) rs)
        × (map mask_rpl (map (reload_rpl t) rs) ≡ map mask_rpl rs)
  unfolding reload_rpl
  reload_rpls [] = (tt, refl)
  reload_rpls (r ∷ rs) =
      let (all, same) = reload_dags r.dags in
      let (all', same') = reload_rpls rs in ((all, all'), rw (same, same') refl)

  reload_ifaces :
      (is : List Iface)
      → AllIfaces (IsReloaded t) (map (reload_iface t) is)
        × (mask (map (reload_iface t) is) ≡ mask is)
  unfolding reload_iface
  reload_ifaces [] = (tt, refl)
  reload_ifaces (i ∷ is) =
      let (all, same) = reload_rpls i.rpls in
      let (all', same') = reload_ifaces is in ((all, all'), rw (same, same') refl)

-- The period that the file asks for: by the first of the two scans that finds a number, if that
-- number is not `<= 0.0`.
abbrev period_of : Scanned → Option Time
period_of v = if v.le_zero then none else some v.period

abbrev pub asked_period : Option (Option Scanned × Option Scanned) → Option Time
asked_period none = none
asked_period (some (some v, _)) = period_of v
asked_period (some (none, some v)) = period_of v
asked_period (some (none, none)) = none

-- The interfaces after a reload: as they were, or with the period at every dag.
abbrev pub Reload : Option Time → List Iface → List Iface → Type 0
Reload none is new = new ≡ is
Reload (some t) is new = AllIfaces (IsReloaded t) new × (mask new ≡ mask is)

reload_with-Reload :
    (v : Scanned) (is : List Iface) → Reload (period_of v) is (reload_with (some v) is)
unfolding reload_with
reload_with-Reload v is = elim (Bool-cases v.le_zero) [
  | inl e ↦ rw (e, reload_with) refl
  | inr e ↦ rw (e, reload_with) (reload_ifaces v.period is)
]

-- If the file can be opened and holds a number, behind "trickle_t=" or else at its start, that is not
-- `<= 0.0`, then after the reload every dag of every interface has that number as its period, its
-- Trickle timer runs with it, and nothing else has changed. In every other case nothing changes.
pub reload_cb_cases :
    (conf : Option (Option Scanned × Option Scanned)) (is : List Iface)
    → Reload (asked_period conf) is (reload_cb conf is)
unfolding reload_cb read_trickle_config reload_with
reload_cb_cases none is = refl
reload_cb_cases (some (some v, plain)) is = reload_with-Reload v is
reload_cb_cases (some (none, some v)) is = reload_with-Reload v is
reload_cb_cases (some (none, none)) is = refl
