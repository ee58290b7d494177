-- ===== src/Adaptive.antt =====
-- hymrpl_adaptive.c, the adaptive decision engine: the state of `struct hymrpl_adaptive` and one
-- function for each function of the file.
--
-- The C floats are a type `F` with the operations of `FloatOps`. What the code reads from outside,
-- the clock and the battery files, is an argument. Log lines are left out.
pub mod Window
pub mod Decision
pub mod Stability
pub mod Hysteresis
pub mod Streaks
use rpld_hymrpl.Prelude.{
  ℕ, suc, ◌+◌, ◌%◌, ◌≡◌, Bool, true, false, Option, none, some, List, [], ◌∷◌, ◌++◌, ltb, leb, ◌==◌,
  if◌then◌else◌, length, set, take, drop, replicate,
}
use rpld_hymrpl.Text.{codes}
use rpld_hymrpl.Dag.{Addr, Time, seconds, NodeClass, class_s, class_n, same_class, Timer}

-- Single precision floats. `decimal n d` is the literal whose value is n / d, `int n` the
-- conversion of an int, `le` and `lt` the comparisons.
pub record FloatOps (F : Type 0) : Type 0 where
  pub add : F → F → F
  pub sub : F → F → F
  pub mul : F → F → F
  pub div : F → F → F
  pub int : ℕ → F
  pub decimal : ℕ → ℕ → F
  pub le : F → F → Bool
  pub lt : F → F → Bool

abbrev pub pdr_window_size : ℕ
pdr_window_size = 20

abbrev pub stability_window : Time
stability_window = seconds 60

abbrev pub stability_nmax : ℕ
stability_nmax = 3

abbrev pub hysteresis_cycles : ℕ
hysteresis_cycles = 3

abbrev pub adaptive_interval : Time
adaptive_interval = seconds 5

-- `struct hymrpl_adaptive`. The entries of `pdr_window` are 0 and 1.
pub record Adaptive (F : Type 0) : Type 0 where
  pub pdr : F
  pub energy_pct : F
  pub energy_ema : F
  pub pdr_window : List ℕ
  pub pdr_idx : ℕ
  pub pdr_count : ℕ
  pub parent_change_times : List Time
  pub parent_change_count : ℕ
  pub s_stab : F
  pub last_score : F
  pub hysteresis_counter : ℕ
  pub pending_class : NodeClass
  pub eval_w : Timer
  pub last_parent_change : Time
  pub last_parent_addr : Addr
  pub battery_path : List ℕ

-- The sum loop of `compute_pdr`, over the slots that it reads.
unfoldable pub sum : List ℕ → ℕ
sum [] = 0
sum (x ∷ xs) = x + sum xs

-- The count loop of `compute_stability`: `times[i] >= now - window`, without the subtraction.
unfoldable pub count_since : Time → List Time → ℕ
count_since now [] = 0
count_since now (t ∷ ts) =
    let rest = count_since now ts in if leb now (t + stability_window) then suc rest else rest

-- `battery_path` of `hymrpl_adaptive_init`, cut to the 127 characters that it holds.
pub battery_file : Option (List ℕ) → List ℕ
battery_file none = codes "/tmp/hymrpl_battery"
battery_file (some []) = codes "/tmp/hymrpl_battery"
battery_file (some (c ∷ name)) = take 127 (codes "/tmp/hymrpl_battery_" ++ (c ∷ name))

-- `memmove` of the last three stamps onto the first three, then the write of the fourth.
unfoldable pub shift_times : Time → List Time → List Time
shift_times now times =
    set (take stability_nmax (drop 1 times) ++ drop stability_nmax times) stability_nmax now

module _ {F : Type 0} where
  -- How many slots `compute_pdr` reads, and the successes that it finds there.
  unfoldable pub pdr_slots : Adaptive F → ℕ
  pdr_slots adp = if ltb adp.pdr_count pdr_window_size then adp.pdr_count else pdr_window_size

  unfoldable pub successes : Adaptive F → ℕ
  unfolding pdr_slots
  successes adp = sum (take (pdr_slots adp) adp.pdr_window)

  -- The two writes of `hymrpl_adaptive_record_dao` before it calls `compute_pdr`.
  unfoldable pub push_outcome : Bool → Adaptive F → Adaptive F
  push_outcome success adp = record adp {
    pdr_window = set adp.pdr_window adp.pdr_idx (if success then 1 else 0);
    pdr_idx = (adp.pdr_idx + 1) % pdr_window_size;
    pdr_count = if ltb adp.pdr_count pdr_window_size then adp.pdr_count + 1 else adp.pdr_count;
  }

  unfoldable pub push_change : Time → Adaptive F → Adaptive F
  unfolding shift_times
  push_change now adp =
      if ltb adp.parent_change_count (stability_nmax + 1)
      then record adp {
        parent_change_times = set adp.parent_change_times adp.parent_change_count now;
        parent_change_count = adp.parent_change_count + 1;
      }
      else record adp { parent_change_times = shift_times now adp.parent_change_times }

  unfoldable pub parent_changed : Time → Option Addr → Adaptive F → Adaptive F
  parent_changed now none adp = record (push_change now adp) { last_parent_change = now }
  parent_changed now (some new_parent) adp = record (push_change now adp) {
    last_parent_change = now;
    last_parent_addr = new_parent;
  }

  unfoldable pub changes_in_window : Time → Adaptive F → ℕ
  changes_in_window now adp = count_since now (take adp.parent_change_count adp.parent_change_times)

  -- What `get_recommendation` does once the decision is known.
  unfoldable pub hysteresis : NodeClass → NodeClass → Adaptive F → Adaptive F × Option NodeClass
  hysteresis current_class recommended adp =
      if same_class recommended current_class
      then (record adp { hysteresis_counter = 0 }, none)
      else let counter =
          if same_class adp.pending_class recommended then adp.hysteresis_counter + 1 else 1 in
        if leb hysteresis_cycles counter
        then (record adp { pending_class = recommended; hysteresis_counter = 0 }, some recommended)
        else (record adp { pending_class = recommended; hysteresis_counter = counter }, none)

module _ {F : Type 0} (fl : FloatOps F) where
  open fl use {add, sub, mul, div, int, decimal, le, lt}

  abbrev pub one : F
  one = decimal 1 1

  abbrev pub hundred : F
  hundred = decimal 100 1

  abbrev pub w_pdr : F
  w_pdr = decimal 4 10

  abbrev pub w_energy : F
  w_energy = decimal 3 10

  abbrev pub w_stability : F
  w_stability = decimal 3 10

  abbrev pub threshold : F
  threshold = decimal 75 100

  abbrev pub energy_ema_alpha : F
  energy_ema_alpha = decimal 3 10

  unfoldable pub adaptive_init : Option (List ℕ) → Adaptive F
  unfolding battery_file
  adaptive_init ifname = record {
    pdr = hundred;
    energy_pct = hundred;
    energy_ema = one;
    pdr_window = replicate pdr_window_size 1;
    pdr_idx = 0;
    pdr_count = 0;
    parent_change_times = replicate (stability_nmax + 1) 0;
    parent_change_count = 0;
    s_stab = one;
    last_score = one;
    hysteresis_counter = 0;
    pending_class = class_s;
    eval_w = record { running = true; after = adaptive_interval; period = adaptive_interval };
    last_parent_change = 0;
    last_parent_addr = 0;
    battery_path = battery_file ifname;
  }

  unfoldable pub compute_pdr : Adaptive F → Adaptive F
  compute_pdr adp =
      if adp.pdr_count == 0
      then record adp { pdr = hundred }
      else record adp { pdr = mul (div (int (successes adp)) (int (pdr_slots adp))) hundred }

  unfoldable pub record_dao : Bool → Adaptive F → Adaptive F
  record_dao success adp = compute_pdr (push_outcome success adp)

  -- A file is `none` if it cannot be opened, and `some none` if it holds no number.
  unfoldable pub read_energy : List ℕ → Option (Option F) → Option (Option F) → F
  read_energy (c ∷ path) (some (some val)) capacity = val
  read_energy path battery (some (some val)) = val
  read_energy path battery (some none) = hundred
  read_energy path battery none = hundred

  -- `ratio`, cut at 1.
  unfoldable pub change_ratio : ℕ → F
  change_ratio changes =
      let ratio = div (int changes) (int stability_nmax) in if lt one ratio then one else ratio

  unfoldable pub compute_stability : Time → Adaptive F → Adaptive F
  compute_stability now adp = record adp {
    s_stab = sub one (change_ratio (changes_in_window now adp));
  }

  unfoldable pub score : Adaptive F → F
  score adp =
      add (add (mul w_pdr (div adp.pdr hundred)) (mul w_energy adp.energy_ema))
        (mul w_stability adp.s_stab)

  unfoldable pub class_of_score : F → NodeClass
  class_of_score s = if le threshold s then class_s else class_n

  unfoldable pub adaptive_decide : Adaptive F → Adaptive F × NodeClass
  adaptive_decide adp = (record adp { last_score = score adp }, class_of_score (score adp))

  unfoldable pub update_energy : F → Adaptive F → Adaptive F
  update_energy raw_energy adp = record adp {
    energy_pct = mul raw_energy hundred;
    energy_ema =
        add (mul energy_ema_alpha raw_energy) (mul (sub one energy_ema_alpha) adp.energy_ema);
  }

  unfoldable pub adaptive_eval_cb :
      Time → Option (Option F) → Option (Option F) → Adaptive F → Adaptive F
  adaptive_eval_cb now battery capacity adp =
      let raw_energy = div (read_energy adp.battery_path battery capacity) hundred in
      (adaptive_decide (compute_stability now (update_energy raw_energy adp))).0

  -- `none` is the -1 of no change.
  unfoldable pub get_recommendation : NodeClass → Adaptive F → Adaptive F × Option NodeClass
  get_recommendation current_class adp =
      let (adp', recommended) = adaptive_decide adp in hysteresis current_class recommended adp'
