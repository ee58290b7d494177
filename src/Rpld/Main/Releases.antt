-- ===== src/Rpld/Main/Releases.antt =====
-- What main has opened and not closed when it returns.
use rpld_hymrpl.Prelude.{
  ℕ, ◌≡◌, ◌∙◌, ap, refl, Bool, true, false, ◌==◌, Option, none, some, List, [], ◌∷◌, ◌++◌, arith,
  Bool-cases, Option-cases, inl, inr,
}
use rpld_hymrpl.Dag.{Iface}
use rpld_hymrpl.Adaptive.{FloatOps}
use rpld_hymrpl.Rpld.System.{first_node}
use rpld_hymrpl.Rpld.Main.Options.{
  first_refused, first_refused-status, settings_of, read_opts-settings,
}
use rpld_hymrpl.Rpld.Main.{
  Settings, default_settings, Call, netlink_open, netlink_close, config_load, config_free,
  setup_rpld, set_var, open_icmpv6_socket, close_icmpv6_socket, Env, Exit, adaptive_calls, run_node,
  start_node, load_config, open_netlink, start, run_settings, main,
}

pub record Held : Type 0 where
  pub netlink : Bool
  pub config : Bool
  pub socket : Bool

abbrev pub nothing : Held
nothing = record { netlink = false; config = false; socket = false }

-- A call that fails opens nothing.
abbrev pub hold : Held → Call → Held
hold h (netlink_open works) = record h { netlink = works }
hold h netlink_close = record h { netlink = false }
hold h (config_load works path) = record h { config = works }
hold h config_free = record h { config = false }
hold h (open_icmpv6_socket works) = record h { socket = works }
hold h close_icmpv6_socket = record h { socket = false }
hold h _ = h

abbrev pub hold_all : Held → List Call → Held
hold_all h [] = h
hold_all h (call ∷ calls) = hold_all (hold h call) calls

abbrev opened : Held
opened = record { netlink = true; config = true; socket = false }

-- With what is held before: what is held at the end.
abbrev Leaves : {F : Type 0} → Held → Exit F → Type 0
Leaves h exit =
    hold_all h exit.calls
    ≡ record { netlink = exit.status == 255; config = exit.status == 255; socket = false }

hold_all-setup :
    (first : Option Iface) (calls : List Call)
    → hold_all opened ((adaptive_calls first ++ setup_rpld ∷ []) ++ calls) ≡ hold_all opened calls
unfolding adaptive_calls
hold_all-setup none calls = refl
hold_all-setup (some iface) calls = refl

module _ {F : Type 0} (fl : FloatOps F) where
  run_node-Leaves : (env : Env) (ifaces : List Iface) → Leaves opened (run_node fl env ifaces)
  unfolding run_node
  run_node-Leaves env ifaces = elim (Bool-cases env.socket_opens) [
    | inl opens ↦ rw (opens, run_node) refl
    | inr fails ↦ rw (fails, run_node) refl
  ]

  start_node-Leaves : (env : Env) (ifaces : List Iface) → Leaves opened (start_node fl env ifaces)
  unfolding start_node run_node
  start_node-Leaves env ifaces = elim (Bool-cases env.var_set) [
    | inl works ↦
        rw (works, start_node)
          (hold_all-setup (first_node ifaces) (set_var true 99 ∷ (run_node fl env ifaces).calls)
            ∙ run_node-Leaves env ifaces)
    | inr fails ↦
        rw (fails, start_node) (hold_all-setup (first_node ifaces) (set_var false 99 ∷ []))
  ]

  load_config-Leaves :
      (env : Env) (path : List ℕ) (conf : Option (List Iface))
      → Leaves (record nothing { netlink = true }) (load_config fl env path conf)
  unfolding load_config
  load_config-Leaves env path none = refl
  load_config-Leaves env path (some ifaces) = start_node-Leaves env ifaces

  open_netlink-Leaves : (env : Env) (path : List ℕ) → Leaves nothing (open_netlink fl env path)
  unfolding open_netlink load_config start_node run_node
  open_netlink-Leaves env path = elim (Bool-cases env.netlink_opens) [
    | inl opens ↦ rw (opens, open_netlink) (load_config-Leaves env path env.conf)
    | inr fails ↦ rw (fails, open_netlink) refl
  ]

  start-Leaves : {I : Type 0} (env : Env) (s : Settings I) → Leaves nothing (start fl env s)
  unfolding start open_netlink load_config start_node run_node
  start-Leaves env s = elim (Bool-cases env.log_opens) [
    | inl opens ↦ rw (opens, start) (open_netlink-Leaves env s.conf_path)
    | inr fails ↦ rw (fails, start) refl
  ]

  main-Leaves :
      {I : Type 0} (atoi : List ℕ → I) (env : Env) (opts : List (ℕ × List ℕ))
      → Leaves nothing (main fl atoi env opts)
  unfolding main run_settings
  main-Leaves atoi env opts =
      let read = read_opts-settings atoi opts default_settings in
      elim (Option-cases (first_refused opts)) [
        | inl taken ↦ rw (read, taken) (start-Leaves env (settings_of atoi opts default_settings))
        | inr ((status, said), ends) ↦
            let small = first_refused-status opts status said ends in
            let other : (status == 255) ≡ false = ground arith in rw (read, ends) (rw other refl)
      ]

  -- When main returns, whatever the options and whatever call has failed, it has closed the ICMPv6
  -- socket if it was opened, and the netlink socket and the configuration are released, unless the
  -- setting of the kernel's limit failed: then, and only then, the exit status is 255 and both are
  -- still held.
  pub main-releases :
      {I : Type 0} (atoi : List ℕ → I) (env : Env) (opts : List (ℕ × List ℕ))
      → let exit = main fl atoi env opts in
        let held = hold_all nothing exit.calls in
        (held.socket ≡ false)
        × (held.netlink ≡ (exit.status == 255))
        × (held.config ≡ (exit.status == 255))
  main-releases atoi env opts =
      let ends = main-Leaves atoi env opts in
      (ap (λ h. h.socket) ends, ap (λ h. h.netlink) ends, ap (λ h. h.config) ends)
