-- ===== src/Rpld/Main/Options.antt =====
-- What the option loop of main makes of the options as a whole.
use rpld_hymrpl.Prelude.{
  ℕ, ◌≡◌, ◌≤◌, refl, sym, ap, ◌∙◌, ◌||◌, ◌==◌, Option, none, some, List, [], ◌∷◌, map, arith,
  Bool-cases, Option-cases, inl, inr, if◌then◌else◌,
}
use rpld_hymrpl.Rpld.Main.{
  Settings, Said, help_shown, usage_shown, unknown_log_method, Reading, reads, quits,
  set_log_method, log_method_of, take_opt, read_opts,
}

-- The options that end the program, with the status and what is printed.
unfoldable pub refused : ℕ → List ℕ → Option (ℕ × Said)
refused opt optarg =
    if opt == b'C' || (opt == b'f' || (opt == b'l' || opt == b'd'))
    then none
    else if opt == b'm'
    then elim (log_method_of optarg) [ some method ↦ none | none ↦ some (1, unknown_log_method) ]
    else if opt == b'h'
    then some (0, help_shown)
    else some (1, usage_shown)

unfoldable pub first_refused : List (ℕ × List ℕ) → Option (ℕ × Said)
first_refused [] = none
first_refused ((opt, optarg) ∷ opts) = elim (refused opt optarg) [
  | some stop ↦ some stop
  | none ↦ first_refused opts
]

-- The arguments that an option is given, in order.
unfoldable pub args_of : ℕ → List (ℕ × List ℕ) → List (List ℕ)
args_of opt [] = []
args_of opt ((o, optarg) ∷ opts) =
    let rest = args_of opt opts in if o == opt then optarg ∷ rest else rest

abbrev pub last_or : {B : Type 0} → List B → B → B
last_or [] d = d
last_or (x ∷ xs) d = last_or xs x

-- The last argument of an option, as it is read, or the default.
abbrev pub last_of : {B : Type 0} → (List ℕ → B) → ℕ → List (ℕ × List ℕ) → B → B
last_of f opt opts d = last_or (map f (args_of opt opts)) d

module _ {I : Type 0} (atoi : List ℕ → I) where
  abbrev pub settings_of : List (ℕ × List ℕ) → Settings I → Settings I
  settings_of opts s = record {
    conf_path = last_of (λ a. a) b'C' opts s.conf_path;
    log_method = last_of log_method_of b'm' opts s.log_method;
    facility = last_of (λ a. some (atoi a)) b'f' opts s.facility;
    logfile = last_of (λ a. a) b'l' opts s.logfile;
    debuglevel = last_of (λ a. some (atoi a)) b'd' opts s.debuglevel;
  }

  abbrev pub reading_of : Option (ℕ × Said) → Settings I → Reading I
  reading_of none s = reads s
  reading_of (some (status, said)) s = quits status said

  last_of-cons :
      {B : Type 0} (f : List ℕ → B) (c o : ℕ) (a : List ℕ) (opts : List (ℕ × List ℕ)) (d : B)
      → last_of f c ((o, a) ∷ opts) d ≡ last_of f c opts (last_of f c ((o, a) ∷ []) d)
  unfolding args_of
  last_of-cons f c o a opts d = elim (Bool-cases (o == c)) [
    | inl same ↦ rw same refl
    | inr other ↦ rw other refl
  ]

  settings_of-cons :
      (o : ℕ) (a : List ℕ) (opts : List (ℕ × List ℕ)) (s : Settings I)
      → settings_of ((o, a) ∷ opts) s ≡ settings_of opts (settings_of ((o, a) ∷ []) s)
  settings_of-cons o a opts s = λ i. record {
    conf_path = last_of-cons (λ x. x) b'C' o a opts s.conf_path i;
    log_method = last_of-cons log_method_of b'm' o a opts s.log_method i;
    facility = last_of-cons (λ x. some (atoi x)) b'f' o a opts s.facility i;
    logfile = last_of-cons (λ x. x) b'l' o a opts s.logfile i;
    debuglevel = last_of-cons (λ x. some (atoi x)) b'd' o a opts s.debuglevel i;
  }

  take_opt-reading :
      (o : ℕ) (a : List ℕ) (s : Settings I)
      → take_opt atoi o a s ≡ reading_of (refused o a) (settings_of ((o, a) ∷ []) s)
  unfolding take_opt refused args_of set_log_method
  take_opt-reading o a s = ground arith

  -- The loop over the options ends with the first of them that ends the program: the help with 0, a
  -- log method or an option that is not known with 1. If there is none, each setting is what the
  -- last option for it says, in whatever order the options stand, and the default without one.
  pub read_opts-settings :
      (opts : List (ℕ × List ℕ)) (s : Settings I)
      → read_opts atoi opts s ≡ reading_of (first_refused opts) (settings_of opts s)
  unfolding read_opts first_refused
  read_opts-settings [] s = unfold args_of in refl
  read_opts-settings ((o, a) ∷ opts) s = elim (Option-cases (refused o a)) [
    | inl goes_on ↦
        let one : take_opt atoi o a s ≡ reads (settings_of ((o, a) ∷ []) s) =
          take_opt-reading o a s ∙ ap (λ r. reading_of r (settings_of ((o, a) ∷ []) s)) goes_on in
        rw (one, goes_on, read_opts, first_refused)
          (read_opts-settings opts (settings_of ((o, a) ∷ []) s)
            ∙ ap (reading_of (first_refused opts)) (sym (settings_of-cons o a opts s)))
    | inr (stop, ends) ↦
        let one : take_opt atoi o a s ≡ quits stop.0 stop.1 =
          take_opt-reading o a s ∙ ap (λ r. reading_of r (settings_of ((o, a) ∷ []) s)) ends in
        rw (one, ends, read_opts, first_refused) refl
  ]

refused-status :
    (o : ℕ) (a : List ℕ) (status : ℕ) (said : Said) → refused o a ≡ some (status, said) → status ≤ 1
unfolding refused
refused-status o a status said e = ground arith

pub first_refused-status :
    (opts : List (ℕ × List ℕ)) (status : ℕ) (said : Said)
    → first_refused opts ≡ some (status, said)
    → status ≤ 1
unfolding first_refused
first_refused-status [] status said e = ground arith
first_refused-status ((o, a) ∷ opts) status said e = elim (Option-cases (refused o a)) [
  | inl goes_on ↦ ground (arith, first_refused-status opts status said)
  | inr (stop, ends) ↦ ground (arith, refused-status o a status said)
]
