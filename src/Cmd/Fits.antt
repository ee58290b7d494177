-- ===== src/Cmd/Fits.antt =====
-- What the sender may put into the FIFO, against the buffers on both sides.
use rpld_hymrpl.Prelude.{
  ℕ, ◌≤◌, ◌<◌, ◌≡◌, inl, inr, refl, ap₂, ◌∙◌, true, ◌&&◌, ◌||◌, Option, none, some, List, [], ◌∷◌,
  ◌++◌, arith, length, length-append, take_all, drop_all, Bool-cases, Option-cases, if◌then◌else◌,
}
use rpld_hymrpl.Text.{str_eq, codes}
use rpld_hymrpl.Dag.{NodeClass, class_s, class_n}
use rpld_hymrpl.Fifo.Verify.{class_name}
use rpld_hymrpl.Fifo.Pipe.{read_fifo, read_fifo-some, length-class_name, length-message}
use rpld_hymrpl.Cmd.{Env, load_token, get_nonce, gen_token_command, send_plain, send_signed, main}

str_eq-eq : (a b : List ℕ) → str_eq a b ≡ true → a ≡ b
unfolding str_eq
str_eq-eq [] [] e = refl
str_eq-eq [] (y ∷ b) e = absurd (ground arith)
str_eq-eq (x ∷ a) [] e = absurd (ground arith)
str_eq-eq (x ∷ a) (y ∷ b) e = ap₂ ◌∷◌ (ground arith) (str_eq-eq a b (ground arith))

-- The length of what is sent.
abbrev Sends : Option (List ℕ) → ℕ → Type 0
Sends none n = Unit {0}
Sends (some msg) n = (0 < length msg) × (length msg ≤ n)

gen_token_command-sent : (env : Env) → (gen_token_command env).sent ≡ none
unfolding gen_token_command
gen_token_command-sent env = ground arith

send_plain-Sends : (env : Env) (c : NodeClass) → Sends (send_plain env (class_name c)).sent 90
unfolding send_plain
send_plain-Sends env c =
    let size : length (class_name c ++ 10 ∷ []) ≡ 8 =
      omega (arith, length-append (class_name c) (10 ∷ []), length-class_name c) in
    elim (Bool-cases env.fifo_opens) [
      | inr shut ↦ rw (shut, send_plain) tt
      | inl open_now ↦ elim (Bool-cases env.fifo_writes) [
        | inr fails ↦ rw (open_now, fails, send_plain) tt
        | inl writes ↦ rw (open_now, writes, send_plain) (omega (arith, size), omega (arith, size))
      ]
    ]

module _ (hmac : List ℕ → List ℕ → List ℕ)
    (digest_len : (key text : List ℕ) → length (hmac key text) ≡ 32) where
  send_signed-Sends :
      (env : Env) (c : NodeClass) → Sends (send_signed hmac env (class_name c)).sent 90
  unfolding send_signed
  send_signed-Sends env c = elim (Option-cases (load_token env.token_file)) [
    | inl fails ↦ rw (fails, send_signed) tt
    | inr (token, loads) ↦
        let size = length-message hmac digest_len token c (get_nonce env.tv_sec env.tv_usec) in
        elim (Bool-cases (env.fifo_opens && env.fifo_writes)) [
          | inl works ↦ rw (loads, works, send_signed) (omega (arith, size), omega (arith, size))
          | inr breaks ↦ rw (loads, breaks, send_signed) tt
        ]
  ]

  command-Sends :
      (env : Env) (c : NodeClass)
      → Sends
          (if env.token_readable
            then send_signed hmac env (class_name c)
            else send_plain env (class_name c)).sent
          90
  unfolding send_signed send_plain
  command-Sends env c = elim (Bool-cases env.token_readable) [
    | inl readable ↦ rw readable (send_signed-Sends env c)
    | inr plain ↦ rw plain (send_plain-Sends env c)
  ]

  main-Sends : (env : Env) (args : List (List ℕ)) → Sends (main hmac env args).sent 90
  unfolding main
  main-Sends env [] = tt
  main-Sends env (command ∷ args) = elim (Bool-cases (str_eq command (codes "--gen-token"))) [
    | inl gen ↦ rw (gen, gen_token_command-sent env) tt
    | inr sends ↦
        elim (Bool-cases (str_eq command (codes "--help") || str_eq command (codes "-h"))) [
          | inl help ↦ rw (sends, help) tt
          | inr asks ↦ elim (Bool-cases (str_eq command (codes "CLASS_S"))) [
            | inl s ↦
                rw (sends, asks, s, str_eq-eq command (codes "CLASS_S") s)
                  (command-Sends env class_s)
            | inr other ↦ elim (Bool-cases (str_eq command (codes "CLASS_N"))) [
              | inl n ↦
                  rw (sends, asks, other, n, str_eq-eq command (codes "CLASS_N") n)
                    (command-Sends env class_n)
              | inr invalid ↦ rw (sends, asks, other, invalid) tt
            ]
          ]
        ]
  ]

  -- Whatever the arguments, the token file and the calls of the system give: what the sender writes
  -- to the FIFO has ninety bytes at most. So it is cut by no buffer of the sender, which has 128
  -- bytes, and one read of the daemon on an empty FIFO gets it whole and leaves nothing. The digest
  -- has 32 bytes.
  pub main_fits :
      (env : Env) (args : List (List ℕ)) (msg : List ℕ)
      → (main hmac env args).sent ≡ some msg
      → (length msg ≤ 90) × (read_fifo msg ≡ (some msg, []))
  main_fits env args msg e =
      let (pos, small) : Sends (some msg) 90 = rw e at (main-Sends env args) in
      (
        small,
        read_fifo-some msg pos
            ∙ rw (take_all 127 msg (omega (arith, small)), drop_all 127 msg (omega (arith, small)))
                refl,
      )
