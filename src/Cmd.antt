-- ===== src/Cmd.antt =====
-- hymrpl_cmd.c, the sender of authenticated commands. HMAC-SHA256 is the argument `hmac`; what the
-- files hold, the clock and whether the calls of the system succeed are in `Env`.
pub mod RoundTrip
pub mod Fits
pub mod EndToEnd
pub mod Obeyed
use rpld_hymrpl.Prelude.{
  ℕ, ◌+◌, ◌*◌, ◌%◌, ◌^◌, Bool, true, false, not, ◌&&◌, ◌||◌, Option, none, some, List, [], ◌∷◌,
  ◌++◌, ltb, ◌==◌, if◌then◌else◌, length, take,
}
use rpld_hymrpl.Text.{str_eq, codes, print_hex, decode_hex, encode_hex}
use rpld_hymrpl.Fifo.{token_len}

-- The content of the token file is `none` if it cannot be opened. `none` is the return of -1.
unfoldable pub load_token : Option (List ℕ) → Option (List ℕ)
load_token none = none
load_token (some file) =
    if ltb (length file) (token_len * 2)
    then none
    else decode_hex token_len (take (token_len * 2) file)

-- `gettimeofday`: seconds and microseconds.
unfoldable pub get_nonce : ℕ → ℕ → ℕ
get_nonce tv_sec tv_usec = (tv_sec * 1000000 + tv_usec) % 2 ^ 64

-- The file that is written, or `none` for the return of -1: a failure to open /dev/urandom, to read
-- 32 bytes of it, or to open the token file.
unfoldable pub generate_token : Option (List ℕ) → Bool → Option (List ℕ)
generate_token none writable = none
generate_token (some random) writable =
    if length random == token_len && writable then some (encode_hex random ++ 10 ∷ []) else none

-- "CLASS_X|nonce_hex"
unfoldable pub data_to_sign : List ℕ → ℕ → List ℕ
data_to_sign command nonce = command ++ (b'|' ∷ print_hex 16 nonce)

module _ (hmac : List ℕ → List ℕ → List ℕ) where
  -- "CLASS_X|nonce_hex|hmac_hex\n"
  unfoldable pub message : List ℕ → List ℕ → ℕ → List ℕ
  message token command nonce =
      command
      ++ (b'|' ∷ print_hex 16 nonce
          ++ (b'|' ∷ encode_hex (hmac token (data_to_sign command nonce)) ++ 10 ∷ []))

pub record Env : Type 0 where
  -- `access(HYMRPL_TOKEN_PATH, R_OK) == 0`, and the content of the file
  pub token_readable : Bool
  pub token_file : Option (List ℕ)
  -- the bytes read of /dev/urandom, and whether the token file can be opened for writing
  pub urandom : Option (List ℕ)
  pub token_writable : Bool
  pub tv_sec : ℕ
  pub tv_usec : ℕ
  pub fifo_opens : Bool
  pub fifo_writes : Bool

-- The exit status of `main`, with the token file and the message that it wrote.
pub record Exit : Type 0 where
  pub status : ℕ
  pub token_written : Option (List ℕ)
  pub sent : Option (List ℕ)

abbrev pub exits : ℕ → Exit
exits status = record { status = status; token_written = none; sent = none }

-- The return of -1 is the exit status 255.
unfoldable pub gen_token_command : Env → Exit
gen_token_command env = elim (generate_token env.urandom env.token_writable) [
  | none ↦ exits 255
  | some file ↦ record { status = 0; token_written = some file; sent = none }
]

-- Without a token the plain command is sent; the result of `write` is not looked at.
unfoldable pub send_plain : Env → List ℕ → Exit
send_plain env command =
    if env.fifo_opens
    then record {
      status = 0;
      token_written = none;
      sent = if env.fifo_writes then some (command ++ 10 ∷ []) else none;
    }
    else exits 1

module _ (hmac : List ℕ → List ℕ → List ℕ) where
  unfoldable pub send_signed : Env → List ℕ → Exit
  send_signed env command = elim (load_token env.token_file) [
    | none ↦ exits 1
    | some token ↦
        if env.fifo_opens && env.fifo_writes
        then record {
          status = 0;
          token_written = none;
          sent = some (message hmac token command (get_nonce env.tv_sec env.tv_usec));
        }
        else exits 1
  ]

  -- `args` are the arguments behind the program's name.
  unfoldable pub main : Env → List (List ℕ) → Exit
  main env [] = exits 1
  main env (command ∷ args) =
      if str_eq command (codes "--gen-token")
      then gen_token_command env
      else if str_eq command (codes "--help") || str_eq command (codes "-h")
      then exits 0
      else if not (str_eq command (codes "CLASS_S")) && not (str_eq command (codes "CLASS_N"))
      then exits 1
      else if env.token_readable
      then send_signed env command
      else send_plain env command
