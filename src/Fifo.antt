-- ===== src/Fifo.antt =====
-- hymrpl_adaptive.c, the secure FIFO: `struct hymrpl_fifo_sec`, loading of the token, verification of
-- a message, replay protection, rate limits and the class switch.
--
-- HMAC-SHA256 of OpenSSL is the argument `hmac`, from key and data to the digest. What the files
-- and the FIFO hold and the clock are arguments. Log lines are left out.
pub mod Split
pub mod Verify
pub mod Effect
pub mod Cases
pub mod Limits
pub mod Replay
pub mod Pipe
use rpld_hymrpl.Prelude.{
  ℕ, zero, suc, ◌+◌, ◌*◌, ◌%◌, ◌^◌, Bool, true, false, not, ◌||◌, ◌&&◌, Option, none, some, List,
  [], ◌∷◌, ◌++◌, ltb, leb, ◌==◌, if◌then◌else◌, length, take, drop, replicate, bit_or, bit_xor,
}
use rpld_hymrpl.Text.{codes, strchr, contains, scan_hex, decode_hex, encode_hex}
use rpld_hymrpl.Dag.{Time, seconds, NodeClass, class_s, class_n, Iface, apply_class}

abbrev pub token_len : ℕ
token_len = 32

abbrev pub hmac_len : ℕ
hmac_len = 32

abbrev pub nonce_len : ℕ
nonce_len = 8

abbrev pub min_switch_interval : Time
min_switch_interval = seconds 10

abbrev pub max_switches_per_min : ℕ
max_switches_per_min = 3

-- `struct hymrpl_fifo_sec`, with the static `fifo_fd` of `hymrpl_fifo_sec_check` as `fifo_open`.
pub record FifoSec : Type 0 where
  pub token : List ℕ
  pub token_loaded : Bool
  pub last_nonce : ℕ
  pub last_switch_time : Time
  pub switches_this_minute : ℕ
  pub minute_start : Time
  pub fifo_open : Bool

-- The bytes that the decoding loop has stored when it ends or fails.
unfoldable pub decoded_part : ℕ → List ℕ → List ℕ
decoded_part zero s = []
decoded_part (suc n) s = elim (scan_hex 2 s) [
  | none ↦ []
  | some byte ↦ (byte % 256) ∷ decoded_part n (drop 2 s)
]

abbrev pub empty_sec : Time → FifoSec
empty_sec now = record {
  token = replicate token_len 0;
  token_loaded = false;
  last_nonce = 0;
  last_switch_time = 0;
  switches_this_minute = 0;
  minute_start = now;
  fifo_open = false;
}

-- The token from the 64 bytes that `fread` got; the flag is the return of 0.
unfoldable pub decode_token : List ℕ → FifoSec → FifoSec × Bool
decode_token hex sec = elim (decode_hex token_len hex) [
  | none ↦ (record sec { token = take token_len (decoded_part token_len hex ++ sec.token) }, false)
  | some token ↦ (record sec { token = token; token_loaded = true }, true)
]

-- The content of the token file is `none` if it cannot be opened. The flag is the return of 0.
-- The creation of the FIFO, which changes no state of the daemon, is `mkfifo_modes`.
unfoldable pub fifo_sec_init : Time → Option (List ℕ) → FifoSec × Bool
unfolding decode_token
fifo_sec_init now none = (empty_sec now, true)
fifo_sec_init now (some file) =
    if ltb (length file) (token_len * 2)
    then (empty_sec now, false)
    else decode_token (take (token_len * 2) file) (empty_sec now)

-- The modes with which `hymrpl_fifo_sec_init` calls `mkfifo`, by the success of the first call.
unfoldable pub mkfifo_modes : Bool → List ℕ
mkfifo_modes made = if made then 0o600 ∷ [] else 0o600 ∷ 0o666 ∷ []

-- The file that `hymrpl_generate_token` writes, for the random bytes that it read.
unfoldable pub token_file : List ℕ → List ℕ
token_file token = encode_hex token ++ 10 ∷ []

-- `none` is a failure to open /dev/urandom, to read 32 bytes of it, or to open the token file.
unfoldable pub generate_token : Option (List ℕ) → Bool → Option (List ℕ)
unfolding token_file
generate_token none writable = none
generate_token (some random) writable =
    if length random == token_len && writable then some (token_file random) else none

-- The loop that takes trailing newlines off.
unfoldable pub strip_newlines : List ℕ → List ℕ
strip_newlines [] = []
strip_newlines (x ∷ s) = elim (strip_newlines s) [
  | [] ↦ if x == 10 || x == 13 then [] else x ∷ []
  | y ∷ r ↦ x ∷ y ∷ r
]

-- `diff |= expected[i] ^ received[i]`
unfoldable pub difference : ℕ → List ℕ → List ℕ → ℕ
difference diff (e ∷ expected) (r ∷ received) =
    difference (bit_or diff (bit_xor e r)) expected received
difference diff _ _ = diff

-- `nonce = (nonce << 4) | nibble`, over the given number of digits.
unfoldable pub parse_nonce : ℕ → List ℕ → ℕ → Option ℕ
parse_nonce zero s nonce = some nonce
parse_nonce (suc n) s nonce = elim (scan_hex 1 s) [
  | none ↦ none
  | some nibble ↦ parse_nonce n (drop 1 s) (bit_or (nonce * 16 % 2 ^ 64) nibble)
]

-- The class that a text names; CLASS_N is looked for first.
unfoldable pub parse_class : List ℕ → Option NodeClass
parse_class text =
    if contains (codes "CLASS_N") text
    then some class_n
    else if contains (codes "CLASS_S") text
    then some class_s
    else none

-- A message cut at its separators, if the three parts have the lengths 7, 16 and 64. No NUL stands
-- before a separator that `strchr` finds, so the first two parts are whole as C strings too.
pub record Parts : Type 0 where
  pub cmd_part : List ℕ
  pub nonce_hex : List ℕ
  pub hmac_hex : List ℕ

unfoldable pub split_at : ℕ → ℕ → List ℕ → Option Parts
split_at cmd_len nonce_chars msg =
    let hmac_hex = strip_newlines (drop (cmd_len + 1 + nonce_chars + 1) msg) in
    if not (cmd_len == 7)
      || not (nonce_chars == nonce_len * 2)
      || not (length hmac_hex == hmac_len * 2)
    then none
    else some (record {
      cmd_part = take cmd_len msg;
      nonce_hex = take nonce_chars (drop (cmd_len + 1) msg);
      hmac_hex = hmac_hex;
    })

unfoldable pub split_message : List ℕ → Option Parts
split_message msg = elim (strchr msg b'|') [
  | none ↦ none
  | some pipe₁ ↦ elim (strchr (drop (pipe₁ + 1) msg) b'|') [
    | none ↦ none
    | some between ↦ split_at pipe₁ between msg
  ]
]

-- The text that the HMAC is computed over.
abbrev pub data_to_verify : Parts → List ℕ
data_to_verify parts = parts.cmd_part ++ (b'|' ∷ parts.nonce_hex)

-- What is left of `verify_hmac` once the digests have been compared.
unfoldable pub parse_command : Parts → Option (NodeClass × ℕ)
parse_command parts = elim (parse_nonce (nonce_len * 2) parts.nonce_hex 0) [
  | none ↦ none
  | some nonce ↦ elim (parse_class parts.cmd_part) [
    | none ↦ none
    | some new_class ↦ some (new_class, nonce)
  ]
]

module _ (hmac : List ℕ → List ℕ → List ℕ) where
  unfoldable pub verify_parts : List ℕ → Parts → Option (NodeClass × ℕ)
  verify_parts token parts = elim (decode_hex hmac_len parts.hmac_hex) [
    | none ↦ none
    | some received ↦
        if difference 0 (hmac token (data_to_verify parts)) received == 0
        then parse_command parts
        else none
  ]

  -- `none` is the return of -1, else the class and the nonce of the message.
  unfoldable pub verify_hmac : FifoSec → List ℕ → Option (NodeClass × ℕ)
  verify_hmac sec msg = elim (split_message msg) [
    | none ↦ none
    | some parts ↦ verify_parts sec.token parts
  ]

  -- The authentication part of `hymrpl_fifo_sec_check`: the class asked for and the state with the
  -- accepted nonce, or `none` for a rejected message.
  unfoldable pub authenticate : FifoSec → List ℕ → Option (NodeClass × FifoSec)
  authenticate sec buf =
      if sec.token_loaded
      then elim (verify_hmac sec buf) [
        | none ↦ none
        | some (new_class, nonce) ↦
            if leb nonce sec.last_nonce
            then none
            else some (new_class, record sec { last_nonce = nonce })
      ]
      else elim (parse_class buf) [ none ↦ none | some new_class ↦ some (new_class, sec) ]

-- The minute counter starts anew after more than 60 seconds: `now - minute_start > 60.0`.
unfoldable pub reset_minute : Time → FifoSec → FifoSec
reset_minute now sec =
    if ltb (sec.minute_start + seconds 60) now
    then record sec { switches_this_minute = 0; minute_start = now }
    else sec

-- `now - last_switch_time < 10.0`
abbrev pub too_fast : Time → FifoSec → Bool
too_fast now sec = ltb now (sec.last_switch_time + min_switch_interval)

pub record Checked : Type 0 where
  pub sec : FifoSec
  pub ifaces : List Iface
  pub result : Option NodeClass

-- The rate limits and the class change, for an authenticated command.
unfoldable pub switch_class : Time → NodeClass → FifoSec → List Iface → Checked
switch_class now new_class sec ifaces =
    let sec' = reset_minute now sec in
    if leb max_switches_per_min sec'.switches_this_minute || too_fast now sec'
    then record { sec = sec'; ifaces = ifaces; result = none }
    else record {
      sec = record sec' {
        last_switch_time = now;
        switches_this_minute = sec'.switches_this_minute + 1;
      };
      ifaces = apply_class new_class ifaces;
      result = some new_class;
    }

-- `opens` says whether `open` succeeds, which is called only while the FIFO is not open; `input` is
-- `none` if `read` returns 0 or less, else the bytes read. A result `none` is the return of -1.
unfoldable pub fifo_sec_check :
    (List ℕ → List ℕ → List ℕ) → Time → Bool → Option (List ℕ) → FifoSec → List Iface → Checked
fifo_sec_check hmac now opens input sec ifaces =
    if not sec.fifo_open && not opens
    then record { sec = sec; ifaces = ifaces; result = none }
    else let sec' = record sec { fifo_open = true } in
      elim input [
        | none ↦ record { sec = sec'; ifaces = ifaces; result = none }
        | some buf ↦ elim (authenticate hmac sec' buf) [
          | none ↦ record { sec = sec'; ifaces = ifaces; result = none }
          | some (new_class, sec'') ↦ switch_class now new_class sec'' ifaces
        ]
      ]
