-- ===== src/Accel.antt =====
-- daemon/src/accel.c: keyboard shortcuts. A C string is the list of its bytes, `NULL` is `none`. The
-- number of an F key is computed without the bound of an `int`, which nine digits do not reach.
pub mod Canonical
pub mod RoundTrip
pub mod Sound
pub mod Tests
use Prim.Native.Nat.{bit_or, bit_and}
use Prim.Native.String.{String}
use clipnet.Base.{
  ℕ, ◌+◌, ◌-◌, ◌*◌, ◌/◌, ◌%◌, Bool, true, false, ◌&&◌, ◌||◌, not, Option, none, some, List, [], ◌∷◌,
  ◌++◌, ltb, leb, ◌==◌, if◌then◌else◌, length, take, Bytes, codes, bytes_eq, is_digit, is_alnum,
  to_upper, case_eq,
}

abbrev pub accel_shift : ℕ
accel_shift = 1

abbrev pub accel_ctrl : ℕ
accel_ctrl = 4

abbrev pub accel_alt : ℕ
accel_alt = 8

abbrev pub accel_super : ℕ
accel_super = 64

pub record Accel : Type 0 where
  pub mods : ℕ
  pub key : Bytes

pub record Named : Type 0 where
  pub name : Bytes
  pub keysym : Bytes
  pub aliases : List Bytes

abbrev entry : String → String → List Bytes → Named
entry n k a = record { name = codes n; keysym = codes k; aliases = a }

unfoldable pub named : List Named
named =
    entry "Apostrophe" "apostrophe" (codes "'" ∷ codes "Quote" ∷ [])
    ∷ entry "Grave" "grave" (codes "`" ∷ codes "Backtick" ∷ [])
    ∷ entry "Comma" "comma" (codes "," ∷ [])
    ∷ entry "Period" "period" (codes "." ∷ codes "Dot" ∷ [])
    ∷ entry "Slash" "slash" (codes "/" ∷ [])
    ∷ entry "Backslash" "backslash" (codes "\\" ∷ [])
    ∷ entry "Semicolon" "semicolon" (codes ";" ∷ [])
    ∷ entry "Minus" "minus" (codes "-" ∷ [])
    ∷ entry "Equal" "equal" (codes "=" ∷ codes "Equals" ∷ [])
    ∷ entry "BracketLeft" "bracketleft" (codes "[" ∷ [])
    ∷ entry "BracketRight" "bracketright" (codes "]" ∷ [])
    ∷ entry "Space" "space" []
    ∷ entry "Tab" "Tab" []
    ∷ entry "Return" "Return" (codes "Enter" ∷ [])
    ∷ entry "Escape" "Escape" (codes "Esc" ∷ [])
    ∷ entry "Backspace" "BackSpace" []
    ∷ entry "Delete" "Delete" (codes "Del" ∷ [])
    ∷ entry "Insert" "Insert" (codes "Ins" ∷ [])
    ∷ entry "Home" "Home" []
    ∷ entry "End" "End" []
    ∷ entry "PageUp" "Prior" (codes "Prior" ∷ codes "PgUp" ∷ [])
    ∷ entry "PageDown" "Next" (codes "Next" ∷ codes "PgDown" ∷ [])
    ∷ entry "Left" "Left" []
    ∷ entry "Right" "Right" []
    ∷ entry "Up" "Up" []
    ∷ entry "Down" "Down" []
    ∷ entry "Print" "Print" (codes "PrintScreen" ∷ [])
    ∷ []

-- The loop of `is_fkey` over the digits.
unfoldable pub fkey_digits : ℕ → Bytes → Option ℕ
fkey_digits n [] = some n
fkey_digits n (c ∷ s) = elim (is_digit c) [
  | true ↦ fkey_digits (n * 10 + (c - b'0')) s
  | false ↦ none
]

-- `is_fkey`: the number, where the result is true.
unfoldable pub is_fkey : Bytes → Option ℕ
unfolding fkey_digits
is_fkey [] = none
is_fkey (f ∷ []) = none
is_fkey (f ∷ d ∷ s) =
    if (f == b'F' || f == b'f') && is_digit d
    then elim (fkey_digits 0 (d ∷ s)) [
      | none ↦ none
      | some n ↦ if leb 1 n && leb n 24 then some n else none
    ]
    else none

-- "F%d" of a number below 100.
unfoldable pub print_fkey : ℕ → Bytes
print_fkey n = b'F' ∷ (if ltb n 10 then (b'0' + n) ∷ [] else (b'0' + n / 10) ∷ (b'0' + n % 10) ∷ [])

unfoldable pub any_case : Bytes → List Bytes → Bool
any_case tok [] = false
any_case tok (x ∷ xs) = case_eq tok x || any_case tok xs

-- The last loop of `canon_key`.
unfoldable pub find_named : Bytes → List Named → Option Bytes
unfolding any_case
find_named tok [] = none
find_named tok (e ∷ es) =
    if case_eq tok e.name || case_eq tok e.keysym || any_case tok e.aliases
    then some e.name
    else find_named tok es

unfoldable pub single : Bytes → Option ℕ
single [] = none
single (c ∷ []) = if is_alnum c then some (to_upper c) else none
single (c ∷ x ∷ s) = none

unfoldable pub canon_key : Bytes → Option Bytes
unfolding find_named
canon_key tok = elim (single tok) [
  | some c ↦ some (c ∷ [])
  | none ↦ elim (is_fkey tok) [ some n ↦ some (print_fkey n) | none ↦ find_named tok named ]
]

unfoldable pub keysym_in : Bytes → List Named → Bytes
keysym_in canon [] = canon
keysym_in canon (e ∷ es) = if bytes_eq canon e.name then e.keysym else keysym_in canon es

unfoldable pub accel_keysym : Accel → Bytes
unfolding keysym_in named
accel_keysym a = keysym_in a.key named

unfoldable pub mod_bit : Bytes → ℕ
mod_bit tok =
    if case_eq tok (codes "Ctrl") || case_eq tok (codes "Control")
    then accel_ctrl
    else if case_eq tok (codes "Alt") || case_eq tok (codes "Mod1")
    then accel_alt
    else if case_eq tok (codes "Shift")
    then accel_shift
    else if case_eq tok (codes "Super")
        || case_eq tok (codes "Meta")
        || case_eq tok (codes "Win")
        || case_eq tok (codes "Mod4")
    then accel_super
    else 0

pub data AccelError : Type 0 where
  not_a_shortcut empty_shortcut unknown_modifier no_key unsupported_key add_modifier shift_alone :
      AccelError

pub data Parsed : Type 0 where
  ok : Accel → Parsed
  err : AccelError → Parsed

-- strtok_r with "+": the runs of other bytes, `cur` being the run that is read.
unfoldable pub split_plus : Bytes → Bytes → List Bytes
split_plus [] [] = []
split_plus [] (x ∷ cur) = (x ∷ cur) ∷ []
split_plus (c ∷ s) cur = elim (c == b'+') [
  | false ↦ split_plus s (cur ++ c ∷ [])
  | true ↦ elim cur [ [] ↦ split_plus s [] | x ∷ xs ↦ (x ∷ xs) ∷ split_plus s [] ]
]

unfoldable pub trim_left : Bytes → Bytes
trim_left [] = []
trim_left (c ∷ s) = if c == b' ' then trim_left s else c ∷ s

unfoldable pub trim_right : Bytes → Bytes
trim_right [] = []
trim_right (c ∷ s) =
    let r = trim_right s in elim r [ [] ↦ if c == b' ' then [] else c ∷ [] | x ∷ xs ↦ c ∷ x ∷ xs ]

-- The trimmed tokens that are not empty; the loop ends at eight.
unfoldable pub tokens_of : List Bytes → List Bytes
unfolding trim_left trim_right
tokens_of [] = []
tokens_of (t ∷ ts) = elim (trim_right (trim_left t)) [
  | [] ↦ tokens_of ts
  | c ∷ s ↦ (c ∷ s) ∷ tokens_of ts
]

unfoldable pub tokens : Bytes → List Bytes
unfolding split_plus tokens_of
tokens s = take 8 (tokens_of (split_plus s []))

-- The two tests for a binding.
unfoldable pub check_binding : Accel → Parsed
check_binding a = elim (is_fkey a.key) [
  | some n ↦ ok a
  | none ↦
      if a.mods == 0
      then err add_modifier
      else if a.mods == accel_shift
      then err shift_alone
      else ok a
]

unfoldable pub parse_key : Bool → ℕ → Bytes → Parsed
parse_key for_binding mods tok =
    if not (mod_bit tok == 0) then err no_key else elim (canon_key tok) [
      | none ↦ err unsupported_key
      | some key ↦
          if for_binding
          then check_binding (record { mods = mods; key = key })
          else ok (record { mods = mods; key = key })
    ]

-- All tokens but the last are modifiers.
unfoldable pub parse_tokens : Bool → ℕ → List Bytes → Parsed
parse_tokens for_binding mods [] = err empty_shortcut
parse_tokens for_binding mods (t ∷ []) = parse_key for_binding mods t
parse_tokens for_binding mods (t ∷ u ∷ ts) = elim (mod_bit t == 0) [
  | true ↦ err unknown_modifier
  | false ↦ parse_tokens for_binding (bit_or mods (mod_bit t)) (u ∷ ts)
]

unfoldable pub parse : Option Bytes → Bool → Parsed
parse none for_binding = err not_a_shortcut
parse (some s) for_binding =
    if leb 128 (length s) then err not_a_shortcut else parse_tokens for_binding 0 (tokens s)

unfoldable pub accel_parse : Option Bytes → Parsed
unfolding parse parse_tokens parse_key tokens mod_bit canon_key check_binding single is_fkey
    print_fkey named
accel_parse s = parse s true

unfoldable pub accel_parse_send : Option Bytes → Parsed
unfolding parse parse_tokens parse_key tokens mod_bit canon_key check_binding single is_fkey
    print_fkey named
accel_parse_send s = parse s false

-- `mods & bit ? text : ""`.
unfoldable pub when_bit : ℕ → ℕ → Bytes → Bytes
when_bit mods bit text = if bit_and mods bit == 0 then [] else text

unfoldable pub accel_format : Accel → Bytes
unfolding when_bit
accel_format a =
    when_bit a.mods accel_super (codes "Super+")
    ++ (when_bit a.mods accel_ctrl (codes "Ctrl+")
        ++ (when_bit a.mods accel_alt (codes "Alt+")
            ++ (when_bit a.mods accel_shift (codes "Shift+") ++ a.key)))

unfoldable pub accel_to_hypr : Accel → Bytes
unfolding when_bit accel_keysym
accel_to_hypr a =
    when_bit a.mods accel_super (codes "SUPER + ")
    ++ (when_bit a.mods accel_ctrl (codes "CTRL + ")
        ++ (when_bit a.mods accel_alt (codes "ALT + ")
            ++ (when_bit a.mods accel_shift (codes "SHIFT + ") ++ accel_keysym a)))

-- The text without its last byte.
unfoldable pub drop_last : Bytes → Bytes
drop_last [] = []
drop_last (c ∷ []) = []
drop_last (c ∷ x ∷ s) = c ∷ drop_last (x ∷ s)

unfoldable pub accel_hypr_mods : Accel → Bytes
unfolding when_bit drop_last
accel_hypr_mods a = drop_last (
    when_bit a.mods accel_super (codes "SUPER ")
    ++ (when_bit a.mods accel_ctrl (codes "CTRL ")
        ++ (when_bit a.mods accel_alt (codes "ALT ")
            ++ when_bit a.mods accel_shift (codes "SHIFT "))))

unfoldable pub accel_matches_hypr : Accel → ℕ → Bytes → Bool
unfolding canon_key single is_fkey print_fkey named
accel_matches_hypr a modmask hypr_key =
    if bit_and modmask (accel_shift + accel_ctrl + accel_alt + accel_super) == a.mods
    then elim (canon_key hypr_key) [ none ↦ false | some k ↦ bytes_eq k a.key ]
    else false
