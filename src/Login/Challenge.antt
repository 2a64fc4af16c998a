-- ===== src/Login/Challenge.antt =====
-- The challenge token between the two steps of a log-in, as a text
-- (app/server/monitor/services/totp_service.py). The signature of a body is a parameter. Texts are
-- ASCII, and `int` reads them as Python does: white space around it, a sign, digits with single
-- underscores between them; its limit of 4300 digits is left out.
pub mod Texts
pub mod Issued
use Prim.Native.Char.{Char, code}
use Prim.Native.String.{◌++◌ as concat}
use rpi_home_monitor.Base.{
  ℕ, zero, suc, ◌+◌, ◌-◌, ◌*◌, ◌/◌, ◌%◌, String, Bool, true, false, ◌&&◌, ◌||◌, not, Option, none,
  some, List, [], ◌∷◌, Text, codes, is_digit, strip, ltb, leb, ◌==◌, str_eq, if◌then◌else◌,
}

-- A whole number that may be negative: `negsuc n` is -1 - n.
pub data ℤ : Type 0 where
  pos negsuc : ℕ → ℤ

abbrev pub challenge_ttl_seconds : ℕ
challenge_ttl_seconds = 300

abbrev pub digit : ℕ → Char
digit d =
    if d == 0
    then "0"
    else if d == 1
    then "1"
    else if d == 2
    then "2"
    else if d == 3
    then "3"
    else if d == 4
    then "4"
    else if d == 5
    then "5"
    else if d == 6
    then "6"
    else if d == 7
    then "7"
    else if d == 8
    then "8"
    else "9"

-- The decimal text of a number before `out`; a number has fewer digits than its size and one.
unfoldable pub print_from : ℕ → ℕ → String → String
print_from zero n out = out
print_from (suc fuel) n out = elim (ltb n 10) [
  | true ↦ String.◌∷◌ (digit n) out
  | false ↦ print_from fuel (n / 10) (String.◌∷◌ (digit (n % 10)) out)
]

unfoldable pub print : ℕ → String
print n = print_from (suc n) n ""

-- The digits of `int`, with what was read, and whether a digit was the last.
unfoldable pub scan : ℕ → Bool → Text → Option ℕ
scan n after_digit [] = if after_digit then some n else none
scan n after_digit (c ∷ s) =
    let rest = scan (if is_digit c then n * 10 + (c - 48) else n) (is_digit c) s in
    if is_digit c || (c == 95 && after_digit) then rest else none

abbrev pub negated : ℕ → ℤ
negated zero = pos 0
negated (suc n) = negsuc n

abbrev pub as_pos : Option ℕ → Option ℤ
as_pos none = none
as_pos (some n) = some (pos n)

abbrev pub as_neg : Option ℕ → Option ℤ
as_neg none = none
as_neg (some n) = some (negated n)

abbrev pub signed : Text → Option ℤ
signed [] = none
signed (c ∷ s) =
    if c == 45
    then as_neg (scan 0 false s)
    else if c == 43
    then as_pos (scan 0 false s)
    else as_pos (scan 0 false (c ∷ s))

-- `int` does not take the four separators of ASCII for white space, as `str.strip` does.
unfoldable pub has_separator : Text → Bool
has_separator [] = false
has_separator (c ∷ s) = (leb 28 c && leb c 31) || has_separator s

-- `int`
unfoldable pub parse_int : Text → Option ℤ
parse_int s = if has_separator s then none else signed (strip s)

-- `token.split(".")`
abbrev pub put_first : Char → List String → List String
put_first c [] = String.◌∷◌ c "" ∷ []
put_first c (part ∷ parts) = String.◌∷◌ c part ∷ parts

unfoldable pub split_dots : String → List String
split_dots String.[] = "" ∷ []
split_dots (String.◌∷◌ c s) =
    let rest = split_dots s in if code c == 46 then "" ∷ rest else put_first c rest

abbrev pub dotted : String → String → String
dotted a b = concat a (concat "." b)

abbrev pub flag : Bool → String
flag require_remote = if require_remote then "1" else "0"

-- The signed part of a token.
unfoldable pub body : ℕ → String → Bool → String
body issued_at user_id require_remote =
    dotted (print issued_at) (dotted user_id (flag require_remote))

-- `now - issued_at > CHALLENGE_TTL_SECONDS`, and `now < issued_at - 5`.
abbrev pub is_late : ℤ → ℕ → Bool
is_late (pos issued_at) now = ltb (issued_at + challenge_ttl_seconds) now
is_late (negsuc n) now = ltb challenge_ttl_seconds (now + suc n)

abbrev pub is_early : ℤ → ℕ → Bool
is_early (pos issued_at) now = ltb (now + 5) issued_at
is_early (negsuc n) now = false

module _ (sign : String → String) where
  unfoldable pub issue_challenge_token : String → Bool → ℕ → String
  issue_challenge_token user_id require_remote now =
      dotted (body now user_id require_remote) (sign (body now user_id require_remote))

  abbrev pub verified : String → String → String → String → ℕ → Option ℤ → Option (String × Bool)
  verified issued_at_str user_id flag_str sig now none = none
  verified issued_at_str user_id flag_str sig now (some issued_at) =
      if not (str_eq (sign (dotted issued_at_str (dotted user_id flag_str))) sig)
      then none
      else if is_late issued_at now
      then none
      else if is_early issued_at now
      then none
      else some (user_id, str_eq flag_str "1")

  abbrev pub four_parts : List String → ℕ → Option (String × Bool)
  four_parts (issued_at_str ∷ user_id ∷ flag_str ∷ sig ∷ []) now =
      verified issued_at_str user_id flag_str sig now (parse_int (codes issued_at_str))
  four_parts parts now = none

  unfoldable pub verify_challenge_token : String → ℕ → Option (String × Bool)
  verify_challenge_token token now = four_parts (split_dots token) now
