-- ===== src/Login/Challenge/Texts.antt =====
-- What the texts of challenge tokens are read back as: decimal numbers, and parts between dots.
use Prim.Native.Char.{Char, code}
use Prim.Native.String.{◌++◌ as concat}
use Prim.Native.String.append
use rpi_home_monitor.Base.{
  ℕ, zero, suc, ◌+◌, ◌-◌, ◌*◌, ◌/◌, ◌%◌, ◌<◌, String, ◌≡◌, refl, ap, ◌∙◌, Bool, true, false, ◌&&◌,
  ◌||◌, some, List, [], ◌∷◌, ◌++◌, Text, codes, is_digit, is_space, ltb, leb, ◌==◌, Bool-cases, inl,
  inr, arith, All,
}
use rpi_home_monitor.Base.Strip.{IsDense, strip-dense}
use rpi_home_monitor.Login.Challenge.{
  pos, digit, print_from, print, scan, signed, as_pos, has_separator, parse_int, put_first,
  split_dots, dotted,
}

code-digit : (d : ℕ) → d < 10 → code (digit d) ≡ 48 + d
code-digit zero h = refl
code-digit (suc zero) h = refl
code-digit (suc (suc zero)) h = refl
code-digit (suc (suc (suc zero))) h = refl
code-digit (suc (suc (suc (suc zero)))) h = refl
code-digit (suc (suc (suc (suc (suc zero))))) h = refl
code-digit (suc (suc (suc (suc (suc (suc zero)))))) h = refl
code-digit (suc (suc (suc (suc (suc (suc (suc zero))))))) h = refl
code-digit (suc (suc (suc (suc (suc (suc (suc (suc zero)))))))) h = refl
code-digit (suc (suc (suc (suc (suc (suc (suc (suc (suc zero))))))))) h = refl
code-digit (suc (suc (suc (suc (suc (suc (suc (suc (suc (suc d)))))))))) h =
    absurd (omega (arith, h))

is_digit-digit : (d : ℕ) → d < 10 → is_digit (code (digit d)) ≡ true
is_digit-digit d h = rw (code-digit d h) (ground arith)

scan_on :
    (n c : ℕ) (b : Bool) (s : Text)
    → is_digit c ≡ true
    → scan n b (c ∷ s) ≡ scan (n * 10 + (c - 48)) true s
unfolding scan
scan_on n c b s h = rw h refl

scan-digit :
    (n d : ℕ) (b : Bool) (s : Text)
    → d < 10
    → scan n b (code (digit d) ∷ s) ≡ scan (n * 10 + d) true s
scan-digit n d b s h =
    scan_on n (code (digit d)) b s (is_digit-digit d h)
    ∙ ap (λ m. scan (n * 10 + m) true s) (ap (λ c. c - 48) (code-digit d h) ∙ omega arith)

print_last :
    (fuel n : ℕ) (out : String)
    → ltb n 10 ≡ true
    → print_from (suc fuel) n out ≡ String.◌∷◌ (digit n) out
unfolding print_from
print_last fuel n out small =
    ap
      (λ b. elim b as (λ x. String) [
        | true ↦ String.◌∷◌ (digit n) out
        | false ↦ print_from fuel (n / 10) (String.◌∷◌ (digit (n % 10)) out)
      ])
      small

print_more :
    (fuel n : ℕ) (out : String)
    → ltb n 10 ≡ false
    → print_from (suc fuel) n out ≡ print_from fuel (n / 10) (String.◌∷◌ (digit (n % 10)) out)
unfolding print_from
print_more fuel n out large =
    ap
      (λ b. elim b as (λ x. String) [
        | true ↦ String.◌∷◌ (digit n) out
        | false ↦ print_from fuel (n / 10) (String.◌∷◌ (digit (n % 10)) out)
      ])
      large

-- Reading a printed number before a text is reading on behind it.
scan-print_from :
    (fuel n : ℕ) (b : Bool) (out : String)
    → n < fuel
    → scan 0 b (codes (print_from fuel n out)) ≡ scan n true (codes out)
scan-print_from zero n b out h = absurd (omega (arith, h))
scan-print_from (suc fuel) n b out h = elim (Bool-cases (ltb n 10)) [
  | inl small ↦ rw (print_last fuel n out small) (
      scan-digit 0 n b (codes out) (ground arith) ∙ ap (λ m. scan m true (codes out)) (omega arith))
  | inr large ↦ rw (print_more fuel n out large) (
      scan-print_from fuel (n / 10) b (String.◌∷◌ (digit (n % 10)) out) (ground arith)
      ∙ scan-digit (n / 10) (n % 10) true (codes out) (omega arith)
      ∙ ap (λ m. scan m true (codes out)) (omega arith))
]

abbrev pub IsNumeral : Text → Type 0
IsNumeral s = All (λ c. is_digit c ≡ true) s

print_from-IsNumeral :
    (fuel n : ℕ) (out : String) → IsNumeral (codes out) → IsNumeral (codes (print_from fuel n out))
unfolding print_from
print_from-IsNumeral zero n out h = h
print_from-IsNumeral (suc fuel) n out h = elim (Bool-cases (ltb n 10)) [
  | inl small ↦ rw (print_last fuel n out small) (is_digit-digit n (ground arith), h)
  | inr large ↦ rw (print_more fuel n out large) (
      print_from-IsNumeral fuel (n / 10) (String.◌∷◌ (digit (n % 10)) out)
        (is_digit-digit (n % 10) (omega arith), h))
]

numeral-IsDense : (s : Text) → IsNumeral s → IsDense s
numeral-IsDense [] h = tt
numeral-IsDense (c ∷ s) h = (not_space c h.0, numeral-IsDense s h.1)
  where
    not_space : (c : ℕ) → is_digit c ≡ true → is_space c ≡ false
    not_space c h = ground arith

signed-numeral : (s : Text) → IsNumeral s → signed s ≡ as_pos (scan 0 false s)
unfolding scan
signed-numeral [] h = refl
signed-numeral (c ∷ s) h = ground arith

numeral-has_separator : (s : Text) → IsNumeral s → has_separator s ≡ false
unfolding has_separator
numeral-has_separator [] h = refl
numeral-has_separator (c ∷ s) h = rw (numeral-has_separator s h.1) (not_separator c h.0)
  where
    not_separator : (c : ℕ) → is_digit c ≡ true → ((leb 28 c && leb c 31) || false) ≡ false
    not_separator c h = ground arith

-- A printed number is read back.
pub parse_int-print : (n : ℕ) → parse_int (codes (print n)) ≡ some (pos n)
unfolding parse_int print scan
parse_int-print n =
    let numeral = print_from-IsNumeral (suc n) n "" tt in
    rw (numeral-has_separator (codes (print_from (suc n) n "")) numeral) (
      rw (strip-dense (codes (print_from (suc n) n "")) (numeral-IsDense _ numeral)) (
        signed-numeral (codes (print_from (suc n) n "")) numeral
        ∙ ap as_pos (scan-print_from (suc n) n false "" (omega arith))))

-- Whether there is a dot in a text.
unfoldable pub has_dot : String → Bool
has_dot String.[] = false
has_dot (String.◌∷◌ c s) = code c == 46 || has_dot s

has_dot-digit : (d : ℕ) (s : String) → d < 10 → has_dot (String.◌∷◌ (digit d) s) ≡ has_dot s
unfolding has_dot
has_dot-digit d s h = rw (code-digit d h) (ground arith)

has_dot-print_from : (fuel n : ℕ) (out : String) → has_dot (print_from fuel n out) ≡ has_dot out
unfolding print_from
has_dot-print_from zero n out = refl
has_dot-print_from (suc fuel) n out = elim (Bool-cases (ltb n 10)) [
  | inl small ↦ rw (print_last fuel n out small) (has_dot-digit n out (ground arith))
  | inr large ↦ rw (print_more fuel n out large) (
      has_dot-print_from fuel (n / 10) (String.◌∷◌ (digit (n % 10)) out)
      ∙ has_dot-digit (n % 10) out (omega arith))
]

pub has_dot-print : (n : ℕ) → has_dot (print n) ≡ false
unfolding print has_dot
has_dot-print n = has_dot-print_from (suc n) n ""

-- A text has a part before its first dot.
abbrev pub Parted : List String → Type 0
Parted parts = (p : String) × (rest : List String) × (parts ≡ p ∷ rest)

pub split_dots-Parted : (s : String) → Parted (split_dots s)
unfolding split_dots
split_dots-Parted String.[] = ("", [], refl)
split_dots-Parted (String.◌∷◌ c s) = elim (Bool-cases (code c == 46)) [
  | inl dot ↦ rw dot ("", split_dots s, refl)
  | inr other ↦
      rw other (let (p, rest, e) = split_dots-Parted s in rw e (String.◌∷◌ c p, rest, refl))
]

put_first-append :
    (c : _) (parts more : List String)
    → Parted parts
    → put_first c (parts ++ more) ≡ put_first c parts ++ more
put_first-append c [] more (p, rest, e) = cc
put_first-append c (p ∷ parts) more h = refl

abbrev dot : Char
dot = "."

dot_first : (s : String) → concat "." s ≡ String.◌∷◌ dot s
dot_first s = append.cons dot "" s ∙ ap (String.◌∷◌ dot) (append.nil s)

-- The parts of two texts with a dot between them.
pub split_dots-dotted : (a s : String) → split_dots (dotted a s) ≡ split_dots a ++ split_dots s
unfolding split_dots
split_dots-dotted String.[] s = ap split_dots (append.nil (concat "." s) ∙ dot_first s)
split_dots-dotted (String.◌∷◌ c a) s =
    ap split_dots (append.cons c a (concat "." s)) ∙ elim (Bool-cases (code c == 46)) [
      | inl dot ↦ rw dot (ap (◌∷◌ "") (split_dots-dotted a s))
      | inr other ↦ rw other (
          ap (put_first c) (split_dots-dotted a s)
          ∙ put_first-append c (split_dots a) (split_dots s) (split_dots-Parted a))
    ]

pub split_dots-single : (s : String) → has_dot s ≡ false → split_dots s ≡ s ∷ []
unfolding split_dots has_dot
split_dots-single String.[] h = refl
split_dots-single (String.◌∷◌ c s) h = elim (Bool-cases (code c == 46)) [
  | inl dot ↦ absurd (ground arith)
  | inr other ↦ rw other (rw (split_dots-single s (ground arith)) refl)
]

abbrev pub Split : List String → Type 0
Split parts = (p q : String) × (rest : List String) × (parts ≡ p ∷ q ∷ rest)

pub split_dots-Split : (s : String) → has_dot s ≡ true → Split (split_dots s)
unfolding split_dots has_dot
split_dots-Split String.[] h = cc
split_dots-Split (String.◌∷◌ c s) h = elim (Bool-cases (code c == 46)) [
  | inl dot ↦ rw dot (let (p, rest, e) = split_dots-Parted s in ("", p, rest, ap (◌∷◌ "") e))
  | inr other ↦ rw other (
      let (p, q, rest, e) = split_dots-Split s (ground arith) in
      rw e (String.◌∷◌ c p, q, rest, refl))
]
