-- ===== src/Runtime/Text.antt =====
-- What runtime/src/scan.c uses of the C library on text: strings as lists of bytes.
use linux_pci_driver.Common.{
  ℕ, ◌+◌, ◌-◌, ◌*◌, ◌%◌, ◌^◌, min, ltb, leb, ◌==◌, if◌then◌else◌, Bool, true, false, not, ◌&&◌,
  ◌||◌, Option, none, some, List, [], ◌∷◌,
}

-- `strncmp(line, prefix, strlen(prefix))` is 0.
abbrev pub starts : List ℕ → List ℕ → Bool
starts [] line = true
starts (c ∷ cs) [] = false
starts (c ∷ cs) (x ∷ xs) = (x == c) && starts cs xs

-- The string up to the first newline or terminator: `line[strcspn(line, "\n")] = '\0'`.
abbrev pub cut_line : List ℕ → List ℕ
cut_line [] = []
cut_line (c ∷ cs) = if (c == b'\n') || (c == 0) then [] else c ∷ cut_line cs

abbrev pub space : ℕ → Bool
space c = (c == b' ') || (leb b'\t' c && leb c b'\r')

-- The value of a digit, or 16.
unfoldable pub digit_value : ℕ → ℕ
digit_value c =
    if leb b'0' c && leb c b'9'
    then c - b'0'
    else if leb b'a' c && leb c b'f'
    then c - b'a' + 10
    else if leb b'A' c && leb c b'F'
    then c - b'A' + 10
    else 16

-- The number at the front of a text, behind the digits already read, and whether there is any.
unfoldable pub read_digits : ℕ → ℕ → List ℕ → ℕ
unfolding digit_value
read_digits base value [] = value
read_digits base value (c ∷ cs) =
    let more = read_digits base (value * base + digit_value c) cs in
    if ltb (digit_value c) base then more else value

abbrev pub has_digit : ℕ → List ℕ → Bool
has_digit base [] = false
has_digit base (c ∷ cs) = ltb (digit_value c) base

abbrev pub skip_spaces : List ℕ → List ℕ
skip_spaces [] = []
skip_spaces (c ∷ cs) = if space c then skip_spaces cs else c ∷ cs

abbrev pub digits_of : ℕ → List ℕ → Option ℕ
digits_of base text = if has_digit base text then some (read_digits base 0 text) else none

-- The base by the prefix, as "%i" takes it.
abbrev pub unsigned_i : List ℕ → Option ℕ
unsigned_i (c ∷ x ∷ cs) =
    if not (c == b'0')
    then digits_of 10 (c ∷ x ∷ cs)
    else if (x == b'x') || (x == b'X')
    then digits_of 16 cs
    else digits_of 8 (c ∷ x ∷ cs)
unsigned_i cs = digits_of 10 cs

-- Into 64 bits.
abbrev pub positive : Option ℕ → Option ℕ
positive none = none
positive (some v) = some (v % 2 ^ 64)

abbrev pub negative : Option ℕ → Option ℕ
negative none = none
negative (some v) = some ((2 ^ 64 - v % 2 ^ 64) % 2 ^ 64)

-- `fscanf` of "%i" into 64 bits; none if nothing was read. A number past 64 bits, for which the C
-- library promises nothing, wraps here.
unfoldable pub scan_i64 : List ℕ → Option ℕ
unfolding read_digits
scan_i64 text = signed (skip_spaces text)
  where
    signed : List ℕ → Option ℕ
    signed [] = none
    signed (c ∷ cs) =
        if c == b'-'
        then negative (unsigned_i cs)
        else positive (unsigned_i (if c == b'+' then cs else c ∷ cs))

-- `strtoul` of base 10: 0 if there is no digit, and the largest number past 64 bits.
unfoldable pub strtoul : List ℕ → ℕ
unfolding read_digits
strtoul text = signed (skip_spaces text)
  where
    signed : List ℕ → ℕ
    signed [] = 0
    signed (c ∷ cs) =
        let unsigned = min (2 ^ 64 - 1) (read_digits 10 0 (if c == b'+' then cs else c ∷ cs)) in
        let value = min (2 ^ 64 - 1) (read_digits 10 0 cs) in
        if c == b'-'
        then if leb (2 ^ 64) (read_digits 10 0 cs) then 2 ^ 64 - 1 else (2 ^ 64 - value) % 2 ^ 64
        else unsigned
