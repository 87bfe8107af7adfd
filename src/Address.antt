-- ===== src/Address.antt =====
-- lib/util_ip.c and lib/util_hex.c: addresses and bytes as text. An address is a `uint32_t` in
-- network order on a little-endian machine: its lowest byte is the first number.
pub mod RoundTrip
mod Examples
use Prim.Native.Nat.{bit_or}
use pfs.Common.{
  ℕ, zero, suc, ◌+◌, ◌-◌, ◌*◌, ◌/◌, ◌%◌, ◌^◌, min, Bool, true, false, not, ◌&&◌, ◌||◌, Option, none,
  some, List, [], ◌∷◌, ◌++◌, ltb, leb, ◌==◌, if◌then◌else◌,
}
use pfs.LocalFile.{is_digit}

-- The value of a digit of `strtoul`; 99 for what is none.
unfoldable pub digit_value : ℕ → ℕ
digit_value c =
    if is_digit c
    then c - 48
    else if leb 97 c && leb c 122
    then c - 87
    else if leb 65 c && leb c 90
    then c - 55
    else 99

-- The digits of a base, and what follows them.
unfoldable pub digits : ℕ → ℕ → List ℕ → ℕ × List ℕ
digits base acc [] = (acc, [])
digits base acc (c ∷ cs) =
    let more = digits base (acc * base + digit_value c) cs in
    if ltb (digit_value c) base then more else (acc, c ∷ cs)

abbrev pub first : List ℕ → ℕ
first [] = 0
first (c ∷ cs) = c

abbrev pub behind_first : List ℕ → List ℕ
behind_first [] = []
behind_first (c ∷ cs) = cs

-- strtoul(s, &end, 0) of a string that starts with a digit, as it is assigned to a `uint32_t`.
pub strtoul : List ℕ → ℕ × List ℕ
strtoul s =
    let x = first (behind_first s) in
    let hex = digits 16 0 (behind_first (behind_first s)) in
    let r =
      if first s == 48
      then (if (x == 120 || x == 88) && ltb (digit_value (first (behind_first (behind_first s)))) 16
          then hex
          else digits 8 0 s)
      else digits 10 0 s in
    (min r.0 (2 ^ 64 - 1) % 2 ^ 32, r.1)

abbrev pub inaddr_none : ℕ
inaddr_none = 0xffffffff

-- htonl
pub swap32 : ℕ → ℕ
swap32 n = n % 256 * 2 ^ 24 + n / 2 ^ 8 % 256 * 2 ^ 16 + n / 2 ^ 16 % 256 * 2 ^ 8 + n / 2 ^ 24 % 256

abbrev pub dot : ℕ
dot = 46

-- The fourth number, at `s`.
pub fourth_part : ℕ → List ℕ → ℕ
fourth_part addr s =
    let n = strtoul s in if leb 256 n.0 then inaddr_none else (addr + n.0 * 2 ^ 24) % 2 ^ 32

pub third_part : ℕ → List ℕ → ℕ
third_part addr s =
    let n = strtoul s in
    if not (first n.1 == dot)
    then (if leb (2 ^ 16) n.0 then inaddr_none else (addr + swap32 n.0) % 2 ^ 32)
    else if not (is_digit (first (behind_first n.1)))
    then inaddr_none
    else fourth_part ((addr + n.0 * 2 ^ 16) % 2 ^ 32) (behind_first n.1)

pub second_part : ℕ → List ℕ → ℕ
second_part addr s =
    let n = strtoul s in
    if not (first n.1 == dot)
    then (if leb (2 ^ 24) n.0 then inaddr_none else (addr + swap32 n.0) % 2 ^ 32)
    else if not (is_digit (first (behind_first n.1)))
    then inaddr_none
    else if leb 256 n.0
    then inaddr_none
    else third_part ((addr + n.0 * 2 ^ 8) % 2 ^ 32) (behind_first n.1)

pub str2ip : List ℕ → ℕ
str2ip s =
    let n = strtoul s in
    if not (is_digit (first s))
    then inaddr_none
    else if not (first n.1 == dot)
    then (if (n.0 / 2 ^ 24 == 0) || leb 224 (n.0 / 2 ^ 24) then inaddr_none else swap32 n.0)
    else if not (is_digit (first (behind_first n.1)))
    then inaddr_none
    else if (n.0 == 0) || leb 224 n.0
    then inaddr_none
    else second_part n.0 (behind_first n.1)

-- One of the four numbers.
pub octet : ℕ → List ℕ
octet a =
    if leb 100 a
    then (48 + a / 100) ∷ (48 + a / 10 % 10) ∷ (48 + a % 10) ∷ []
    else if leb 10 a
    then (48 + a / 10) ∷ (48 + a % 10) ∷ []
    else (48 + a) ∷ []

pub ip2str : ℕ → List ℕ
ip2str ip =
    octet (ip % 256)
    ++ (dot ∷ octet (ip / 2 ^ 8 % 256))
    ++ (dot ∷ octet (ip / 2 ^ 16 % 256))
    ++ (dot ∷ octet (ip / 2 ^ 24 % 256))

-- The value of a hex digit: `0x20 | c` is a digit or a letter up to `f`. A `char` is signed.
pub nibble : ℕ → Option ℕ
nibble c =
    let s = bit_or 0x20 c in
    if is_digit s then some (s - 48) else if leb 97 s && leb s 102 then some (s - 87) else none

-- The bytes that are written to `bin`; their number is the result.
pub decode_hex : ℕ → List ℕ → List ℕ
decode_hex zero s = []
decode_hex (suc n) [] = []
decode_hex (suc n) (c ∷ []) = []
decode_hex (suc n) (c ∷ d ∷ s) = elim (nibble c) [
  | none ↦ []
  | some hi ↦
      let rest = decode_hex n s in
      elim (nibble d) [ none ↦ [] | some lo ↦ (hi * 16 + lo) % 256 ∷ rest ]
]

-- "0123456789abcdef"[n]
pub hex_digit : ℕ → ℕ
hex_digit n = if ltb n 10 then 48 + n else 87 + n

pub encode_hex : List ℕ → List ℕ
encode_hex [] = []
encode_hex (b ∷ bs) = hex_digit (b / 16) ∷ hex_digit (b % 16) ∷ encode_hex bs
