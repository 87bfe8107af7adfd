-- ===== src/Address/RoundTrip.antt =====
-- Printing and reading in lib/util_ip.c and lib/util_hex.c.
use pfs.Common.{
  ℕ, zero, suc, ◌+◌, ◌-◌, ◌*◌, ◌/◌, ◌%◌, ◌^◌, ◌≤◌, ◌<◌, ◌≡◌, refl, sym, ap, ◌∙◌, true, false, none,
  some, List, [], ◌∷◌, ◌++◌, leb, ◌==◌, length, arith, inl, inr, ◌⊎◌, Bool-cases, append_assoc,
  append-nil, min, leb→le, leb→lt,
}
use pfs.LocalFile.{is_digit}
use pfs.Address.{
  digit_value, digits, first, strtoul, dot, fourth_part, third_part, second_part, str2ip, octet,
  ip2str, nibble, decode_hex, hex_digit, encode_hex,
}

nibble-hex_digit : (n : ℕ) → n < 16 → nibble (hex_digit n) ≡ some n
unfolding nibble hex_digit
nibble-hex_digit zero h = refl
nibble-hex_digit (suc zero) h = refl
nibble-hex_digit (suc (suc zero)) h = refl
nibble-hex_digit (suc (suc (suc zero))) h = refl
nibble-hex_digit (suc (suc (suc (suc zero)))) h = refl
nibble-hex_digit (suc (suc (suc (suc (suc zero))))) h = refl
nibble-hex_digit (suc (suc (suc (suc (suc (suc zero)))))) h = refl
nibble-hex_digit (suc (suc (suc (suc (suc (suc (suc zero))))))) h = refl
nibble-hex_digit (suc (suc (suc (suc (suc (suc (suc (suc zero)))))))) h = refl
nibble-hex_digit (suc (suc (suc (suc (suc (suc (suc (suc (suc zero))))))))) h = refl
nibble-hex_digit (suc (suc (suc (suc (suc (suc (suc (suc (suc (suc zero)))))))))) h = refl
nibble-hex_digit (suc (suc (suc (suc (suc (suc (suc (suc (suc (suc (suc zero))))))))))) h = refl
nibble-hex_digit (suc (suc (suc (suc (suc (suc (suc (suc (suc (suc (suc (suc zero)))))))))))) h =
    refl
nibble-hex_digit (suc (suc (suc (suc (suc (suc (suc (suc (suc (suc (suc (suc (suc zero)))))))))))))
      h =
    refl
nibble-hex_digit
      (suc (suc (suc (suc (suc (suc (suc (suc (suc (suc (suc (suc (suc (suc zero)))))))))))))) h =
    refl
nibble-hex_digit
      (suc (suc (suc (suc (suc (suc (suc (suc (suc (suc (suc (suc (suc (suc (suc zero)))))))))))))))
      h =
    refl
nibble-hex_digit
      (suc
        (suc (suc (suc (suc (suc (suc (suc (suc (suc (suc (suc (suc (suc (suc (suc n))))))))))))))))
      h =
    absurd (omega (arith, h))

decode_step :
    (b : ℕ) (bs : List ℕ) (n : ℕ)
    → decode_hex (suc n) (encode_hex (b ∷ bs)) ≡ (elim (nibble (hex_digit (b / 16))) [
      | none ↦ []
      | some hi ↦ elim (nibble (hex_digit (b % 16))) [
        | none ↦ []
        | some lo ↦ (hi * 16 + lo) % 256 ∷ decode_hex n (encode_hex bs)
      ]
    ])
unfolding decode_hex encode_hex
decode_step b bs n = refl

-- Each of the numbers is a byte.
abbrev pub AllBytes : List ℕ → Type 0
AllBytes [] = Unit {0}
AllBytes (b ∷ bs) = (b < 256) × AllBytes bs

-- What `encode_hex` writes for some bytes, `decode_hex` reads back, into any room for them.
pub decode_hex-encode_hex :
    (bs : List ℕ) (n : ℕ) → AllBytes bs → length bs ≤ n → decode_hex n (encode_hex bs) ≡ bs
unfolding decode_hex encode_hex
decode_hex-encode_hex [] zero a h = refl
decode_hex-encode_hex [] (suc n) a h = refl
decode_hex-encode_hex (b ∷ bs) zero a h = absurd (omega (arith, h))
decode_hex-encode_hex (b ∷ bs) (suc n) a h =
    rw
      (
        decode_step b bs n,
        nibble-hex_digit (b / 16) (omega (arith, a.0)),
        nibble-hex_digit (b % 16) (omega arith),
        decode_hex-encode_hex bs n a.1 (omega (arith, h)),
      )
      (ap (λ t. t ∷ bs) (omega (arith, a.0)))

digits-digit :
    (acc d : ℕ) (cs : List ℕ) → d < 10 → digits 10 acc ((48 + d) ∷ cs) ≡ digits 10 (acc * 10 + d) cs
unfolding digits digit_value
digits-digit acc d cs h = ground arith

-- The end of a number.
abbrev Stop : List ℕ → Type 0
Stop s = (s ≡ []) ⊎ ((r : List ℕ) × (s ≡ dot ∷ r))

digits-Stop : (base acc : ℕ) (s : List ℕ) → base ≤ 10 → Stop s → digits base acc s ≡ (acc, s)
unfolding digits digit_value
digits-Stop base acc s h (inl e) = rw e refl
digits-Stop base acc s h (inr (r, e)) = rw e (ground arith)

octet_three :
    (a : ℕ) → leb 100 a ≡ true → octet a ≡ (48 + a / 100) ∷ (48 + a / 10 % 10) ∷ (48 + a % 10) ∷ []
unfolding octet
octet_three a y = rw y refl

octet_two :
    (a : ℕ) → leb 100 a ≡ false → leb 10 a ≡ true → octet a ≡ (48 + a / 10) ∷ (48 + a % 10) ∷ []
unfolding octet
octet_two a z y = rw (z, y) refl

octet_one : (a : ℕ) → leb 100 a ≡ false → leb 10 a ≡ false → octet a ≡ (48 + a) ∷ []
unfolding octet
octet_one a z y = rw (z, y) refl

digits-octet : (a : ℕ) (s : List ℕ) → a < 256 → Stop s → (digits 10 0 (octet a ++ s) ≡ (a, s))
digits-octet a s h st = elim (Bool-cases (leb 100 a)) [
  | inl y ↦ rw (octet_three a y) (
      digits-digit 0 (a / 100) _ (omega (arith, h))
      ∙ digits-digit _ (a / 10 % 10) _ (omega arith)
      ∙ digits-digit _ (a % 10) s (omega arith)
      ∙ digits-Stop 10 _ s (omega arith) st
      ∙ ap (λ (n : ℕ). (n, s)) (omega arith))
  | inr z ↦ elim (Bool-cases (leb 10 a)) [
    | inl y ↦ rw (octet_two a z y) (
        digits-digit 0 (a / 10) _ (omega (arith, leb→lt 100 a z))
        ∙ digits-digit _ (a % 10) s (omega arith)
        ∙ digits-Stop 10 _ s (omega arith) st
        ∙ ap (λ (n : ℕ). (n, s)) (omega arith))
    | inr w ↦ rw (octet_one a z w) (
        digits-digit 0 a s (omega (arith, leb→lt 10 a w))
        ∙ digits-Stop 10 _ s (omega arith) st
        ∙ ap (λ (n : ℕ). (n, s)) (omega arith))
  ]
]

strtoul_dec :
    (s : List ℕ)
    → (first s == 48) ≡ false
    → strtoul s ≡ (min (digits 10 0 s).0 (2 ^ 64 - 1) % 2 ^ 32, (digits 10 0 s).1)
unfolding strtoul
strtoul_dec s h = rw h refl

strtoul_zero : (s : List ℕ) → Stop s → strtoul (48 ∷ s) ≡ (0, s)
unfolding strtoul digits digit_value
strtoul_zero s (inl e) = rw e refl
strtoul_zero s (inr (r, e)) = rw e refl

first-octet : (a : ℕ) (s : List ℕ) → 0 < a → (first (octet a ++ s) == 48) ≡ false
first-octet a s h = elim (Bool-cases (leb 100 a)) [
  | inl y ↦
      rw (octet_three a y)
        (let l = leb→le 100 a y in let q : 0 < a / 100 = omega (arith, l) in ground arith)
  | inr z ↦ elim (Bool-cases (leb 10 a)) [
    | inl y ↦
        rw (octet_two a z y)
          (let l = leb→le 10 a y in let q : 0 < a / 10 = omega (arith, l) in ground arith)
    | inr w ↦ rw (octet_one a z w) (ground arith)
  ]
]

first_digit-octet : (a : ℕ) (s : List ℕ) → a < 256 → is_digit (first (octet a ++ s)) ≡ true
first_digit-octet a s h = elim (Bool-cases (leb 100 a)) [
  | inl y ↦ rw (octet_three a y) (let q : a / 100 ≤ 9 = omega (arith, h) in ground arith)
  | inr z ↦ elim (Bool-cases (leb 10 a)) [
    | inl y ↦
        rw (octet_two a z y)
          (let l = leb→lt 100 a z in let q : a / 10 ≤ 9 = omega (arith, l) in ground arith)
    | inr w ↦ rw (octet_one a z w) (let l = leb→lt 10 a w in ground arith)
  ]
]

strtoul-octet : (a : ℕ) (s : List ℕ) → a < 256 → Stop s → strtoul (octet a ++ s) ≡ (a, s)
strtoul-octet zero s h st = rw (octet_one 0 refl refl) (strtoul_zero s st)
strtoul-octet (suc a) s h st =
    strtoul_dec (octet (suc a) ++ s) (first-octet (suc a) s (omega arith))
    ∙ rw (digits-octet (suc a) s h st) (ap (λ (n : ℕ). (n, s)) (omega (arith, h)))

dots : (s : List ℕ) → Stop (dot ∷ s)
dots s = inr (s, refl)

fourth-octet : (addr d : ℕ) → d < 256 → fourth_part addr (octet d) ≡ (addr + d * 2 ^ 24) % 2 ^ 32
unfolding fourth_part
fourth-octet addr d h =
    let e : strtoul (octet d) ≡ (d, []) =
      ap strtoul (sym (append-nil (octet d))) ∙ strtoul-octet d [] h (inl refl) in
    rw e (rw (le_false d h) refl)
  where
    le_false : (x : ℕ) → x < 256 → leb 256 x ≡ false
    le_false x k = ground arith

first_digit-last : (d : ℕ) → d < 256 → is_digit (first (octet d)) ≡ true
first_digit-last d h =
    ap (λ s. is_digit (first s)) (sym (append-nil (octet d))) ∙ first_digit-octet d [] h

small_false : (x n : ℕ) → x < n → leb n x ≡ false
small_false x n k = ground arith

third-octets :
    (addr c d : ℕ)
    → c < 256
    → d < 256
    → third_part addr (octet c ++ (dot ∷ octet d))
      ≡ ((addr + c * 2 ^ 16) % 2 ^ 32 + d * 2 ^ 24) % 2 ^ 32
unfolding third_part
third-octets addr c d h k =
    rw (strtoul-octet c (dot ∷ octet d) h (dots (octet d)), first_digit-last d k)
      (fourth-octet ((addr + c * 2 ^ 16) % 2 ^ 32) d k)

second-octets :
    (addr b c d : ℕ)
    → b < 256
    → c < 256
    → d < 256
    → second_part addr (octet b ++ (dot ∷ (octet c ++ (dot ∷ octet d))))
      ≡ (((addr + b * 2 ^ 8) % 2 ^ 32 + c * 2 ^ 16) % 2 ^ 32 + d * 2 ^ 24) % 2 ^ 32
unfolding second_part
second-octets addr b c d h k l =
    rw
      (
        strtoul-octet b (dot ∷ (octet c ++ (dot ∷ octet d))) h (dots (octet c ++ (dot ∷ octet d))),
        first_digit-octet c (dot ∷ octet d) k,
        small_false b 256 h,
      )
      (third-octets ((addr + b * 2 ^ 8) % 2 ^ 32) c d k l)

four-octets :
    (a b c d : ℕ)
    → 0 < a
    → a < 224
    → b < 256
    → c < 256
    → d < 256
    → str2ip (octet a ++ (dot ∷ (octet b ++ (dot ∷ (octet c ++ (dot ∷ octet d))))))
      ≡ (((a + b * 2 ^ 8) % 2 ^ 32 + c * 2 ^ 16) % 2 ^ 32 + d * 2 ^ 24) % 2 ^ 32
unfolding str2ip
four-octets a b c d pos small h k l =
    let rest = octet b ++ (dot ∷ (octet c ++ (dot ∷ octet d))) in
    let zero_false : (a == 0) ≡ false = ground arith in
    rw
      (
        strtoul-octet a (dot ∷ rest) (omega (arith, small)) (dots rest),
        first_digit-octet a (dot ∷ rest) (omega (arith, small)),
        first_digit-octet b (dot ∷ (octet c ++ (dot ∷ octet d))) h,
        zero_false,
        small_false a 224 small,
      )
      (second-octets a b c d h k l)

-- An address whose first number is from 1 to 223 is read back from its text.
pub str2ip-ip2str : (ip : ℕ) → ip < 2 ^ 32 → 0 < ip % 256 → ip % 256 < 224 → str2ip (ip2str ip) ≡ ip
unfolding ip2str
str2ip-ip2str ip h pos small =
    let a = ip % 256 in
    let b = ip / 2 ^ 8 % 256 in
    let c = ip / 2 ^ 16 % 256 in
    let d = ip / 2 ^ 24 % 256 in
    ap str2ip (
      append_assoc (octet a ++ (dot ∷ octet b)) (dot ∷ octet c) (dot ∷ octet d)
      ∙ append_assoc (octet a) (dot ∷ octet b) ((dot ∷ octet c) ++ (dot ∷ octet d)))
    ∙ four-octets a b c d pos small (omega arith) (omega arith) (omega arith)
    ∙ omega (arith, h)
