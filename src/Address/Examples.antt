-- ===== src/Address/Examples.antt =====
-- An address and some bytes as text.
use pfs.Common.{◌≡◌, [], ◌∷◌, arith}
use pfs.Address.{str2ip, ip2str, decode_hex, encode_hex}
use pfs.Address.RoundTrip.{str2ip-ip2str, decode_hex-encode_hex}

-- 10.0.200.7
str2ip-ip2str_example : str2ip (ip2str 130547722) ≡ 130547722
str2ip-ip2str_example = str2ip-ip2str 130547722 (omega arith) (omega arith) (omega arith)

decode_hex-encode_hex_example : decode_hex 4 (encode_hex (0 ∷ 171 ∷ 255 ∷ [])) ≡ 0 ∷ 171 ∷ 255 ∷ []
decode_hex-encode_hex_example =
    decode_hex-encode_hex (0 ∷ 171 ∷ 255 ∷ []) 4 (omega arith, (omega arith, (omega arith, tt)))
      (omega arith)
