-- ===== src/Base64/Tests.antt =====
-- Runs of the base64 routines, and the theorems at inputs.
use libnavajo.Base.{◌≡◌, refl, codes, arith, find_byte}
use libnavajo.Base64.{base64_encode, base64_decode}
use libnavajo.Base64.RoundTrip.{base64_decode-base64_encode}

encode_login : base64_encode (codes "admin:pw") ≡ codes "YWRtaW46cHc="
unfolding base64_encode
encode_login = refl

decode_login : base64_decode (codes "YWRtaW46cHc=") ≡ codes "admin:pw"
unfolding base64_decode find_byte
decode_login = refl

base64_decode-base64_encode_example :
    base64_decode (base64_encode (codes "admin:pw")) ≡ codes "admin:pw"
base64_decode-base64_encode_example = base64_decode-base64_encode (codes "admin:pw") (omega arith)
