-- ===== src/Crypto/Tests.antt =====
-- The theorem on protocol_crypto.py at five bytes.
use open_mesh_ai.Prelude.{ℕ, ◌≡◌, refl, none, some, List, codes, arith}
use open_mesh_ai.Crypto.Base64.{bytes, decode_base64url}
use open_mesh_ai.Crypto.RoundTrip.{
  character, to_sextets, encode_base64url, AreBelow, decode-encode_base64url,
}

abbrev hello : List ℕ
hello = codes "hello"

hello_text : encode_base64url hello ≡ codes "aGVsbG8"
unfolding encode_base64url to_sextets character
hello_text = refl

hello-AreBelow : AreBelow 256 hello
hello-AreBelow = (omega arith, (omega arith, (omega arith, (omega arith, (omega arith, tt)))))

decode-encode_base64url_example :
    (decode_base64url (encode_base64url hello) none ≡ bytes hello)
    × (decode_base64url (encode_base64url hello) (some 5) ≡ bytes hello)
decode-encode_base64url_example = decode-encode_base64url hello (λ e. cc) hello-AreBelow
