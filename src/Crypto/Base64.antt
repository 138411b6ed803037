-- ===== src/Crypto/Base64.antt =====
-- `decode_base64url` of protocol_crypto.py, with the decoding of four characters into three bytes
-- that `base64.urlsafe_b64decode` does.
use open_mesh_ai.Prelude.{
  ℕ, ◌+◌, ◌-◌, ◌*◌, ◌/◌, ◌%◌, ◌≡◌, refl, ◌&&◌, Option, none, some, List, [], ◌∷◌, leb, ◌==◌,
  if◌then◌else◌, codes, length, ◌>>=◌,
}

-- `ProtocolCryptoError`: `Invalid … encoding`, `Invalid … length`.
pub data Decoded : Type 0 where
  bytes : List ℕ → Decoded
  bad_encoding bad_length : Decoded

-- The value of a character of the alphabet `A-Za-z0-9_-`; another one is refused.
unfoldable pub sextet : ℕ → Option ℕ
sextet c =
    if leb b'A' c && leb c b'Z'
    then some (c - b'A')
    else if leb b'a' c && leb c b'z'
    then some (c - b'a' + 26)
    else if leb b'0' c && leb c b'9'
    then some (c - b'0' + 52)
    else if c == b'-'
    then some 62
    else if c == b'_'
    then some 63
    else none

-- The regular expression takes the alphabet alone.
unfoldable pub sextets : List ℕ → Option (List ℕ)
sextets [] = some []
sextets (c ∷ s) = do v ← sextet c; vs ← sextets s; some (v ∷ vs)

-- Four characters are three bytes; two and three at the end are one and two, and drop the bits that
-- are left. The padding completes the last four; no padding completes a single one.
unfoldable pub decode_sextets : List ℕ → Option (List ℕ)
decode_sextets [] = some []
decode_sextets (a ∷ []) = none
decode_sextets (a ∷ b ∷ []) = some ((a * 4 + b / 16) ∷ [])
decode_sextets (a ∷ b ∷ c ∷ []) = some ((a * 4 + b / 16) ∷ (b % 16 * 16 + c / 4) ∷ [])
decode_sextets (a ∷ b ∷ c ∷ d ∷ rest) = do
  tail ← decode_sextets rest
  some ((a * 4 + b / 16) ∷ (b % 16 * 16 + c / 4) ∷ (c % 4 * 64 + d) ∷ tail)

abbrev pub of_length : Option ℕ → List ℕ → Decoded
of_length none bs = bytes bs
of_length (some n) bs = if length bs == n then bytes bs else bad_length

abbrev pub decoded_or : Option ℕ → Option (List ℕ) → Decoded
decoded_or expected_len none = bad_encoding
decoded_or expected_len (some bs) = of_length expected_len bs

unfoldable pub decode_base64url : List ℕ → Option ℕ → Decoded
decode_base64url [] expected_len = bad_encoding
decode_base64url (c ∷ s) expected_len = decoded_or expected_len (sextets (c ∷ s) >>= decode_sextets)

hello : decode_base64url (codes "aGVsbG8") (some 5) ≡ bytes (codes "hello")
unfolding decode_base64url sextets sextet decode_sextets
hello = refl
