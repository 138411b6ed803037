-- ===== src/Crypto/RoundTrip.antt =====
-- `decode_base64url` of protocol_crypto.py against base64url without padding, as RFC 4648 has it: what
-- a worker sends for its key and its signatures.
use open_mesh_ai.Prelude.{
  ℕ, ◌+◌, ◌-◌, ◌*◌, ◌/◌, ◌%◌, ◌<◌, ◌≡◌, ◌≢◌, refl, true, Option, none, some, List, [], ◌∷◌, map,
  ltb, ◌==◌, if◌then◌else◌, length, All, arith, ◌∙◌,
}
use open_mesh_ai.Crypto.Base64.{bytes, of_length, sextet, sextets, decode_sextets, decode_base64url}

-- `A-Z`, `a-z`, `0-9`, `-` and `_`.
unfoldable pub character : ℕ → ℕ
character v =
    if ltb v 26
    then v + b'A'
    else if ltb v 52
    then v - 26 + b'a'
    else if ltb v 62
    then v - 52 + b'0'
    else if v == 62
    then b'-'
    else b'_'

-- Three bytes are four sextets; one and two at the end are two and three.
unfoldable pub to_sextets : List ℕ → List ℕ
to_sextets [] = []
to_sextets (x ∷ []) = x / 4 ∷ (x % 4 * 16) ∷ []
to_sextets (x ∷ y ∷ []) = x / 4 ∷ (x % 4 * 16 + y / 16) ∷ (y % 16 * 4) ∷ []
to_sextets (x ∷ y ∷ z ∷ rest) =
    x / 4 ∷ (x % 4 * 16 + y / 16) ∷ (y % 16 * 4 + z / 64) ∷ z % 64 ∷ to_sextets rest

unfoldable pub encode_base64url : List ℕ → List ℕ
encode_base64url bs = map character (to_sextets bs)

abbrev pub AreBelow : ℕ → List ℕ → Type 0
AreBelow n = All (λ (b : ℕ). b < n)

sextet-character : (v : ℕ) → v < 64 → sextet (character v) ≡ some v
unfolding sextet character
sextet-character v h = ground arith

sextets-map : (vs : List ℕ) → AreBelow 64 vs → sextets (map character vs) ≡ some vs
unfolding sextets
sextets-map [] h = refl
sextets-map (v ∷ vs) h = rw (sextet-character v h.0, sextets-map vs h.1)

to_sextets-AreBelow : (bs : List ℕ) → AreBelow 256 bs → AreBelow 64 (to_sextets bs)
unfolding to_sextets
to_sextets-AreBelow [] h = tt
to_sextets-AreBelow (x ∷ []) h = (omega (arith, h.0), (omega arith, tt))
to_sextets-AreBelow (x ∷ y ∷ []) h = (omega (arith, h.0), (omega (arith, h.1.0), (omega arith, tt)))
to_sextets-AreBelow (x ∷ y ∷ z ∷ rest) h = (
  omega (arith, h.0),
  (omega (arith, h.1.0), (omega (arith, h.1.1.0), (omega arith, to_sextets-AreBelow rest h.1.1.1))),
)

-- The first byte of two, the middle one of three, and the last of three, out of their sextets.
first_byte : (x y : ℕ) → y < 256 → x / 4 * 4 + (x % 4 * 16 + y / 16) / 16 ≡ x
first_byte x y h = omega arith

middle_byte :
    (x y z : ℕ)
    → y < 256
    → z < 256
    → (x % 4 * 16 + y / 16) % 16 * 16 + (y % 16 * 4 + z / 64) / 4 ≡ y
middle_byte x y z h k = omega arith

last_byte : (y z : ℕ) → z < 256 → (y % 16 * 4 + z / 64) % 4 * 64 + z % 64 ≡ z
last_byte y z h = omega arith

single_byte : (x : ℕ) → x / 4 * 4 + x % 4 * 16 / 16 ≡ x
single_byte x = omega arith

last_of_two : (x y : ℕ) → y < 256 → (x % 4 * 16 + y / 16) % 16 * 16 + y % 16 * 4 / 4 ≡ y
last_of_two x y h = omega arith

decode-to_sextets : (bs : List ℕ) → AreBelow 256 bs → decode_sextets (to_sextets bs) ≡ some bs
unfolding decode_sextets to_sextets
decode-to_sextets [] h = refl
decode-to_sextets (x ∷ []) h = rw (single_byte x)
decode-to_sextets (x ∷ y ∷ []) h = rw (first_byte x y h.1.0, last_of_two x y h.1.0)
decode-to_sextets (x ∷ y ∷ z ∷ rest) h = rw (
  decode-to_sextets rest h.1.1.1,
  first_byte x y h.1.0,
  middle_byte x y z h.1.0 h.1.1.0,
  last_byte y z h.1.1.0,
)

decoded_lem :
    (cs : List ℕ) (expected_len : Option ℕ) (vs bs : List ℕ)
    → cs ≢ []
    → sextets cs ≡ some vs
    → decode_sextets vs ≡ some bs
    → decode_base64url cs expected_len ≡ of_length expected_len bs
unfolding decode_base64url
decoded_lem [] expected_len vs bs some_chars read decoded = absurd (some_chars refl)
decoded_lem (c ∷ cs) expected_len vs bs some_chars read decoded = rw (read, decoded)

some_characters : (bs : List ℕ) → bs ≢ [] → encode_base64url bs ≢ []
unfolding encode_base64url to_sextets
some_characters [] h e = absurd (h refl)
some_characters (x ∷ []) h e = cc
some_characters (x ∷ y ∷ []) h e = cc
some_characters (x ∷ y ∷ z ∷ rest) h e = cc

-- What base64url makes of one or more bytes is decoded to these bytes, with their length as the
-- expected one, or without any.
pub decode-encode_base64url :
    (bs : List ℕ)
    → bs ≢ []
    → AreBelow 256 bs
    → (decode_base64url (encode_base64url bs) none ≡ bytes bs)
      × (decode_base64url (encode_base64url bs) (some (length bs)) ≡ bytes bs)
unfolding encode_base64url
decode-encode_base64url bs h below =
    let read = sextets-map (to_sextets bs) (to_sextets-AreBelow bs below) in
    let decoded = decode-to_sextets bs below in
    let chars = some_characters bs h in
    (
      decoded_lem (encode_base64url bs) none (to_sextets bs) bs chars read decoded,
      decoded_lem (encode_base64url bs) (some (length bs)) (to_sextets bs) bs chars read decoded
          ∙ rw same_length,
    )
  where
    same_length : (length bs == length bs) ≡ true
    same_length = ground arith
