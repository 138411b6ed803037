-- ===== src/Crypto/Signature.antt =====
-- `verify_ed25519_signature` of protocol_crypto.py. The signature scheme is the `cryptography`
-- package's: `ed25519 key signature message`, over bytes.
use open_mesh_ai.Prelude.{ℕ, Bool, some, List, String, codes}
use open_mesh_ai.Crypto.Base64.{bytes, bad_encoding, bad_length, decode_base64url}

pub data CryptoError : Type 0 where
  public_key_encoding public_key_length signature_encoding signature_length : CryptoError

pub data Verdict : Type 0 where
  malformed : CryptoError → Verdict
  checked : Bool → Verdict

unfoldable pub verify_ed25519_signature :
    (List ℕ → List ℕ → List ℕ → Bool) → String → String → List ℕ → Verdict
verify_ed25519_signature ed25519 public_key_b64url signature_b64url message =
    elim (decode_base64url (codes public_key_b64url) (some 32)) [
      | bad_encoding ↦ malformed public_key_encoding
      | bad_length ↦ malformed public_key_length
      | bytes key ↦ elim (decode_base64url (codes signature_b64url) (some 64)) [
        | bad_encoding ↦ malformed signature_encoding
        | bad_length ↦ malformed signature_length
        | bytes signature ↦ checked (ed25519 key signature message)
      ]
    ]
