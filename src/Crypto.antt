-- ===== src/Crypto.antt =====
-- pool-coordinator/app/core/protocol_crypto.py: canonical JSON, base64url, and the check of a worker's
-- signature.
pub mod Canonical
pub mod Base64
pub mod Signature
pub mod RoundTrip
pub mod Tests
