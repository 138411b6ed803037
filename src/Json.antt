-- ===== src/Json.antt =====
-- JSON values as Python holds them after `json.loads` (`Data`), and the text of `json.dumps` (`Dumps`).
mod Data
mod Dumps
unfoldable pub use Data.*
unfoldable pub use Dumps.*
