-- ===== src/Api.antt =====
-- pool-coordinator/app/api: the requests of workers and clients.
pub mod Reply
pub mod Users
pub mod Jobs
pub mod Submit
pub mod Accepted
pub mod Once
pub mod Books
pub mod Polled
pub mod Peers
pub mod Federated
pub mod Me
pub mod Pages
pub mod Workers
pub mod Registered
pub mod Auth
pub mod LoggedIn
pub mod Tokens
pub mod Sessions
pub mod Keys
pub mod Validated
pub mod Tests
pub mod PoolTests
pub mod SessionTests
