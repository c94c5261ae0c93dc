-- ===== src/Imap.antt =====
-- internal/imapx/client.go: the IMAP client, over the calls of go-imap.
pub mod Wire
pub mod Criteria
pub mod Client
pub mod Fetch
pub mod Search
pub mod Append
pub mod Actions
pub mod Link
pub mod Laws
pub mod Listing
pub mod Pass
