-- ===== src/Client.antt =====
-- client: the messages inside the blocks, their encryption, the keys of a user, and the scan for messages.
pub mod MessageFormat
pub mod Crypto
pub mod Keystore
pub mod Inbox
pub mod IdPow
pub mod Scrape
