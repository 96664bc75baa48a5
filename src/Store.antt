-- ===== src/Store.antt =====
-- Package store (internal/store): what the backend does below the wire layer.
pub mod Error
pub mod Utf8
pub mod Key
pub mod Path
pub mod Fs
pub mod Info
pub mod Json
pub mod Monad
pub mod Meta
pub mod Bucket
pub mod Object
pub mod Open
pub mod Copy
pub mod Token
pub mod Listing
pub mod Contract
pub mod Multipart
pub mod Lock
pub mod Tests
