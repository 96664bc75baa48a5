-- ===== src/Api.antt =====
-- Package s3api (internal/s3api): the S3 wire protocol over the store.
pub mod Error
pub mod Request
pub mod Range
pub mod Presign
pub mod CopySource
pub mod Condition
pub mod Chunked
pub mod Route
pub mod Xml
pub mod Packages
pub mod Response
pub mod Body
pub mod Checksum
pub mod Server
pub mod Status
pub mod Object
pub mod Copy
pub mod List
pub mod Delete
pub mod Multipart
pub mod Bucket
pub mod Router
pub mod Serve
pub mod Tests
