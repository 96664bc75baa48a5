-- ===== src/Api/Xml.antt =====
-- The bodies of requests and responses (internal/s3api/xml.go, errors.go). The model has the values
-- that package encoding/xml prints and parses; the names of the elements, the namespace and the
-- messages of errors are not in it.
use locals.Base.{ℕ, Bool, List, Bytes, codes}
use locals.Store.Info.{BucketInfo}

-- `bucketEntry`, `listAllMyBucketsResult`
pub record BucketsResult : Type 0 where
  pub owner : Bytes
  pub buckets : List BucketInfo

-- `objectEntry`
pub record ObjectEntry : Type 0 where
  pub key : Bytes
  pub last_modified : ℕ
  pub etag : Bytes
  pub size : ℕ
  pub storage_class : Bytes

-- `listBucketResult`. A field that is left out of the response is empty here.
pub record ListBucketResult : Type 0 where
  pub name : Bytes
  pub prefix : Bytes
  pub delimiter : Bytes
  pub max_keys : ℕ
  pub encoding_type : Bytes
  pub is_truncated : Bool
  pub contents : List ObjectEntry
  pub common_prefixes : List Bytes
  pub key_count : ℕ
  pub continuation_token : Bytes
  pub next_continuation_token : Bytes
  pub start_after : Bytes
  pub marker : Bytes
  pub next_marker : Bytes

-- `copyObjectResult`
pub record CopyObjectResult : Type 0 where
  pub last_modified : ℕ
  pub etag : Bytes

-- `deleteRequest`
pub record DeleteRequest : Type 0 where
  pub quiet : Bool
  pub keys : List Bytes

-- `deletedEntry`, `deleteErrorEntry` and `deleteResult`
pub record DeleteErrorEntry : Type 0 where
  pub key : Bytes
  pub code : Bytes

pub record DeleteResult : Type 0 where
  pub deleted : List Bytes
  pub errors : List DeleteErrorEntry

-- `initiateMultipartUploadResult`
pub record InitiateResult : Type 0 where
  pub bucket : Bytes
  pub key : Bytes
  pub upload_id : Bytes

-- `completeMultipartUploadResult`
pub record CompleteResult : Type 0 where
  pub location : Bytes
  pub bucket : Bytes
  pub key : Bytes
  pub etag : Bytes

-- `partEntry`
pub record PartEntry : Type 0 where
  pub part_number : ℕ
  pub last_modified : ℕ
  pub etag : Bytes
  pub size : ℕ

-- `listPartsResult`
pub record ListPartsResult : Type 0 where
  pub bucket : Bytes
  pub key : Bytes
  pub upload_id : Bytes
  pub storage_class : Bytes
  pub max_parts : ℕ
  pub is_truncated : Bool
  pub parts : List PartEntry
  pub owner : Bytes
  pub initiator : Bytes

-- `uploadEntry`
pub record UploadEntry : Type 0 where
  pub key : Bytes
  pub upload_id : Bytes
  pub initiated : ℕ

-- `listMultipartUploadsResult`
pub record UploadsResult : Type 0 where
  pub bucket : Bytes
  pub is_truncated : Bool
  pub uploads : List UploadEntry

-- `errorResponse`
pub record ErrorResponse : Type 0 where
  pub code : Bytes
  pub resource : Bytes
  pub bucket_name : Bytes
  pub key : Bytes
  pub request_id : Bytes

pub data Document : Type 0 where
  error_response : ErrorResponse → Document
  all_my_buckets : BucketsResult → Document
  location_constraint : Bytes → Document
  versioning_configuration : Document
  list_bucket : ListBucketResult → Document
  copy_result : CopyObjectResult → Document
  delete_result : DeleteResult → Document
  initiate_result : InitiateResult → Document
  complete_result : CompleteResult → Document
  list_parts_result : ListPartsResult → Document
  uploads_result : UploadsResult → Document

-- `defaultOwner`
abbrev pub default_owner : Bytes
default_owner = codes "locals3"

-- `storageClass`
abbrev pub storage_class_name : Bytes
storage_class_name = codes "STANDARD"
