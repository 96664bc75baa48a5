-- ===== src/Lib.antt =====
-- locals3 is a local S3 server that keeps objects as plain files. Package internal/store is the
-- backend: a bucket is a directory, a key is a file below it, and metadata lies in sidecar files
-- under `.locals3`. Package internal/s3api is the HTTP layer over it: it reads headers and bodies,
-- calls the store, and turns the store's errors into S3 answers. The root package joins the two in a
-- server, and cmd/locals3 starts one from its flags.
--
-- The parts, and the files that model them:
--
-- - Base: what all modules share. Bytes are lists of native numbers; Base/Text has the functions of
--   package strings that the source uses, Base/Int `strconv.ParseInt`, Base/Outcome results.
-- - Store/Error, Store/Info: internal/store/store.go. Env holds what one operation gets from outside:
--   the root, the clock, the name of the temporary file, and MD5, JSON, MIME and content sniffing.
-- - Store/Utf8, Store/Key, Store/Path: internal/store/keypath.go. validate_bucket_name,
--   validate_key, is_dir_marker, key_to_path, path_to_key, within_dir are the functions of these
--   names; Path has filepath.Clean, Join and Rel on Unix.
-- - Store/Fs: the file system as a tree of files and directories, with stat, mkdir_all, remove,
--   remove_all, write_file, rename, read_file and read_dir as Unix answers them. A path is its list
--   of segments below the root.
-- - Store/Monad: an operation takes the tree and gives a result and the tree behind it. A failing
--   operation keeps the changes that it made before it failed.
-- - Store/Meta: internal/store/meta.go. Store/Bucket and Store/Object: internal/store/fs.go.
--   Store/Copy: internal/store/copy.go. Below Store/Object, Put and Frame are about what a put leaves
--   alone, Stored and PutGet about what it stores and the reads after it, Deleted about a deletion.
-- - Store/Contract: the interfaces Store (internal/store/store.go) and multipartStore
--   (internal/s3api/multipart.go) as records of operations on any state; fs_store is FSStore.
-- - Store/Listing, Store/Token: internal/store/list.go, with the base64 of the tokens.
-- - Store/Multipart: internal/store/multipart.go, with the completion of an upload in
--   Store/Multipart/Complete; Layout, Joined and ReadBack are about what a completion leaves.
-- - Store/Open: NewFS of internal/store/fs.go.
-- - Store/Lock: internal/store/lock.go, as a relation of steps between any number of goroutines that
--   ask for one name.
-- - Api/Error: internal/s3api/errors.go. Api/Range and Api/Condition: internal/s3api/rangehdr.go.
--   Api/Presign: internal/s3api/sigv4.go. Api/Chunked and Api/Body: internal/s3api/chunked.go.
--   Api/Checksum: internal/s3api/checksum.go. Api/Xml: internal/s3api/xml.go, as the values that are
--   printed and parsed. Api/Packages: what is called of packages outside the repository.
-- - Api/Request, Api/Response: what the handlers read and what they answer: a status, the headers in
--   the order in which they are set, and a body. Api/Server: Handler of internal/s3api/router.go. A
--   handler takes a state of the store and gives an answer and the next state.
-- - Api/Object: putObject, getObject and deleteObject of internal/s3api/object.go. Api/Copy and
--   Api/CopySource: internal/s3api/copy.go. Api/Delete: internal/s3api/delete.go. Api/List:
--   internal/s3api/list.go. Api/Multipart: internal/s3api/multipart.go. Api/Bucket:
--   internal/s3api/bucket.go. Api/Route, Api/Router: internal/s3api/router.go, and serveObject.
--   Api/Status is its statusWriter, and Api/Serve its Config, New, and the whole of ServeHTTP, with the
--   delay, the draw for failures, and the log.
-- - Server: server.go, from the options to a server over an opened store. Server/Testing:
--   testserver.go. Server/Command: cmd/locals3/main.go. Server/ReadBack follows an object from the
--   options of a server through a PUT to the GET requests behind it, and Server/Traffic does so as
--   ServeHTTP routes them.
--
-- JSON is taken to read back what it documents to keep (Store/Json): valid UTF-8 and maps by their
-- sorted keys; digests are printed in ASCII.
--
-- Bounds and fuel: int64 overflow is written out where the source can meet it (ParseInt, the lifetime
-- of a presigned request). read_all takes one round more than the stream has bytes, read_trailers one
-- more than there are bytes left, follow one page more than there are entries, prune_empty_dirs one
-- round for each directory of the path; every round of these loops consumes at least one of them.
--
-- Given from outside, as parameters: MD5 and the other digests, base64, JSON, XML, MIME types and
-- content sniffing, the clock, random names and ids, the parsing and printing of dates, the escaping
-- of URLs, the canonical form of header names, the order in which a map of headers is visited, what
-- net/http sends of a handler's calls, the parsing of flags, the listener and the signals.
--
-- Not modelled: Sync, Close and Chmod, which are taken to succeed; the texts of error messages; access
-- rights and links; TrimSpace beyond ASCII; errors of an underlying stream other than its end; what a
-- log line says of the query and the duration; what is printed for people at the start;
-- internal/testutil, which calls the AWS SDK and has no logic of its own. Operations of the store are
-- single steps on the tree. The key's lock, which Store/Lock is about, makes those of one object so;
-- UploadPart, ListParts, ListObjects and the operations on buckets take no lock, and that they are
-- single steps is an assumption.
pub mod Base
pub mod Store
pub mod Api
pub mod Server
