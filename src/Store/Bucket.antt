-- ===== src/Store/Bucket.antt =====
-- Buckets (internal/store/fs.go): `CreateBucket`, `DeleteBucket`, `HeadBucket`, `ListBuckets` and
-- `bucketExists`. A bucket is a directory of the storage root.
use locals.Base.{
  Bool, true, false, ◌||◌, not, List, [], ◌∷◌, Bytes, if◌then◌else◌, beq, lt_text, ok, err,
}
use locals.Store.Error.{no_such_bucket, bucket_already_exists, bucket_not_empty}
use locals.Store.Key.{validate_bucket_name, meta_dir_name}
use locals.Store.Path.{bucket_path, segments}
use locals.Store.Fs.{
  Node, Entries, end, entry, is_directory, mod_time, stat_node, mkdir_all, remove, read_dir,
}
use locals.Store.Info.{Env, BucketInfo, seconds}
use locals.Store.Monad.{M, ◌>>=◌, ◌>>◌, return, fail, lift, ask, sys}
use locals.Store.Meta.{remove_bucket_meta}

abbrev pub bucket_dir : Env → Bytes → List Bytes
bucket_dir env bucket = segments (bucket_path env.root bucket)

-- Whether a path leads to a directory.
unfoldable pub is_dir_at : Node → List Bytes → Bool
unfolding is_directory
is_dir_at root p = elim (stat_node root p) [ ok fi ↦ is_directory fi | err e ↦ false ]

unfoldable pub bucket_exists : Env → Bytes → M (Unit {0})
bucket_exists env bucket = do
  lift (validate_bucket_name bucket)
  λ n. if is_dir_at n (bucket_dir env bucket) then (ok tt, n) else (err no_such_bucket, n)

unfoldable pub create_bucket : Env → Bytes → M (Unit {0})
create_bucket env bucket = do
  lift (validate_bucket_name bucket)
  λ n.
      if is_dir_at n (bucket_dir env bucket)
      then (err bucket_already_exists, n)
      else sys (λ m. mkdir_all env.now m (bucket_dir env bucket)) n

is_empty : Entries → Bool
is_empty end = true
is_empty (entry s n es) = false

unfoldable pub delete_bucket : Env → Bytes → M (Unit {0})
unfolding is_empty
delete_bucket env bucket = do
  bucket_exists env bucket
  entries ← ask (λ n. read_dir n (bucket_dir env bucket))
  (if is_empty entries then return tt else fail bucket_not_empty)
  sys (λ n. remove env.now n (bucket_dir env bucket))
  remove_bucket_meta env bucket

unfoldable pub head_bucket : Env → Bytes → M (Unit {0})
head_bucket env bucket = bucket_exists env bucket

-- The loop over the entries of the root.
collect_buckets : Entries → List BucketInfo
collect_buckets end = []
collect_buckets (entry name fi es) =
    let rest = collect_buckets es in
    let info : BucketInfo = record { name = name; creation_date = seconds (mod_time fi) } in
    if not (is_directory fi) || beq name meta_dir_name
    then rest
    else elim (validate_bucket_name name) [ ok u ↦ info ∷ rest | err e ↦ rest ]

insert_bucket : BucketInfo → List BucketInfo → List BucketInfo
insert_bucket b [] = b ∷ []
insert_bucket b (c ∷ cs) =
    let rest = insert_bucket b cs in if lt_text b.name c.name then b ∷ c ∷ cs else c ∷ rest

-- `sort.Slice` by name. The names in a directory differ, so there is one sorted order.
sort_buckets : List BucketInfo → List BucketInfo
unfolding insert_bucket
sort_buckets [] = []
sort_buckets (b ∷ bs) = insert_bucket b (sort_buckets bs)

unfoldable pub list_buckets : Env → M (List BucketInfo)
unfolding collect_buckets sort_buckets
list_buckets env = do
  entries ← ask (λ n. read_dir n (segments env.root))
  return (sort_buckets (collect_buckets entries))
