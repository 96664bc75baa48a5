-- ===== src/Store/Copy.antt =====
-- Server-side copy (internal/store/copy.go): `CopyObject`.
use locals.Base.{Bool, ◌&&◌, not, [], Bytes, if◌then◌else◌, beq, ok}
use locals.Store.Error.{invalid_argument}
use locals.Store.Path.{key_to_path, segments}
use locals.Store.Fs.{size_of, mod_time, stat_node, read_file}
use locals.Store.Info.{Env, ObjectInfo, CopyRequest, UserMeta, Sidecar, default_content_type}
use locals.Store.Monad.{M, ◌>>=◌, ◌>>◌, return, fail, lift, ask, ask_or}
use locals.Store.Bucket.{bucket_exists}
use locals.Store.Meta.{no_sidecar, write_sidecar}
use locals.Store.Object.{head_object, put_object, not_found}

abbrev same_object : CopyRequest → Bool
same_object req = beq req.src_bucket req.dst_bucket && beq req.src_key req.dst_key

-- The metadata of the copy: the source's, or the request's.
abbrev copied_type : CopyRequest → ObjectInfo → Bytes
copied_type req src =
    if req.replace_metadata
    then (if beq req.content_type [] then default_content_type else req.content_type)
    else src.content_type

abbrev copied_meta : CopyRequest → ObjectInfo → UserMeta
copied_meta req src = if req.replace_metadata then req.user_meta else src.user_meta

-- A copy onto itself rewrites the sidecar and leaves the bytes alone.
rewrite_meta : Env → CopyRequest → ObjectInfo → Bytes → M ObjectInfo
rewrite_meta env req src src_path = do
  fi ← ask (λ n. stat_node n (segments src_path))
  let sc : Sidecar = record no_sidecar {
    content_type = copied_type req src;
    user_meta = copied_meta req src;
    etag = src.etag;
    size = size_of fi;
    mod_time_nano = mod_time fi;
  }
  write_sidecar env req.dst_bucket req.dst_key sc
  return (record src { content_type = copied_type req src; user_meta = copied_meta req src })

unfoldable pub copy_object : Env → CopyRequest → M ObjectInfo
unfolding rewrite_meta
copy_object env req = do
  bucket_exists env req.src_bucket
  bucket_exists env req.dst_bucket
  src ← head_object env req.src_bucket req.src_key
  src_path ← lift (key_to_path env.root req.src_bucket req.src_key)
  if same_object req && not req.replace_metadata
      then fail invalid_argument
      else if same_object req
      then rewrite_meta env req src src_path
      else do
        body ← ask_or not_found (λ n. read_file n (segments src_path))
        put_object env (record {
          bucket = req.dst_bucket;
          key = req.dst_key;
          body = ok body;
          content_type = copied_type req src;
          user_meta = copied_meta req src;
          checksum_algorithm = [];
          checksum_value = [];
        })
