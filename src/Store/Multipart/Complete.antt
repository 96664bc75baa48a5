-- ===== src/Store/Multipart/Complete.antt =====
-- The completion of a multipart upload (internal/store/multipart.go): `CompleteMultipartUpload`.
use locals.Base.{
  ℕ, zero, suc, ◌+◌, ◌-◌, ◌*◌, Bool, true, false, List, [], ◌∷◌, ◌++◌, Bytes, codes, leb, ◌==◌,
  if◌then◌else◌, length,
}
use locals.Store.Error.{invalid_part}
use locals.Store.Path.{segments, key_to_path}
use locals.Store.Fs.{Node, mod_time, stat_node, mkdir_all, write_file, read_file, remove_all}
use locals.Store.Info.{Env, ObjectInfo, Sidecar, seconds}
use locals.Store.Monad.{M, ◌>>=◌, ◌>>◌, return, fail, lift, ask, sys, sys_or, finally}
use locals.Store.Meta.{parent, no_sidecar, write_sidecar}
use locals.Store.Object.{place, check_conflicts, classify_mkdir_err, temp_path, drop_temp}
use locals.Store.Multipart.{
  Manifests, Part, CompletedPart, Upload, check_parts, list_parts, load_upload, part_path,
  upload_dir, five_digits,
}

-- The decimal print of a number of at most five digits, such as the number of parts.
unfoldable pub skip_zeros : ℕ → Bytes → Bytes
skip_zeros zero s = s
skip_zeros (suc k) [] = []
skip_zeros (suc k) (c ∷ s) = let rest = skip_zeros k s in if c == b'0' then rest else c ∷ s

unfoldable pub show_count : ℕ → Bytes
unfolding five_digits skip_zeros
show_count n = skip_zeros 4 (five_digits n)

-- The bytes of the parts, one after another.
unfoldable pub gather : Env → Bytes → List Part → M Bytes
gather env id [] = return []
gather env id (p ∷ ps) = do
  body ← ask (λ n. read_file n (segments (part_path env id p.part_number)))
  more ← gather env id ps
  return (body ++ more)

-- `hex.DecodeString` of a digest that was printed by `hex.EncodeToString`.
hex_value : ℕ → ℕ
hex_value c = if leb c b'9' then c - b'0' else c - b'a' + 10

unhex : Bytes → Bytes
unfolding hex_value
unhex [] = []
unhex (c ∷ []) = []
unhex (c ∷ d ∷ s) = (hex_value c * 16 + hex_value d) ∷ unhex s

unfoldable pub raw_digests : List Part → Bytes
unfolding unhex
raw_digests [] = []
raw_digests (p ∷ ps) = unhex p.etag ++ raw_digests ps

abbrev pub part_etags_of : List Part → List Bytes
part_etags_of [] = []
part_etags_of (p ∷ ps) = p.etag ∷ part_etags_of ps

-- `<digest>-<partCount>`
unfoldable pub multipart_etag : Env → List Part → Bytes
unfolding raw_digests show_count
multipart_etag env parts = env.md5 (raw_digests parts) ++ (codes "-" ++ show_count (length parts))

-- The bytes of the parts are put together in a temporary file, and renamed into place.
unfoldable pub join_parts : Env → Bytes → Bytes → List Part → M Bytes
join_parts env id path parts = do content ← gather env id parts; place env path content

abbrev pub upload_sidecar : Env → Upload → List Part → Bytes → Node → Sidecar
upload_sidecar env up parts content fi = record no_sidecar {
  content_type = up.content_type;
  user_meta = up.user_meta;
  etag = multipart_etag env parts;
  size = length content;
  mod_time_nano = mod_time fi;
  part_etags = part_etags_of parts;
}

abbrev pub upload_info : Env → Bytes → Bytes → Upload → List Part → Bytes → Node → ObjectInfo
upload_info env bucket key up parts content fi = record {
  bucket = bucket;
  key = key;
  size = length content;
  etag = multipart_etag env parts;
  last_modified = seconds (mod_time fi);
  content_type = up.content_type;
  user_meta = up.user_meta;
  checksum_algorithm = [];
  checksum_value = [];
}

-- What is recorded of the object; the upload's directory goes.
unfoldable pub settle_upload :
    Env → Bytes → Bytes → Bytes → Upload → List Part → Bytes → Node → M ObjectInfo
settle_upload env bucket key id up parts content fi = do
  write_sidecar env bucket key (upload_sidecar env up parts content fi)
  sys (λ n. remove_all env.now n (segments (upload_dir env id)))
  return (upload_info env bucket key up parts content fi)

unfoldable pub settle_upload_at :
    Env → Bytes → Bytes → Bytes → Upload → List Part → Bytes → Bytes → M ObjectInfo
settle_upload_at env bucket key id up parts path content = do
  fi ← ask (λ n. stat_node n (segments path))
  settle_upload env bucket key id up parts content fi

unfoldable pub commit_upload :
    Env → Bytes → Bytes → Bytes → Upload → List Part → Bytes → M ObjectInfo
commit_upload env bucket key id up parts path = do
  content ← join_parts env id path parts
  settle_upload_at env bucket key id up parts path content

-- From the key's path on.
unfoldable pub assemble_at : Env → Bytes → Bytes → Bytes → Upload → List Part → Bytes → M ObjectInfo
assemble_at env bucket key id up parts path = do
  check_conflicts env bucket key path
  sys_or classify_mkdir_err (λ n. mkdir_all env.now n (parent (segments path)))
  sys (λ n. write_file env.now [] n (segments (temp_path env)))
  finally (commit_upload env bucket key id up parts path) (drop_temp env)

-- The assembly of the object once the parts are checked.
unfoldable pub assemble : Env → Bytes → Bytes → Bytes → Upload → List Part → M ObjectInfo
assemble env bucket key id up parts = do
  path ← lift (key_to_path env.root bucket key)
  assemble_at env bucket key id up parts path

unfoldable pub is_none_listed : List CompletedPart → Bool
is_none_listed [] = true
is_none_listed (p ∷ ps) = false

-- The check of the parts that the request lists, and what follows.
unfoldable pub complete_listed :
    Env → Bytes → Bytes → Bytes → Upload → List CompletedPart → List Part → M ObjectInfo
complete_listed env bucket key id up parts staged = do
  found ← lift (check_parts staged 0 parts)
  assemble env bucket key id up found

unfoldable pub complete_loaded :
    Manifests → Env → Bytes → Bytes → Bytes → List CompletedPart → Upload → M ObjectInfo
unfolding is_none_listed
complete_loaded ms env bucket key id parts up = do
  (if is_none_listed parts then fail invalid_part else return tt)
  staged ← list_parts ms env bucket key id
  complete_listed env bucket key id up parts staged

-- `CompleteMultipartUpload`
unfoldable pub complete_multipart_upload :
    Manifests → Env → Bytes → Bytes → Bytes → List CompletedPart → M ObjectInfo
complete_multipart_upload ms env bucket key id parts = do
  up ← load_upload ms env bucket key id
  complete_loaded ms env bucket key id parts up
