-- ===== src/Api/Checksum.antt =====
-- What a client asserts of a body (internal/s3api/checksum.go): `newAlgoHash`, `checksumValidator` and
-- its methods. The digests are those of `received`, the bytes that were read of the body.
pub mod Accepted
use locals.Base.{
  Bool, true, false, ◌&&◌, ◌||◌, not, List, [], ◌∷◌, Option, none, some, Bytes, codes, map, upper,
  beq, cut_prefix, split, trim_space, if◌then◌else◌, Result, ok, err,
}
use locals.Api.Error.{ApiError, err_bad_digest}
use locals.Api.Request.{Request}
use locals.Api.Packages.{Packages}
use locals.Api.Chunked.{Trailers}
use locals.Api.Body.{is_chunked_body}

abbrev pub Hasher : Type 0
Hasher = Bytes → Bytes

-- `newAlgoHash`
unfoldable pub new_algo_hash : Packages → Bytes → Option Hasher
new_algo_hash go algo =
    let name = map upper algo in
    if beq name (codes "CRC32")
    then some go.crc32
    else if beq name (codes "CRC32C")
    then some go.crc32c
    else if beq name (codes "SHA1")
    then some go.sha1
    else if beq name (codes "SHA256")
    then some go.sha256
    else none

-- `checksumValidator`, without its reader. An empty `want_md5` stands for `md5Hash == nil`.
pub record Validator : Type 0 where
  pub want_md5 : Bytes
  pub algo : Bytes
  pub algo_hash : Option Hasher
  pub want_algo : Bytes
  pub trailer_name : Bytes
  pub chunked : Bool

-- The algorithm that a header's name speaks of, if it is known.
unfoldable pub named_algo : Packages → Bytes → Option (Bytes × Hasher)
unfolding new_algo_hash
named_algo go name = elim (cut_prefix (go.canonical name) (codes "X-Amz-Checksum-")) [
  | none ↦ none
  | some algo ↦ elim (new_algo_hash go algo) [ none ↦ none | some h ↦ some (map upper algo, h) ]
]

-- The loop over the header: the first field that counts.
unfoldable pub up_front : Packages → Request → List (Bytes × List Bytes) → Validator → Validator
up_front go r [] v = v
up_front go r ((name, values) ∷ fields) v = elim (named_algo go name) [
  | none ↦ up_front go r fields v
  | some (algo, h) ↦ record v { algo = algo; algo_hash = some h; want_algo = r.header name }
]

abbrev first_part : List Bytes → Bytes
first_part [] = []
first_part (p ∷ ps) = p

-- A checksum that comes behind the body.
unfoldable pub trailing : Packages → Request → Validator → Validator
trailing go r v =
    let name = trim_space (first_part (split (r.header (codes "X-Amz-Trailer")) b',')) in
    if beq (r.header (codes "X-Amz-Trailer")) [] then v else elim (named_algo go name) [
      | none ↦ v
      | some (algo, h) ↦ record v { algo = algo; algo_hash = some h; trailer_name = name }
    ]

-- `newChecksumValidator`
unfoldable pub new_validator : Packages → Request → Validator
new_validator go r =
    let v = up_front go r r.fields (record {
      want_md5 = r.header (codes "Content-MD5");
      algo = [];
      algo_hash = none;
      want_algo = [];
      trailer_name = [];
      chunked = is_chunked_body r;
    }) in
    elim v.algo_hash [ some h ↦ v | none ↦ if is_chunked_body r then trailing go r v else v ]

-- `Value`
unfoldable pub value : Packages → Validator → Bytes → Bytes
value go v received = elim v.algo_hash [ none ↦ [] | some h ↦ go.base64 (h received) ]

-- `FromTrailer`
unfoldable pub from_trailer : Validator → Bool
from_trailer v = not (beq v.trailer_name [])

-- `Trailers().Get(name)`: the last line of that name.
unfoldable pub trailer_value : Packages → Bytes → Trailers → Bytes → Bytes
trailer_value go name [] found = found
trailer_value go name ((n, x) ∷ ts) found =
    trailer_value go name ts (if beq (go.canonical n) (go.canonical name) then x else found)

-- What the digest of the algorithm is compared to; `none` where nothing is.
unfoldable pub wanted : Packages → Validator → Trailers → Option Bytes
wanted go v trailers =
    let sent = trailer_value go v.trailer_name trailers [] in
    if not (from_trailer v)
    then some v.want_algo
    else if not v.chunked || beq sent []
    then none
    else some sent

abbrev pub judge : Bool → Result ApiError (Unit {0})
judge true = ok tt
judge false = err err_bad_digest

unfoldable pub against : Packages → Validator → Bytes → Option Bytes → Result ApiError (Unit {0})
against go v received none = ok tt
against go v received (some want) = judge (beq (value go v received) want)

unfoldable pub verify_algo :
    Packages → Validator → Bytes → Trailers → Option Hasher → Result ApiError (Unit {0})
verify_algo go v received trailers none = ok tt
verify_algo go v received trailers (some h) = against go v received (wanted go v trailers)

-- `Verify`
unfoldable pub verify : Packages → Validator → Bytes → Trailers → Result ApiError (Unit {0})
verify go v received trailers =
    if not (beq v.want_md5 []) && not (beq (go.base64 (go.md5 received)) v.want_md5)
    then judge false
    else verify_algo go v received trailers v.algo_hash
