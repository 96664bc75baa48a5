-- ===== src/Store/Json.antt =====
-- What `encoding/json` keeps of a sidecar (internal/store/meta.go): texts that are valid UTF-8, where
-- it writes U+FFFD for what is not, and a map by its keys, which it sorts.
use locals.Base.{ℕ, ◌<◌, ◌≡◌, true, [], ◌∷◌, some, Bytes, All, lt_text}
use locals.Store.Utf8.{valid_utf8, valid_utf8-ascii}
use locals.Store.Info.{Env, Sidecar, UserMeta, PutRequest}
use locals.Store.Fs.{Node}
use locals.Store.Object.{declared, put_sidecar}

abbrev pub IsText : Bytes → Type 0
IsText s = valid_utf8 s ≡ true

-- What `hex.EncodeToString` gives is of this kind.
abbrev pub IsAscii : Bytes → Type 0
IsAscii = All (λ (c : ℕ). c < 0x80)

abbrev IsBelow : Bytes → UserMeta → Type 0
IsBelow k [] = Unit
IsBelow k ((k', v) ∷ m) = lt_text k k' ≡ true

-- A map of texts, as the list of its entries by ascending keys.
abbrev pub IsMap : UserMeta → Type 0
IsMap [] = Unit
IsMap ((k, v) ∷ m) = IsText k × IsText v × IsBelow k m × IsMap m

pub record IsPrintable (sc : Sidecar) : Type 0 where
  pub content_type : IsText sc.content_type
  pub user_meta : IsMap sc.user_meta
  pub etag : IsText sc.etag
  pub part_etags : All IsText sc.part_etags
  pub checksum_algorithm : IsText sc.checksum_algorithm
  pub checksum_value : IsText sc.checksum_value

-- `encoding/json` reads back what it wrote of texts and of maps from texts to texts.
abbrev pub ReadsBack : Env → Type 0
ReadsBack e = (sc : Sidecar) → IsPrintable sc → e.unmarshal (e.marshal sc) ≡ some sc

-- A digest and the fields of a request whose texts are valid make a sidecar that is read back.
pub put_sidecar-IsPrintable :
    (env : Env) (req : PutRequest) (content : Bytes) (fi : Node)
    → IsPrintable (declared req)
    → IsAscii (env.md5 content)
    → IsPrintable (put_sidecar env req content fi)
put_sidecar-IsPrintable env req content fi p d = record {
  content_type = p.content_type;
  user_meta = p.user_meta;
  etag = valid_utf8-ascii (env.md5 content) d;
  part_etags = p.part_etags;
  checksum_algorithm = p.checksum_algorithm;
  checksum_value = p.checksum_value;
}
