-- ===== src/Store/Tests/Codec.antt =====
-- A concrete stand-in for `json.Marshal` and `json.Unmarshal` of a sidecar (internal/store/meta.go),
-- for the tests: fields in a row, each text behind its length.
use locals.Base.{
  ℕ, zero, suc, ◌≡◌, refl, ◌∙◌, List, [], ◌∷◌, ◌++◌, Option, some, Bytes, length, take, drop,
  take-length_append, drop-length_append,
}
use locals.Store.Info.{Sidecar, UserMeta}

write_text : Bytes → Bytes → Bytes
write_text s rest = length s ∷ (s ++ rest)

write_texts : List Bytes → Bytes → Bytes
unfolding write_text
write_texts [] rest = rest
write_texts (s ∷ l) rest = write_text s (write_texts l rest)

write_pairs : UserMeta → Bytes → Bytes
unfolding write_text
write_pairs [] rest = rest
write_pairs ((k, v) ∷ l) rest = write_text k (write_text v (write_pairs l rest))

read_number {ℓ} : {A : Type ℓ} → Bytes → (ℕ → Bytes → A) → A
read_number [] k = k 0 []
read_number (n ∷ s) k = k n s

read_text {ℓ} : {A : Type ℓ} → Bytes → (Bytes → Bytes → A) → A
read_text [] k = k [] []
read_text (n ∷ s) k = k (take n s) (drop n s)

read_texts {ℓ} : {A : Type ℓ} → ℕ → Bytes → (List Bytes → Bytes → A) → A
unfolding read_text
read_texts zero s k = k [] s
read_texts (suc n) s k = read_text s λ a r. read_texts n r λ l q. k (a ∷ l) q

read_pairs {ℓ} : {A : Type ℓ} → ℕ → Bytes → (UserMeta → Bytes → A) → A
unfolding read_text
read_pairs zero s k = k [] s
read_pairs (suc n) s k =
    read_text s λ a r. read_text r λ b p. read_pairs n p λ l q. k ((a, b) ∷ l) q

read_text-write_text {ℓ} :
    {A : Type ℓ} (s rest : Bytes) (k : Bytes → Bytes → A)
    → read_text (write_text s rest) k ≡ k s rest
unfolding read_text write_text
read_text-write_text s rest k = rw (take-length_append s rest, drop-length_append s rest)

read_texts-write_texts {ℓ} :
    {A : Type ℓ} (l : List Bytes) (rest : Bytes) (k : List Bytes → Bytes → A)
    → read_texts (length l) (write_texts l rest) k ≡ k l rest
unfolding read_texts write_texts
read_texts-write_texts [] rest k = refl
read_texts-write_texts (s ∷ l) rest k =
    read_text-write_text s (write_texts l rest) (λ a r. read_texts (length l) r λ t q. k (a ∷ t) q)
    ∙ read_texts-write_texts l rest (λ t q. k (s ∷ t) q)

read_pairs-write_pairs {ℓ} :
    {A : Type ℓ} (l : UserMeta) (rest : Bytes) (k : UserMeta → Bytes → A)
    → read_pairs (length l) (write_pairs l rest) k ≡ k l rest
unfolding read_pairs write_pairs
read_pairs-write_pairs [] rest k = refl
read_pairs-write_pairs ((a, b) ∷ l) rest k =
    read_text-write_text a (write_text b (write_pairs l rest))
      (λ a' r. read_text r λ b' p. read_pairs (length l) p λ t q. k ((a', b') ∷ t) q)
    ∙ read_text-write_text b (write_pairs l rest)
        (λ b' p. read_pairs (length l) p λ t q. k ((a, b') ∷ t) q)
    ∙ read_pairs-write_pairs l rest (λ t q. k ((a, b) ∷ t) q)

unfoldable pub marshal : Sidecar → Bytes
unfolding write_text write_texts write_pairs
marshal sc =
    sc.size
    ∷ sc.mod_time_nano
    ∷ length sc.part_etags
    ∷ length sc.user_meta
    ∷ write_text sc.content_type (
        write_text sc.etag (
          write_text sc.checksum_algorithm (
            write_text sc.checksum_value
              (write_texts sc.part_etags (write_pairs sc.user_meta [])))))

unfoldable pub unmarshal : Bytes → Option Sidecar
unfolding read_number read_text read_texts read_pairs
unmarshal s = read_number s λ size s. read_number s λ time s. read_number s λ parts s.
    read_number s λ metas s. read_text s λ typed s. read_text s λ etag s. read_text s λ algorithm s.
      read_text s λ value s. read_texts parts s λ etags s. read_pairs metas s λ meta s.
        some (record {
          content_type = typed;
          user_meta = meta;
          etag = etag;
          size = size;
          mod_time_nano = time;
          part_etags = etags;
          checksum_algorithm = algorithm;
          checksum_value = value;
        })

pub unmarshal-marshal : (sc : Sidecar) → unmarshal (marshal sc) ≡ some sc
unfolding unmarshal marshal
unmarshal-marshal sc = simp (read_text-write_text, read_texts-write_texts, read_pairs-write_pairs)
