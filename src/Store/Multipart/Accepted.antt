-- ===== src/Store/Multipart/Accepted.antt =====
-- What `CompleteMultipartUpload` makes of the list of parts (internal/store/multipart.go).
use locals.Base.{◌≡◌, ◌≢◌, ◌⊎◌, List, [], Bytes, err}
use locals.Store.Error.{Error}
use locals.Store.Fs.{Node}
use locals.Store.Info.{Env}
use locals.Store.Multipart.{Manifests, Part, CompletedPart, Upload}
use locals.Store.Multipart.Check.{Ascending, Staged, LargeButLast}
use locals.Store.Multipart.Complete.{assemble, complete_multipart_upload}

-- The list is not empty, its numbers grow strictly from 1 on, each part is staged with its digest, and
-- every part but the last has at least 5 MiB; `found` are the staged ones.
abbrev pub Accepts : List Part → List CompletedPart → List Part → Type 0
Accepts staged parts found =
    (parts ≢ []) × Ascending 0 parts × Staged staged parts found × LargeButLast found

module _ (ms : Manifests) (env : Env) (bucket key id : Bytes) (up : Upload) (staged : List Part)
    (n : Node) where
  abbrev pub Decided : List CompletedPart → Type 0
  Decided parts =
      ((found : List Part) × Accepts staged parts found
        × (complete_multipart_upload ms env bucket key id parts n
            ≡ assemble env bucket key id up found n))
      ⊎ ((e : Error) × (complete_multipart_upload ms env bucket key id parts n ≡ (err e, n))
          × ((found : List Part) → ¬ Accepts staged parts found))
