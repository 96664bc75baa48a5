-- ===== src/Store/Meta/Fresh.antt =====
-- Sidecars beside files that were edited on disk (internal/store/meta.go).
use locals.Base.{
  ℕ, ◌≡◌, ◌≢◌, Bool-cases, ◌⊎◌, inl, inr, refl, true, false, not, [], some, Bytes, ◌==◌, ==_iff,
  arith,
}
use locals.Store.Fs.{Node, size_of, mod_time}
use locals.Store.Info.{Env, Sidecar}
use locals.Store.Meta.{load_sidecar, reconcile, read_sidecar}

-- Whether a sidecar was written for a file of this size and time.
abbrev pub IsOf : Sidecar → Node → Type 0
IsOf sc fi = (sc.size ≡ size_of fi) × (sc.mod_time_nano ≡ mod_time fi)

-- A sidecar without the digests of the file and of its parts, and with the file's size and time.
abbrev pub without_digests : Sidecar → Node → Sidecar
without_digests sc fi = record sc {
  etag = [];
  part_etags = [];
  size = size_of fi;
  mod_time_nano = mod_time fi;
}

same_or_not : (a b : ℕ) → (((not (a == b)) ≡ false) × (a ≡ b)) ⊎ (((not (a == b)) ≡ true) × (a ≢ b))
same_or_not a b = elim (Bool-cases (a == b)) [
  | inl same ↦ inl (ground arith, ground (arith, ==_iff a b))
  | inr other ↦ inr (ground arith, λ e. ground (arith, ==_iff a b))
]

reconcile_fresh :
    (fi : Node) (sc : Sidecar)
    → (IsOf sc fi × (reconcile (some fi) sc ≡ sc))
      ⊎ (¬ IsOf sc fi × (reconcile (some fi) sc ≡ without_digests sc fi))
unfolding reconcile
reconcile_fresh fi sc = elim (same_or_not sc.size (size_of fi)) [
  | inr (edited, other) ↦ inr ((λ same. other same.0), rw edited refl)
  | inl (kept, size) ↦ elim (same_or_not sc.mod_time_nano (mod_time fi)) [
    | inr (edited, other) ↦ inr ((λ same. other same.1), rw (kept, edited) refl)
    | inl (kept', time) ↦ inl ((size, time), rw (kept, kept') refl)
  ]
]

-- The sidecar of a file is read as it stands on disk where it was written for a file of this size and
-- time. Where it was not, the digests of the file and of its parts are dropped, so that they are made
-- anew, and all else that it says is kept, a recorded checksum among it.
pub read_sidecar_fresh :
    (env : Env) (bucket key : Bytes) (fi n : Node)
    → (IsOf (load_sidecar env bucket key n) fi
        × (read_sidecar env bucket key (some fi) n ≡ load_sidecar env bucket key n))
      ⊎ (¬ IsOf (load_sidecar env bucket key n) fi
          × (read_sidecar env bucket key (some fi) n
              ≡ without_digests (load_sidecar env bucket key n) fi))
unfolding read_sidecar
read_sidecar_fresh env bucket key fi n = reconcile_fresh fi (load_sidecar env bucket key n)
