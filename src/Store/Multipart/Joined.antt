-- ===== src/Store/Multipart/Joined.antt =====
-- What a successful `CompleteMultipartUpload` leaves on the tree (internal/store/multipart.go).
use locals.Base.{
  ℕ, ◌≡◌, sym, ap, ◌∙◌, subst, List, [], ◌∷◌, ◌++◌, Bytes, codes, ◌&&◌, not, if◌then◌else◌,
  Bool-cases, inl, inr, split, Result, ok, err, >>=-eq-ok,
}
use locals.Store.Error.{OsError, os, is_dir, key_dir_conflict}
use locals.Store.Key.{slash, is_dir_marker}
use locals.Store.Path.{bucket_path, rel, segments}
use locals.Store.Fs.{Node, file, dir, stat_node, read_file, mkdir_all, write_file, remove_all}
use locals.Store.Fs.Kept.{Apart-differs}
use locals.Store.Fs.Laws.{Apart}
use locals.Store.Fs.Frame.{stat_node-remove_all, stat_node-write_file, stat_node-mkdir_all_back}
use locals.Store.Info.{Env, ObjectInfo, Sidecar}
use locals.Store.Monad.{
  M, ◌>>=◌, ◌>>◌, return, lift, ask, sys, sys_or, finally, bind_done, sys_done, ask_done,
}
use locals.Store.Bucket.{is_dir_at}
use locals.Store.Meta.{meta_path, write_sidecar, parent}
use locals.Store.Object.{temp_path, drop_temp, place, blocked, check_conflicts, classify_mkdir_err}
use locals.Store.Object.Frame.{Keeps-write_sidecar}
use locals.Store.Object.Put.{drop_temp-Keeps}
use locals.Store.Object.Stored.{place_done, write_sidecar_done}
use locals.Store.Multipart.{Part, Upload, upload_dir, part_path}
use locals.Store.Multipart.Complete.{
  gather, join_parts, upload_sidecar, upload_info, settle_upload, settle_upload_at, commit_upload,
  assemble_at,
}

-- A file that is read is there.
read_file_done :
    (n : Node) (p : List Bytes) (body : Bytes)
    → read_file n p ≡ ok body
    → (t : ℕ) × (stat_node n p ≡ ok (file body t))
unfolding read_file
read_file_done n p body h =
    let (m, there, e) = >>=-eq-ok (stat_node n p) bytes_of h in
    let (t, shape) = bytes_of_file m e in (t, there ∙ ap ok shape)
  where
    bytes_of : Node → Result OsError Bytes
    bytes_of m = elim m as (λ _. Result OsError Bytes) [ file b t ↦ ok b | dir t es ↦ err is_dir ]

    bytes_of_file : (m : Node) → bytes_of m ≡ ok body → (t : ℕ) × (m ≡ file body t)
    bytes_of_file (file b t) e = (t, ap (λ (x : Bytes). file x t) cc)
    bytes_of_file (dir t es) e = absurd cc

-- The bytes of the files of these parts, one after another.
abbrev pub Joined : Env → Bytes → List Part → Node → Bytes → Type 0
Joined env id [] n content = content ≡ []
Joined env id (p ∷ ps) n content =
    (body : Bytes) × (t : ℕ) × (rest : Bytes) × (stat_node n
        (segments (part_path env id p.part_number))
      ≡ ok (file body t))
    × Joined env id ps n rest
    × (content ≡ body ++ rest)

gather_done :
    (env : Env) (id : Bytes) (ps : List Part) (content : Bytes) (n n' : Node)
    → gather env id ps n ≡ (ok content, n')
    → Joined env id ps n content × (n ≡ n')
unfolding gather
gather_done env id [] content n n' h = (cc, cc)
gather_done env id (p ∷ ps) content n n' h =
    let at : List Bytes = segments (part_path env id p.part_number) in
    let (body, k, asked, after) =
      bind_done (ask (λ m. read_file m at)) (λ b. gather env id ps >>= λ more. return (b ++ more)) n
        n' content h in
    let (found, same) = ask_done os (λ m. read_file m at) n k body asked in
    let (rest, k', gathered, given) =
      bind_done (gather env id ps) (λ more. return (body ++ more)) k n' content after in
    let (t, there) = read_file_done n at body found in
    let (joined, same') = gather_done env id ps rest k k' gathered in
    (
      (body, t, rest, there, subst (λ m. Joined env id ps m rest) (sym same) joined, cc),
      same ∙ same' ∙ cc,
    )

-- Files of parts that are there were there before.
Joined-back :
    (env : Env) (id : Bytes) (ps : List Part) (content : Bytes) (n n' : Node)
    → ((number : ℕ) (body : Bytes) (t : ℕ)
        → stat_node n' (segments (part_path env id number)) ≡ ok (file body t)
        → stat_node n (segments (part_path env id number)) ≡ ok (file body t))
    → Joined env id ps n' content
    → Joined env id ps n content
Joined-back env id [] content n n' back h = h
Joined-back env id (p ∷ ps) content n n' back (body, t, rest, there, joined, whole) = (
  body,
  t,
  rest,
  back p.part_number body t there,
  Joined-back env id ps rest n n' back joined,
  whole,
)

-- The check of conflicts leaves the tree alone.
check_conflicts_done :
    (env : Env) (bucket key path : Bytes) (n n' : Node) (u : Unit {0})
    → check_conflicts env bucket key path n ≡ (ok u, n')
    → n' ≡ n
unfolding check_conflicts
check_conflicts_done env bucket key path n n' u h =
    let base = segments (bucket_path env.root bucket) in
    let (r, k, split_ok, tested) =
      bind_done (lift (rel (bucket_path env.root bucket) path))
        (λ r m.
          if blocked m base (split r slash)
          then (err key_dir_conflict, m)
          else if is_dir_at m (segments path) && not (is_dir_marker key)
          then (err key_dir_conflict, m)
          else (ok tt, m))
        n n' u h in
    let same : k ≡ n = cc in
    elim (Bool-cases (blocked k base (split r slash))) [
      | inl above ↦ absurd (cc (rw above at tested))
      | inr free ↦ elim (Bool-cases (is_dir_at k (segments path) && not (is_dir_marker key))) [
        | inl taken ↦ absurd (cc (rw (free, taken) at tested))
        | inr clear ↦ cc (rw (free, clear) at tested)
      ]
    ]

-- The object's file and its sidecar, once these bytes were put together at this time.
pub record IsAssembled (env : Env) (bucket key : Bytes) (up : Upload) (parts : List Part)
    (path mp content : Bytes) (info : ObjectInfo) (n : Node) : Type 0 where
  pub body : stat_node n (segments path) ≡ ok (file content env.now)
  pub sidecar :
      stat_node n (segments mp)
      ≡ ok (file (env.marshal (upload_sidecar env up parts content (file content env.now))) env.now)
  pub answer : info ≡ upload_info env bucket key up parts content (file content env.now)

module _ (env : Env) (bucket key id path mp : Bytes) (up : Upload) (parts : List Part)
    (recorded : meta_path env.root bucket key ≡ ok mp)
    (off_temp : Apart (segments path) (segments (temp_path env)))
    (off_sidecar : Apart (segments path) (segments mp))
    (off_sidecar_tmp : Apart (segments path) (segments (mp ++ codes ".tmp")))
    (sidecar_off_temp : Apart (segments mp) (segments (temp_path env)))
    (sidecar_off_tmp : Apart (segments mp) (segments (mp ++ codes ".tmp")))
    (off_upload : Apart (segments path) (segments (upload_dir env id)))
    (sidecar_off_upload : Apart (segments mp) (segments (upload_dir env id))) where
  settle_upload_done :
      (content : Bytes) (info : ObjectInfo) (n n' : Node)
      → stat_node n (segments path) ≡ ok (file content env.now)
      → settle_upload env bucket key id up parts content (file content env.now) n ≡ (ok info, n')
      → IsAssembled env bucket key up parts path mp content info n'
  unfolding settle_upload
  settle_upload_done content info n n' written h =
      let fi : Node = file content env.now in
      let sc : Sidecar = upload_sidecar env up parts content fi in
      let clear : Node → Result OsError Node =
        λ m. remove_all env.now m (segments (upload_dir env id)) in
      let give : M ObjectInfo = return (upload_info env bucket key up parts content fi) in
      let (u, k, recorded_ok, after) =
        bind_done (write_sidecar env bucket key sc) (λ _. sys clear >> give) n n' info h in
      let (v, k', cleared, given) = bind_done (sys clear) (λ _. give) k n' info after in
      let removed = sys_done os clear k k' v cleared in
      let same : k' ≡ n' = cc in
      let kept : stat_node k (segments path) ≡ ok fi =
        subst (λ r. stat_node r.1 (segments path) ≡ ok fi) recorded_ok
          (Keeps-write_sidecar env bucket key sc (segments path) mp recorded
            (Apart-differs (segments path) (segments mp) off_sidecar) off_sidecar_tmp n content
            env.now written) in
      record {
        body =
            subst (λ m. stat_node m (segments path) ≡ ok fi) same
              (stat_node-remove_all env.now k k' (segments path) (segments (upload_dir env id))
                  off_upload removed
                ∙ kept);
        sidecar =
            subst (λ m. stat_node m (segments mp) ≡ ok (file (env.marshal sc) env.now)) same
              (stat_node-remove_all env.now k k' (segments mp) (segments (upload_dir env id))
                  sidecar_off_upload removed
                ∙ write_sidecar_done env bucket key sc mp n k u recorded sidecar_off_tmp
                    recorded_ok);
        answer = cc;
      }

  commit_upload_done :
      (info : ObjectInfo) (n n' : Node)
      → commit_upload env bucket key id up parts path n ≡ (ok info, n')
      → (content : Bytes) × Joined env id parts n content
        × IsAssembled env bucket key up parts path mp content info n'
  unfolding commit_upload join_parts settle_upload_at
  commit_upload_done info n n' h =
      let (c, k, joined, settled) =
        bind_done (join_parts env id path parts) (settle_upload_at env bucket key id up parts path)
          n n' info h in
      let (content, k', gathered, placed) =
        bind_done (gather env id parts) (place env path) n k c joined in
      let (all, at_n) = gather_done env id parts content n k' gathered in
      let (same, written) = place_done env path content c k' k off_temp placed in
      let (fi, m, asked, settled') =
        bind_done (ask (λ m. stat_node m (segments path)))
          (settle_upload env bucket key id up parts c) k n' info settled in
      let (found, still) = ask_done os (λ m. stat_node m (segments path)) k m fi asked in
      let at_fi : fi ≡ file content env.now = cc in
      (
        content,
        all,
        settle_upload_done content info m n'
            (subst (λ x. stat_node x (segments path) ≡ ok (file content env.now)) still written)
            (subst (λ f. settle_upload env bucket key id up parts content f m ≡ (ok info, n')) at_fi
              (subst (λ d. settle_upload env bucket key id up parts d fi m ≡ (ok info, n')) same
                settled')),
      )

  -- The same behind the removal of the temporary file.
  dropped :
      (content : Bytes) (info : ObjectInfo) (n : Node)
      → IsAssembled env bucket key up parts path mp content info n
      → IsAssembled env bucket key up parts path mp content info (drop_temp env n)
  dropped content info n s = record {
    body = drop_temp-Keeps env (segments path) n content env.now off_temp s.body;
    sidecar = drop_temp-Keeps env (segments mp) n _ env.now sidecar_off_temp s.sidecar;
    answer = s.answer;
  }

  pub assemble_at_done :
      (info : ObjectInfo) (n n' : Node)
      → ((number : ℕ) → Apart (segments (part_path env id number)) (segments (temp_path env)))
      → assemble_at env bucket key id up parts path n ≡ (ok info, n')
      → (content : Bytes) × Joined env id parts n content
        × IsAssembled env bucket key up parts path mp content info n'
  unfolding assemble_at
  assemble_at_done info n n' parts_off_temp h =
      let make : Node → Result OsError Node = λ m. mkdir_all env.now m (parent (segments path)) in
      let open_temp : Node → Result OsError Node =
        λ m. write_file env.now [] m (segments (temp_path env)) in
      let rest : M ObjectInfo =
        finally (commit_upload env bucket key id up parts path) (drop_temp env) in
      let (u, k, checked, after) =
        bind_done (check_conflicts env bucket key path)
          (λ _. sys_or classify_mkdir_err make >> (sys open_temp >> rest)) n n' info h in
      let (u2, k2, made, after2) =
        bind_done (sys_or classify_mkdir_err make) (λ _. sys open_temp >> rest) k n' info after in
      let (u3, k3, opened, ended) = bind_done (sys open_temp) (λ _. rest) k2 n' info after2 in
      let done : commit_upload env bucket key id up parts path k3
          ≡ (ok info, (commit_upload env bucket key id up parts path k3).1) =
        ap (λ r. (r.0, (commit_upload env bucket key id up parts path k3).1)) ended in
      let (content, joined, s) =
        commit_upload_done info k3 (commit_upload env bucket key id up parts path k3).1 done in
      (
        content,
        subst (λ m. Joined env id parts m content)
            (check_conflicts_done env bucket key path n k u checked)
            (Joined-back env id parts content k k3
              (λ number body t there.
                stat_node-mkdir_all_back env.now k k2 (segments (part_path env id number))
                  (parent (segments path)) body t (sys_done classify_mkdir_err make k k2 u2 made)
                  (sym (
                      stat_node-write_file env.now [] k2 k3 (segments (part_path env id number))
                        (segments (temp_path env)) (parts_off_temp number)
                        (sys_done os open_temp k2 k3 u3 opened))
                    ∙ there))
              joined),
        subst (λ m. IsAssembled env bucket key up parts path mp content info m)
            (ap (λ r. r.1) ended) (dropped content info _ s),
      )
