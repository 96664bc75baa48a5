-- ===== src/Store/Object/Stored.antt =====
-- What a successful `PutObject` leaves on the tree.
use locals.Base.{◌≡◌, ap, subst, false, [], Bytes, codes, ◌++◌, if◌then◌else◌, Result, ok}
use locals.Store.Error.{OsError, os}
use locals.Store.Key.{is_dir_marker}
use locals.Store.Path.{key_to_path, segments}
use locals.Store.Fs.{Node, file, stat_node, mkdir_all, write_file, rename}
use locals.Store.Fs.Kept.{Apart-differs}
use locals.Store.Fs.Laws.{Apart}
use locals.Store.Fs.Written.{moved}
use locals.Store.Info.{Env, ObjectInfo, PutRequest, Sidecar}
use locals.Store.Monad.{
  M, ◌>>=◌, ◌>>◌, return, lift, ask, sys, sys_or, finally, bind_done, sys_done, ask_done,
}
use locals.Store.Meta.{meta_path, write_sidecar, parent}
use locals.Store.Object.{
  temp_path, drop_temp, put_sidecar, put_info, put_at, place, stage, settle, settle_at, commit,
  put_file, put_object, ensure_bucket, check_conflicts, classify_mkdir_err, put_marker,
}
use locals.Store.Object.Frame.{Keeps-write_sidecar}
use locals.Store.Object.Put.{drop_temp-Keeps}

pub write_sidecar_done :
    (env : Env) (bucket key : Bytes) (sc : Sidecar) (mp : Bytes) (n n' : Node) (u : Unit {0})
    → meta_path env.root bucket key ≡ ok mp
    → Apart (segments mp) (segments (mp ++ codes ".tmp"))
    → write_sidecar env bucket key sc n ≡ (ok u, n')
    → stat_node n' (segments mp) ≡ ok (file (env.marshal sc) env.now)
unfolding write_sidecar
write_sidecar_done env bucket key sc mp n n' u recorded apart h =
    let make : Node → Result OsError Node = λ n. mkdir_all env.now n (parent (segments mp)) in
    let put : Node → Result OsError Node =
      λ n. write_file env.now (env.marshal sc) n (segments (mp ++ codes ".tmp")) in
    let move : Node → Result OsError Node =
      λ n. rename env.now n (segments (mp ++ codes ".tmp")) (segments mp) in
    let (u1, n1, made, after_make) =
      bind_done (sys make) (λ _. sys put >> sys move) n n' u (rw recorded at h) in
    let (u2, n2, put_ok, move_ok) = bind_done (sys put) (λ _. sys move) n1 n' u after_make in
    moved env.now (env.marshal sc) n1 n2 n' (segments (mp ++ codes ".tmp")) (segments mp) apart
      (sys_done os put n1 n2 u2 put_ok) (sys_done os move n2 n' u move_ok)

pub place_done :
    (env : Env) (path content c : Bytes) (n n' : Node)
    → Apart (segments path) (segments (temp_path env))
    → place env path content n ≡ (ok c, n')
    → (c ≡ content) × (stat_node n' (segments path) ≡ ok (file content env.now))
unfolding place
place_done env path content c n n' apart h =
    let put : Node → Result OsError Node =
      λ n. write_file env.now content n (segments (temp_path env)) in
    let move : Node → Result OsError Node =
      λ n. rename env.now n (segments (temp_path env)) (segments path) in
    let (u1, n1, put_ok, after) = bind_done (sys put) (λ _. sys move >> return content) n n' c h in
    let (u2, n2, move_ok, given) = bind_done (sys move) (λ _. return content) n1 n' c after in
    (
      cc,
      subst (λ k. stat_node k (segments path) ≡ ok (file content env.now)) (cc)
          (moved env.now content n n1 n2 (segments (temp_path env)) (segments path) apart
            (sys_done os put n n1 u1 put_ok) (sys_done os move n1 n2 u2 move_ok)),
    )

-- The object's file and its sidecar, after a put of these bytes at this time.
pub record IsStored (env : Env) (req : PutRequest) (path mp content : Bytes) (info : ObjectInfo)
    (n : Node) : Type 0 where
  pub body : stat_node n (segments path) ≡ ok (file content env.now)
  pub sidecar :
      stat_node n (segments mp)
      ≡ ok (file (env.marshal (put_sidecar env req content (file content env.now))) env.now)
  pub answer :
      info
      ≡ put_info req (put_sidecar env req content (file content env.now)) (file content env.now)

module _ (env : Env) (req : PutRequest) (path mp : Bytes)
    (recorded : meta_path env.root req.bucket req.key ≡ ok mp)
    (off_temp : Apart (segments path) (segments (temp_path env)))
    (off_sidecar : Apart (segments path) (segments mp))
    (off_sidecar_tmp : Apart (segments path) (segments (mp ++ codes ".tmp")))
    (sidecar_off_temp : Apart (segments mp) (segments (temp_path env)))
    (sidecar_off_tmp : Apart (segments mp) (segments (mp ++ codes ".tmp"))) where
  settle_done :
      (content : Bytes) (info : ObjectInfo) (n n' : Node)
      → stat_node n (segments path) ≡ ok (file content env.now)
      → settle env req content (file content env.now) n ≡ (ok info, n')
      → IsStored env req path mp content info n'
  unfolding settle
  settle_done content info n n' written h =
      let fi : Node = file content env.now in
      let sc : Sidecar = put_sidecar env req content fi in
      let (u, k, recorded_ok, given) =
        bind_done (write_sidecar env req.bucket req.key sc) (λ _. return (put_info req sc fi)) n n'
          info h in
      let same : k ≡ n' = cc in
      let kept : stat_node k (segments path) ≡ ok fi =
        subst (λ r. stat_node r.1 (segments path) ≡ ok fi) recorded_ok
          (Keeps-write_sidecar env req.bucket req.key sc (segments path) mp recorded
            (Apart-differs (segments path) (segments mp) off_sidecar) off_sidecar_tmp n content
            env.now written) in
      record {
        body = subst (λ m. stat_node m (segments path) ≡ ok fi) same kept;
        sidecar =
            subst (λ m. stat_node m (segments mp) ≡ ok (file (env.marshal sc) env.now)) same
              (write_sidecar_done env req.bucket req.key sc mp n k u recorded sidecar_off_tmp
                recorded_ok);
        answer = cc;
      }

  settle_at_done :
      (content : Bytes) (info : ObjectInfo) (n n' : Node)
      → stat_node n (segments path) ≡ ok (file content env.now)
      → settle_at env req path content n ≡ (ok info, n')
      → IsStored env req path mp content info n'
  unfolding settle_at
  settle_at_done content info n n' written h =
      let (fi, k, asked, settled) =
        bind_done (ask (λ m. stat_node m (segments path))) (settle env req content) n n' info h in
      let (found, same) = ask_done os (λ m. stat_node m (segments path)) n k fi asked in
      let at_fi : fi ≡ file content env.now = cc in
      settle_done content info k n'
        (subst (λ m. stat_node m (segments path) ≡ ok (file content env.now)) same written)
        (subst (λ f. settle env req content f k ≡ (ok info, n')) at_fi settled)

  commit_done :
      (info : ObjectInfo) (n n' : Node)
      → commit env req path n ≡ (ok info, n')
      → (content : Bytes) × (req.body ≡ ok content) × IsStored env req path mp content info n'
  unfolding commit stage
  commit_done info n n' h =
      let (c, k, staged, settled) =
        bind_done (stage env req.body path) (settle_at env req path) n n' info h in
      let (content, k', given, placed) = bind_done (lift req.body) (place env path) n k c staged in
      let (same, written) = place_done env path content c k' k off_temp placed in
      (
        content,
        cc,
        settle_at_done content info k n' written
            (subst (λ d. settle_at env req path d k ≡ (ok info, n')) same settled),
      )

  put_file_done :
      (info : ObjectInfo) (n n' : Node)
      → put_file env req path n ≡ (ok info, n')
      → (content : Bytes) × (req.body ≡ ok content) × IsStored env req path mp content info n'
  unfolding put_file
  put_file_done info n n' h =
      let make : Node → Result OsError Node = λ n. mkdir_all env.now n (parent (segments path)) in
      let open_temp : Node → Result OsError Node =
        λ n. write_file env.now [] n (segments (temp_path env)) in
      let rest : M ObjectInfo = finally (commit env req path) (drop_temp env) in
      let (u, k, _, opened) =
        bind_done (sys_or classify_mkdir_err make) (λ _. sys open_temp >> rest) n n' info h in
      let (v, k', _, ended) = bind_done (sys open_temp) (λ _. rest) k n' info opened in
      let last : drop_temp env (commit env req path k').1 ≡ n' = ap (λ r. r.1) ended in
      let done : commit env req path k' ≡ (ok info, (commit env req path k').1) =
        ap (λ r. (r.0, (commit env req path k').1)) ended in
      let (content, given, s) = commit_done info k' (commit env req path k').1 done in
      let record_bytes : Bytes = env.marshal (put_sidecar env req content (file content env.now)) in
      (
        content,
        given,
        record {
          body =
              subst (λ m. stat_node m (segments path) ≡ ok (file content env.now)) last
                (drop_temp-Keeps env (segments path) (commit env req path k').1 content env.now
                  off_temp s.body);
          sidecar =
              subst (λ m. stat_node m (segments mp) ≡ ok (file record_bytes env.now)) last
                (drop_temp-Keeps env (segments mp) (commit env req path k').1 record_bytes env.now
                  sidecar_off_temp s.sidecar);
          answer = s.answer;
        },
      )

  pub put_object_done :
      (info : ObjectInfo) (n n' : Node)
      → key_to_path env.root req.bucket req.key ≡ ok path
      → is_dir_marker req.key ≡ false
      → put_object env req n ≡ (ok info, n')
      → (content : Bytes) × (req.body ≡ ok content) × IsStored env req path mp content info n'
  unfolding put_object put_at
  put_object_done info n n' named object h =
      let (u, k, _, after) =
        bind_done (ensure_bucket env req.bucket)
          (λ _. lift (key_to_path env.root req.bucket req.key) >>= put_at env req) n n' info h in
      let (p, k', found, put) =
        bind_done (lift (key_to_path env.root req.bucket req.key)) (put_at env req) k n' info
          after in
      let same : p ≡ path = cc in
      let put' : put_at env req path k' ≡ (ok info, n') =
        subst (λ q. put_at env req q k' ≡ (ok info, n')) same put in
      let (v, k'', _, written) =
        bind_done (check_conflicts env req.bucket req.key path)
          (λ _. if is_dir_marker req.key then put_marker env req path else put_file env req path) k'
          n' info put' in
      put_file_done info k'' n' (rw object at written)
