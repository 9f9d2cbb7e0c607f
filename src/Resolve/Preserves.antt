-- ===== src/Resolve/Preserves.antt =====
-- The pushes that the resolution of a contested path plans for local content.
use vaultsyncforagents.Prelude.{
  ℕ, ◌≡◌, ◌⊎◌, refl, Bool, true, false, Option, none, some, [], ◌∷◌, ◌++◌, Str, ◌==◌, eq_iff,
  Bool-cases, inl, inr,
}
use vaultsyncforagents.Prelude.Dict.{Dict}
use vaultsyncforagents.Prelude.Failure.{ok, >>=-eq-ok, subst_ok, if-eq-ok}
use vaultsyncforagents.Platform.{Platform}
use vaultsyncforagents.ConflictNames.{conflict_copy_path}
use vaultsyncforagents.ConflictNames.Fresh.{conflict_copy_path-fresh}
use vaultsyncforagents.LocalIndex.{LocalIndex, LocalIndexEntry}
use vaultsyncforagents.Resolve.Ops.{
  RemoteFile, LocalCandidate, Progress, PushFileOp, push_file, OpKind, copying, deleting,
  is_deleting, version_of_entry, local_side, remote_side, local_content, remote_content, no_content,
  LoserContent,
}
use vaultsyncforagents.Resolve.Contested.{
  with_push, with_pull, with_conflict, pull_file, content_push, copy_push, push_conflict_copy,
  concede, conflict_of, path_exists, remote_wins, pull_kind, resolve_contested_path,
}

-- One more push, a file with the local content: at the path on the index head, or at a path that
-- neither the index nor the manifest has, on the remote head.
pub record IsPushed (exists : Str → Bool) (path : Str) (parent remote_parent : Option Str)
    (local : LocalCandidate) (p later : Progress) : Type 0 where
  pub op : PushFileOp
  pub appended : later.pushes ≡ p.pushes ++ (push_file op ∷ [])
  pub same_hash : op.hash ≡ local.hash
  pub same_size : op.size ≡ local.size
  pub place :
      ((op.path ≡ path) × (op.parent_version ≡ parent))
      ⊎ ((exists op.path ≡ false) × (op.parent_version ≡ remote_parent))

module _ (u : Platform) (index : LocalIndex) (manifest : Dict RemoteFile) (this_device_id : Str)
    (this_device_name : Str) (now : ℕ) where
  abbrev Pushed :
      Progress → Str → Option LocalIndexEntry → RemoteFile → LocalCandidate → Progress → Type 0
  Pushed p path entry remote local later =
      IsPushed (path_exists u index manifest this_device_id this_device_name now) path
        (version_of_entry entry) (some remote.version) local p later

  concede-Pushed :
      (p : Progress) (path : Str) (entry : Option LocalIndexEntry) (remote : RemoteFile)
      (local : LocalCandidate) (kind : OpKind) (later : Progress)
      → local.hash == remote.hash ≡ false
      → concede u index manifest this_device_id this_device_name now p path entry remote local kind
        ≡ ok later
      → Pushed p path entry remote local later
  unfolding concede push_conflict_copy with_pull with_push with_conflict copy_push
  concede-Pushed p path entry remote local kind later differ h =
      let (kept, found, rest) =
        >>=-eq-ok
          (push_conflict_copy u index manifest this_device_id this_device_name now
            (with_pull p (pull_file kind path remote)) path local remote)
          _ h in
      let (copy_path, free, made) =
        >>=-eq-ok
          (conflict_copy_path u path this_device_name now
            (path_exists u index manifest this_device_id this_device_name now))
          _ (rw differ at found) in
      subst_ok (Pushed p path entry remote local) _ later rest (
        subst_ok
          (λ k. Pushed p path entry remote local (
            with_conflict k.1 (
              conflict_of u index manifest this_device_id this_device_name now path entry remote
                local remote_side local_content k.0)))
          _ kept made
          (record {
            op = record {
              kind = copying;
              path = copy_path;
              parent_version = some remote.version;
              hash = local.hash;
              size = local.size;
              is_folder = false;
            };
            appended = refl;
            same_hash = refl;
            same_size = refl;
            place = inr (
              conflict_copy_path-fresh u path this_device_name now
                  (path_exists u index manifest this_device_id this_device_name now) copy_path free,
              refl,
            );
          }))

  kept_by_push :
      (p : Progress) (path : Str) (entry : Option LocalIndexEntry) (remote : RemoteFile)
      (local : LocalCandidate) (later : Progress)
      → later.pushes ≡ p.pushes ++ (content_push path entry local ∷ [])
      → Pushed p path entry remote local later
  unfolding content_push
  kept_by_push p path entry remote local later e = record {
    op = record {
      kind = local.kind;
      path = path;
      parent_version = version_of_entry entry;
      hash = local.hash;
      size = local.size;
      is_folder = false;
    };
    appended = e;
    same_hash = refl;
    same_size = refl;
    place = inl (refl, refl);
  }

  -- The remote content takes the path without a push: it is that of the local side.
  abbrev Replaced : Progress → Str → RemoteFile → LocalCandidate → OpKind → Progress → Type 0
  Replaced p path remote local kind later =
      (local.hash ≡ remote.hash)
      × (later.pushes ≡ p.pushes)
      × (later.pulls ≡ p.pulls ++ (pull_file kind path remote ∷ []))

  concede-Replaced :
      (p : Progress) (path : Str) (entry : Option LocalIndexEntry) (remote : RemoteFile)
      (local : LocalCandidate) (kind : OpKind) (later : Progress)
      → local.hash == remote.hash ≡ true
      → concede u index manifest this_device_id this_device_name now p path entry remote local kind
        ≡ ok later
      → Replaced p path remote local kind later
  unfolding concede push_conflict_copy with_pull with_conflict
  concede-Replaced p path entry remote local kind later same h =
      subst_ok (Replaced p path remote local kind) _ later
        (rw (concede, push_conflict_copy, same) at h)
        ((eq_iff local.hash remote.hash).0 same, refl, refl)

  -- What becomes of the local content of a contested path.
  pub data ContentFate (p : Progress) (path : Str) (entry : Option LocalIndexEntry)
      (remote : RemoteFile) (local : LocalCandidate) (later : Progress) : Type 0 where
    pushed : Pushed p path entry remote local later → ContentFate p path entry remote local later
    already_there :
        remote.deleted ≡ false
        → Replaced p path remote local (pull_kind entry) later
        → ContentFate p path entry remote local later
    removed :
        remote.deleted ≡ true
        → remote_wins u index manifest this_device_id this_device_name now entry remote ≡ true
        → Replaced p path remote local deleting later
        → ContentFate p path entry remote local later

  -- A contested path whose local side is content, not a deletion: when the reconciliation returns,
  -- it has planned one push more, of that very hash and size, at the path itself on the version
  -- that the index records, or at a path that neither the index nor the manifest has, on the remote
  -- version; or the remote head is live and has the same hash, and its pull is planned and no push;
  -- or the remote head is a winning tombstone with the same hash, and then its pull, which deletes
  -- the path, is planned and no push.
  pub resolve_contested_path-ContentFate :
      (p : Progress) (path : Str) (entry : Option LocalIndexEntry) (remote : RemoteFile)
      (local : LocalCandidate) (later : Progress)
      → is_deleting local.kind ≡ false
      → resolve_contested_path u index manifest this_device_id this_device_name now p path entry
          remote local
        ≡ ok later
      → ContentFate p path entry remote local later
  unfolding resolve_contested_path with_conflict with_push with_pull content_push
  resolve_contested_path-ContentFate p path entry remote local later alive h =
      let wins = remote_wins u index manifest this_device_id this_device_name now entry remote in
      let stays : (loser : LoserContent)
          → ok (
              with_conflict (with_push p (content_push path entry local)) (
                conflict_of u index manifest this_device_id this_device_name now path entry remote
                  local local_side loser none))
            ≡ ok later
          → ContentFate p path entry remote local later =
        λ loser e. pushed (
          subst_ok (Pushed p path entry remote local) _ later e
            (kept_by_push p path entry remote local _ refl)) in
      elim (if-eq-ok remote.deleted _ _ (rw alive at h)) [
        | inl (dead, k) ↦ elim (if-eq-ok wins _ _ k) [
          | inl (won, e) ↦ elim (Bool-cases (local.hash == remote.hash)) [
            | inl same ↦
                removed dead won (concede-Replaced p path entry remote local deleting later same e)
            | inr differ ↦ pushed (concede-Pushed p path entry remote local deleting later differ e)
          ]
          | inr (lost, e) ↦ stays no_content e
        ]
        | inr (live, k) ↦ elim (if-eq-ok (local.hash == remote.hash) _ _ k) [
          | inl (same, e) ↦ already_there live (
              subst_ok (Replaced p path remote local (pull_kind entry)) _ later e
                ((eq_iff local.hash remote.hash).0 same, refl, refl))
          | inr (differ, k₁) ↦ elim (if-eq-ok wins _ _ k₁) [
            | inl (won, e) ↦
                pushed (concede-Pushed p path entry remote local (pull_kind entry) later differ e)
            | inr (lost, e) ↦ stays remote_content e
          ]
        ]
      ]
