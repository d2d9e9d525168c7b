-- ===== src/Tptfs/Vfsops/Kept.antt =====
-- The hash across the operations on mounts.
use project_base_learning.Base.{◌∷◌, ℕ, zero, suc, ◌==◌, not, ◌||◌, Bool, Bool-cases, inl, inr}
use project_base_learning.Tptfs.{
  Store, State, Kernel, Mount, TptMount, LkType, vget, brelse, vfs_flagopt_ro, g_vfs_open,
  vop_unlock, bread, vn_isdisk_error, vfs_getopt_from, namei, vflush, msleep,
}
use project_base_learning.Tptfs.NodeCache.{tpt_nodeget}
use project_base_learning.Tptfs.NodeCache.Hash.{IsCache}
use project_base_learning.Tptfs.NodeCache.Kept.{Leaves, Leaves-and_then, Leaves-ok}
use project_base_learning.Tptfs.NodeCache.Kept.Combined.{
  Leaves-tpt_mount, Leaves-tpt_mount_at, Leaves-call_if,
}
use project_base_learning.Tptfs.NodeCache.Kept.Nodeget.{IsSharing, nodeget-keeps}
use project_base_learning.Tptfs.Vfsops.{
  mountfs_out, mountfs_fill, tpt_mountfs, mount_disk, tptfs_mount, unmount_flush, unmount_wait,
  unmount_finish, tptfs_unmount, tptfs_root, tpt_compute_sb_data,
}

-- The hash does not depend on the mounts.
mounts-IsCache :
    (hash : ℕ → ℕ) (st : Store) (m : ℕ → Mount) (t : ℕ → TptMount)
    → IsCache hash st
    → IsCache hash (record st { mounts = m; tpt_mounts = t })
mounts-IsCache hash st m t cache = record { placed = cache.placed; unique = cache.unique }

module _ (hash : ℕ → ℕ) (kernel : Kernel) (is_owned : ℕ → Store → Type 0)
    (sharing : IsSharing hash kernel is_owned) where
  abbrev P : Store → Type 0
  P = IsCache hash

  out-keeps :
      (bp cp : ℕ) (s : State)
      → IsCache hash s.store
      → Leaves (IsCache hash) (mountfs_out kernel bp cp s)
  unfolding mountfs_out
  out-keeps bp cp s cache =
      Leaves-and_then _ _ _ _
        (Leaves-call_if P kernel sharing.cache (not (bp == 0)) (brelse bp) s cache)
        (λ a t c. elim (Bool-cases (not (cp == 0))) [
          | inl e ↦ rw (e) (Leaves-ok P _ _ (sharing.cache _ _ c))
          | inr e ↦ rw (e) (Leaves-ok P _ _ c)
        ])

  fill-keeps :
      (devvp mp bp cp : ℕ) (s : State)
      → IsCache hash s.store
      → Leaves (IsCache hash) (mountfs_fill kernel devvp mp bp cp s)
  unfolding mountfs_fill tpt_compute_sb_data
  fill-keeps devvp mp bp cp s cache =
      Leaves-ok P _ _ (mounts-IsCache hash _ _ _ (sharing.cache _ _ (sharing.cache _ _ cache)))

  mountfs-keeps :
      (devvp mp : ℕ) (s : State)
      → IsCache hash s.store
      → Leaves (IsCache hash) (tpt_mountfs kernel devvp mp s)
  unfolding tpt_mountfs
  mountfs-keeps devvp mp s cache =
      let flagged = kernel vfs_flagopt_ro s.store in
      let opened = kernel (g_vfs_open devvp) flagged.store in
      let unlocked = kernel (vop_unlock devvp) opened.store in
      let read = kernel (bread devvp) unlocked.store in
      let c =
        sharing.cache (vop_unlock devvp) _
          (sharing.cache (g_vfs_open devvp) _ (sharing.cache vfs_flagopt_ro _ cache)) in
      elim (Bool-cases (not (opened.error == 0))) [
        | inl e ↦ rw (e) (Leaves-ok P _ _ c)
        | inr e ↦ elim (Bool-cases (not (read.error == 0))) [
          | inl g ↦ rw (e, g) (out-keeps read.out opened.out _ (sharing.cache _ _ c))
          | inr g ↦ rw (e, g) (fill-keeps devvp mp read.out opened.out _ (sharing.cache _ _ c))
        ]
      ]

  disk-keeps :
      (mp fspec devvp : ℕ) (s : State)
      → IsCache hash s.store
      → Leaves (IsCache hash) (mount_disk kernel mp fspec devvp s)
  unfolding mount_disk
  disk-keeps mp fspec devvp s cache =
      let disk = kernel (vn_isdisk_error devvp) s.store in
      let c = sharing.cache (vn_isdisk_error devvp) s.store cache in
      elim (Bool-cases (disk.out == 0)) [
        | inl e ↦ rw (e) (Leaves-ok P _ _ (sharing.cache _ _ c))
        | inr e ↦ rw (e) (
            Leaves-and_then _ _ (tpt_mountfs kernel devvp mp _) _ (mountfs-keeps devvp mp _ c)
              (λ error t d. elim (Bool-cases (not (error == 0))) [
                | inl g ↦ rw (g) (Leaves-ok P _ _ (sharing.cache _ _ d))
                | inr g ↦ rw (g) (Leaves-ok P _ _ d)
              ]))
      ]

  pub mount-keeps :
      (mp : ℕ) (terminated : Bool) (s : State)
      → IsCache hash s.store
      → Leaves (IsCache hash) (tptfs_mount kernel mp terminated s)
  unfolding tptfs_mount
  mount-keeps mp terminated s cache =
      let fspec = kernel vfs_getopt_from s.store in
      let found = kernel namei fspec.store in
      let c = sharing.cache vfs_getopt_from s.store cache in
      elim (Bool-cases (s.store.mounts mp).mnt_rootfs) [
        | inl e ↦ rw (e) (Leaves-ok P _ s cache)
        | inr e ↦ elim (Bool-cases (not (fspec.error == 0) || not terminated || (fspec.out == 0))) [
          | inl g ↦ rw (e, g) (Leaves-ok P _ _ c)
          | inr g ↦ elim (Bool-cases (not (found.error == 0))) [
            | inl h ↦ rw (e, g, h) (Leaves-ok P _ _ (sharing.cache _ _ c))
            | inr h ↦ rw (e, g, h) (disk-keeps mp fspec.out found.out _ (sharing.cache _ _ c))
          ]
        ]
      ]

  flush-keeps :
      (fuel mp : ℕ) (force : Bool) (s : State)
      → IsCache hash s.store
      → Leaves (IsCache hash) (unmount_flush kernel fuel mp force s)
  unfolding unmount_flush
  flush-keeps zero mp force s cache = unfold Leaves in tt
  flush-keeps (suc fuel) mp force s cache =
      let flushed = kernel (vflush mp force) s.store in
      let c = sharing.cache (vflush mp force) s.store cache in
      elim (Bool-cases (not (flushed.error == 0))) [
        | inl e ↦ rw (e) (Leaves-ok P _ _ c)
        | inr e ↦ elim (Bool-cases ((flushed.store.mounts mp).mnt_nvnodelistsize == 0)) [
          | inl g ↦ rw (e, g) (Leaves-ok P _ _ c)
          | inr g ↦ elim (Bool-cases (not force)) [
            | inl h ↦ rw (e, g, h) (Leaves-ok P _ _ c)
            | inr h ↦ rw (e, g, h) (flush-keeps fuel mp force _ c)
          ]
        ]
      ]

  wait-keeps :
      (fuel ump : ℕ) (s : State)
      → IsCache hash s.store
      → Leaves (IsCache hash) (unmount_wait kernel fuel ump s)
  unfolding unmount_wait
  wait-keeps zero ump s cache = unfold Leaves in tt
  wait-keeps (suc fuel) ump s cache = elim (Bool-cases (s.store.mounts ump).mntk_vgone_upper) [
    | inl e ↦
        rw (e)
          (wait-keeps fuel ump _ (sharing.cache (msleep ump) _ (mounts-IsCache hash _ _ _ cache)))
    | inr e ↦ rw (e) (Leaves-ok P _ s cache)
  ]

  finish-keeps :
      (fuel mp : ℕ) (s : State)
      → IsCache hash s.store
      → Leaves (IsCache hash) (unmount_finish kernel fuel mp s)
  unfolding unmount_finish
  finish-keeps fuel mp s cache = Leaves-tpt_mount P mp s _ (λ mntdata.
      elim (Bool-cases mntdata.nullm_cache) [
        | inl e ↦ rw (e) (
            Leaves-and_then _ _ _ _
              (Leaves-and_then _ P (unmount_wait kernel fuel mntdata.nullm_vfs _) _
                (wait-keeps fuel mntdata.nullm_vfs _ cache) (λ a t c. Leaves-ok P _ _ c))
              (λ a t c. Leaves-ok P _ _ (mounts-IsCache hash _ _ _ (sharing.cache _ _ c))))
        | inr e ↦ rw (e) (Leaves-ok P _ _ (mounts-IsCache hash _ _ _ (sharing.cache _ _ cache)))
      ])

  pub unmount-keeps :
      (fuel mp : ℕ) (force : Bool) (s : State)
      → IsCache hash s.store
      → Leaves (IsCache hash) (tptfs_unmount kernel fuel mp force s)
  unfolding tptfs_unmount
  unmount-keeps fuel mp force s cache =
      Leaves-and_then _ _ (unmount_flush kernel fuel mp force s) _
        (flush-keeps fuel mp force s cache)
        (λ error t c. elim (Bool-cases (not (error == 0))) [
          | inl e ↦ rw (e) (Leaves-ok P _ _ c)
          | inr e ↦ rw (e) (finish-keeps fuel mp t c)
        ])

  pub root-keeps :
      (mp : ℕ) (flags : LkType) (vpp : ℕ) (s : State)
      → IsCache hash s.store
      → Leaves (IsCache hash) (tptfs_root hash kernel mp flags vpp s)
  unfolding tptfs_root
  root-keeps mp flags vpp s cache =
      let p = (s.store.mounts mp).mnt_data in
      Leaves-tpt_mount_at P p s _ (λ before.
        let got = kernel (vget before.nullm_lowerrootvp flags) s.store in
        let c = sharing.cache (vget before.nullm_lowerrootvp flags) s.store cache in
        elim (Bool-cases (got.error == 0)) [
          | inl e ↦ rw (e) (
              Leaves-tpt_mount_at P p
                (record {
                  store = got.store;
                  calls = vget before.nullm_lowerrootvp flags ∷ s.calls;
                })
                _
                (λ after.
                  Leaves-and_then _ _ (tpt_nodeget hash kernel mp after.nullm_lowerrootvp _) _
                    (nodeget-keeps hash kernel is_owned sharing mp after.nullm_lowerrootvp _ c)
                    (λ made t d. Leaves-ok P _ t d)))
          | inr e ↦ rw (e) (Leaves-ok P _ _ c)
        ])
