-- ===== src/Tptfs/Vfsops/Passed/Kept.antt =====
-- The hash across the operations that are passed on to the mount below.
use project_base_learning.Base.{◌∷◌, ℕ, zero, suc, ◌==◌, not, Bool, Bool-cases, inl, inr}
use project_base_learning.Tptfs.{Store, State, Kernel, Layer, malloc}
use project_base_learning.Tptfs.NodeCache.Hash.{IsCache}
use project_base_learning.Tptfs.NodeCache.Kept.{Leaves, Leaves-and_then, Leaves-ok}
use project_base_learning.Tptfs.NodeCache.Kept.Combined.{Leaves-tpt_mount}
use project_base_learning.Tptfs.NodeCache.Kept.Nodeget.{IsSharing, nodeget-keeps}
use project_base_learning.Tptfs.Vfsops.Passed.{
  Statfs, zero_statfs, vfs_quotactl_of, vfs_extattrctl_of, vfs_statfs_of, vfs_vget_of,
  vfs_fhtovp_of, tptfs_quotactl, tptfs_extattrctl, tptfs_statfs, tptfs_vget, tptfs_fhtovp,
}

module _ (hash : ℕ → ℕ) (kernel : Kernel) (is_owned : ℕ → Store → Type 0)
    (sharing : IsSharing hash kernel is_owned) (is_tptfs : ℕ → Bool) where
  abbrev P : Store → Type 0
  P = IsCache hash

  pub quotactl-keeps :
      (fuel mp : ℕ) (s : State)
      → IsCache hash s.store
      → Leaves (IsCache hash) (vfs_quotactl_of kernel is_tptfs fuel mp s)
  unfolding vfs_quotactl_of tptfs_quotactl
  quotactl-keeps zero mp s cache = unfold Leaves in tt
  quotactl-keeps (suc fuel) mp s cache = elim (Bool-cases (is_tptfs mp)) [
    | inl e ↦
        rw (e)
          (Leaves-tpt_mount P mp s _ (λ mntdata. quotactl-keeps fuel mntdata.nullm_vfs s cache))
    | inr e ↦ rw (e) (Leaves-ok P _ _ (sharing.cache _ _ cache))
  ]

  pub extattrctl-keeps :
      (fuel mp : ℕ) (s : State)
      → IsCache hash s.store
      → Leaves (IsCache hash) (vfs_extattrctl_of kernel is_tptfs fuel mp s)
  unfolding vfs_extattrctl_of tptfs_extattrctl
  extattrctl-keeps zero mp s cache = unfold Leaves in tt
  extattrctl-keeps (suc fuel) mp s cache = elim (Bool-cases (is_tptfs mp)) [
    | inl e ↦
        rw (e)
          (Leaves-tpt_mount P mp s _ (λ mntdata. extattrctl-keeps fuel mntdata.nullm_vfs s cache))
    | inr e ↦ rw (e) (Leaves-ok P _ _ (sharing.cache _ _ cache))
  ]

  below-keeps :
      (kept faked : ℕ) (below : ℕ → Statfs → Layer (ℕ × Statfs)) (mp : ℕ) (sbp : Statfs) (s : State)
      → ((mp' : ℕ) (sbp' : Statfs) (t : State)
          → IsCache hash t.store
          → Leaves (IsCache hash) (below mp' sbp' t))
      → IsCache hash s.store
      → Leaves (IsCache hash) (tptfs_statfs kernel kept faked below mp sbp s)
  unfolding tptfs_statfs
  below-keeps kept faked below mp sbp s keeps cache =
      let allocated = kernel malloc s.store in
      let asked = record s { store = allocated.store; calls = malloc ∷ s.calls } in
      Leaves-tpt_mount P mp asked _ (λ mntdata.
        Leaves-and_then _ _ (below mntdata.nullm_vfs zero_statfs asked) _
          (keeps mntdata.nullm_vfs zero_statfs asked (sharing.cache malloc s.store cache))
          (λ r t c. elim (Bool-cases (not (r.0 == 0))) [
            | inl g ↦ rw (g) (Leaves-ok P _ _ c)
            | inr g ↦ rw (g) (Leaves-ok P _ _ c)
          ]))

  pub statfs-keeps :
      (kept faked : ℕ) (prepare : ℕ → Store → Statfs → Statfs) (read_statfs : ℕ → Statfs)
      (fuel mp : ℕ) (sbp : Statfs) (s : State)
      → IsCache hash s.store
      → Leaves
          (IsCache hash)
          (vfs_statfs_of kernel is_tptfs kept faked prepare read_statfs fuel mp sbp s)
  unfolding vfs_statfs_of
  statfs-keeps kept faked prepare read_statfs zero mp sbp s cache = unfold Leaves in tt
  statfs-keeps kept faked prepare read_statfs (suc fuel) mp sbp s cache =
      elim (Bool-cases (is_tptfs mp)) [
        | inl e ↦ rw (e) (
            below-keeps kept faked
              (vfs_statfs_of kernel is_tptfs kept faked prepare read_statfs fuel) mp
              (prepare mp s.store sbp) s (statfs-keeps kept faked prepare read_statfs fuel) cache)
        | inr e ↦ rw (e) (Leaves-ok P _ _ (sharing.cache _ _ cache))
      ]

  pub vget-keeps :
      (fuel ino mp : ℕ) (s : State)
      → IsCache hash s.store
      → Leaves (IsCache hash) (vfs_vget_of hash kernel is_tptfs fuel ino mp s)
  unfolding vfs_vget_of tptfs_vget
  vget-keeps zero ino mp s cache = unfold Leaves in tt
  vget-keeps (suc fuel) ino mp s cache = elim (Bool-cases (is_tptfs mp)) [
    | inl e ↦ rw (e) (
        Leaves-tpt_mount P mp s _ (λ mntdata.
          Leaves-and_then _ _ (vfs_vget_of hash kernel is_tptfs fuel ino mntdata.nullm_vfs s) _
            (vget-keeps fuel ino mntdata.nullm_vfs s cache)
            (λ r t c. elim (Bool-cases (not (r.0 == 0))) [
              | inl g ↦ rw (g) (Leaves-ok P _ _ c)
              | inr g ↦ rw (g) (nodeget-keeps hash kernel is_owned sharing mp r.1 t c)
            ])))
    | inr e ↦ rw (e) (Leaves-ok P _ _ (sharing.cache _ _ cache))
  ]

  pub fhtovp-keeps :
      (fuel mp : ℕ) (s : State)
      → IsCache hash s.store
      → Leaves (IsCache hash) (vfs_fhtovp_of hash kernel is_tptfs fuel mp s)
  unfolding vfs_fhtovp_of tptfs_fhtovp
  fhtovp-keeps zero mp s cache = unfold Leaves in tt
  fhtovp-keeps (suc fuel) mp s cache = elim (Bool-cases (is_tptfs mp)) [
    | inl e ↦ rw (e) (
        Leaves-tpt_mount P mp s _ (λ mntdata.
          Leaves-and_then _ _ (vfs_fhtovp_of hash kernel is_tptfs fuel mntdata.nullm_vfs s) _
            (fhtovp-keeps fuel mntdata.nullm_vfs s cache)
            (λ r t c. elim (Bool-cases (not (r.0 == 0))) [
              | inl g ↦ rw (g) (Leaves-ok P _ _ c)
              | inr g ↦ rw (g) (nodeget-keeps hash kernel is_owned sharing mp r.1 t c)
            ])))
    | inr e ↦ rw (e) (Leaves-ok P _ _ (sharing.cache _ _ cache))
  ]
