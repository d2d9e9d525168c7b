-- ===== src/Tptfs/Vfsops/Tests.antt =====
-- Mounts of the layer over themselves and over another filesystem, and a kernel whose forced flush
-- takes one vnode away.
use project_base_learning.Base.{
  ok, ◌∷◌, ℕ, ◌+◌, ◌-◌, ◌≡◌, ◌≢◌, ◌⊎◌, refl, Bool, true, false, ◌==◌, update, [], arith,
  out_of_fuel,
}
use project_base_learning.Tptfs.{free, Layer, State, Store, Kernel, vreg, tpt_vnodeops, vflush}
use project_base_learning.Tptfs.Tally.{Ends, tally, gives, once}
use project_base_learning.Tptfs.Vfsops.{tptfs_unmount}
use project_base_learning.Tptfs.Vfsops.Forced.{IsFlushing, IsFilled, tptfs_unmount-forced}
use project_base_learning.Tptfs.Vfsops.Passed.Copied.{asked, IsCopy, tptfs_statfs-IsCopy}
use project_base_learning.Tptfs.Vfsops.Passed.{tptfs_statfs}
use project_base_learning.Tptfs.Vfsops.Passed.{
  Statfs, zero_statfs, vfs_statfs_of, vfs_quotactl_of, vfs_extattrctl_of, vfs_vget_of,
  vfs_fhtovp_of,
}
use project_base_learning.Tptfs.Vfsops.Passed.Endless.{passed-endless}

-- Mount 1 has the mount `lower` below, its data at 20 and two vnodes.
abbrev store_over : ℕ → Store
store_over lower = record {
  vnodes = λ n. record {
    v_type = vreg;
    v_op = tpt_vnodeops;
    v_data = 10;
    v_mount = 1;
    v_vnlock = 5;
    v_object = 0;
    v_writecount = 0;
    v_usecount = 1;
    vv_root = false;
    vv_nosync = false;
    virf_pgread = false;
    virf_doomed = false;
  };
  nodes =
      λ n. record { tpt_lowervp = 5; tpt_vnode = 4; nullv_nounlock = false; nullv_drop = false };
  mounts = λ n. record {
    mnt_rdonly = false;
    mnt_rootfs = false;
    mnt_data = 20;
    mnt_nvnodelistsize = 2;
    mntk_vgone_upper = false;
    mntk_vgone_waiter = false;
    f_fsid = 77;
  };
  tpt_mounts =
      λ n. record { nullm_vfs = lower; nullm_lowerrootvp = 8; nullm_cache = false; fs = 51 };
  hashtbl = λ i. [];
}

abbrev state_over : ℕ → State
state_over lower = record { store = store_over lower; calls = [] }

abbrev flushed : ℕ → Store → Store
flushed mp st = record st {
  mounts =
      update st.mounts mp
        (record (st.mounts mp) { mnt_nvnodelistsize = (st.mounts mp).mnt_nvnodelistsize - 1 });
}

abbrev kernel : Kernel
kernel (vflush mp true) st = record { error = 0; out = 0; slots = λ i. 0; store = flushed mp st }
kernel c st = record { error = 0; out = 90; slots = λ i. 0; store = st }

keeps_IsFilled : (st : Store) → IsFilled 1 8 st → IsFilled 1 8 (flushed 1 st)
keeps_IsFilled st filled = filled

kernel-IsFlushing : IsFlushing kernel 1 8
kernel-IsFlushing = record {
  succeeds = λ st. refl;
  fewer = λ st. omega arith;
  keeps = keeps_IsFilled;
}

tptfs_unmount-forced_example :
    Ends
      (λ e t.
        (e ≡ 0)
        × ((t.store.mounts 1).mnt_data ≡ 0)
        × (tally (gives 8) t.calls ≡ once (8 == 8) + tally (gives 8) (state_over 1).calls))
      (tptfs_unmount kernel 3 1 true (state_over 1))
tptfs_unmount-forced_example =
    tptfs_unmount-forced kernel 1 8 8 kernel-IsFlushing 3 (state_over 1) (omega arith)
      ((λ h. omega (arith, h)), (refl, refl, refl))

abbrev is_one : ℕ → Bool
is_one mp = mp == 1

abbrev read_statfs : ℕ → Statfs
read_statfs p = record zero_statfs { f_blocks = p; f_flags = 9 }

passed-endless_example :
    (vfs_statfs_of kernel is_one 1 2 (λ mp st sbp. sbp) read_statfs 7 1 zero_statfs (state_over 1)
      ≡ out_of_fuel)
    × (vfs_quotactl_of kernel is_one 7 1 (state_over 1) ≡ out_of_fuel)
    × (vfs_extattrctl_of kernel is_one 7 1 (state_over 1) ≡ out_of_fuel)
    × (vfs_vget_of (λ l. 0) kernel is_one 7 2 1 (state_over 1) ≡ out_of_fuel)
    × (vfs_fhtovp_of (λ l. 0) kernel is_one 7 1 (state_over 1) ≡ out_of_fuel)
passed-endless_example =
    passed-endless (λ l. 0) kernel is_one 1 refl 1 2 (λ mp st sbp. sbp) read_statfs
      (λ st over. over) 7 2 zero_statfs (state_over 1) ((λ h. omega (arith, h)), refl)

abbrev below : ℕ → Statfs → Layer (ℕ × Statfs)
below mp sbp s = ok (0, record sbp { f_bavail = mp; f_ffree = 90; f_flags = 9 }) s

abbrev no_error : ℕ
no_error = 0

abbrev answer_below : Statfs
answer_below = record zero_statfs { f_bavail = 6; f_ffree = 90; f_flags = 9 }

tptfs_statfs-IsCopy_example :
    (after : Statfs) × (tptfs_statfs kernel 1 2 below 1 zero_statfs (state_over 6)
      ≡ ok
          (0, after)
          (record (asked kernel (state_over 6)) {
            calls = free 90 ∷ (asked kernel (state_over 6)).calls;
          }))
    × (((no_error ≢ 0) × (after ≡ zero_statfs))
        ⊎ ((no_error ≡ 0) × IsCopy 1 2 zero_statfs answer_below after))
tptfs_statfs-IsCopy_example =
    tptfs_statfs-IsCopy kernel 1 2 1 6 0 below zero_statfs answer_below (state_over 6)
      (asked kernel (state_over 6)) ((λ h. omega (arith, h)), refl) refl
