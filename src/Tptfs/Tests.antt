-- ===== src/Tptfs/Tests.antt =====
-- A kernel that answers every call with success and lets no other thread run, and a mount with one
-- node.
use project_base_learning.Base.{
  ℕ, zero, suc, ◌+◌, ◌≡◌, ◌≢◌, ◌↔◌, ◌⊎◌, refl, inl, inr, true, false, ◌==◌, if◌then◌else◌, List, [],
  ◌∷◌, ok, arith,
}
use project_base_learning.Tptfs.{
  State, Store, Kernel, Call, Vnode, vreg, tpt_vnodeops, malloc, getnewvnode, vop_lookup,
  vn_isdisk_error, lk_exclusive,
}
use project_base_learning.Tptfs.Tally.{
  Ends, tally, gives, takes, holds, drops, once, IsEven, interlocks, interunlocks,
}
use project_base_learning.Tptfs.NodeCache.{tpt_nodeget, tpt_hashins, is_alias, list_find}
use project_base_learning.Tptfs.NodeCache.Creation.{Outcome, IsObliging}
use project_base_learning.Tptfs.NodeCache.References.{tpt_nodeget-Outcome}
use project_base_learning.Tptfs.NodeCache.Hash.{IsCache, IsPlaced, count, tpt_hashins-IsCache}
use project_base_learning.Tptfs.Bypass.{Args, tpt_bypass}
use project_base_learning.Tptfs.Bypass.Balance.{IsAlive, tpt_bypass-AreRestored, AreRestored}
use project_base_learning.Tptfs.Access.{
  tpt_setattr, tpt_lookup, Vattr, ComponentName, op_delete, op_lookup, vnoval16, vnoval32, vnoval64,
}
use project_base_learning.Tptfs.Access.ReadOnly.{size_refusal, size_alone, tpt_setattr-rdonly}
use project_base_learning.Tptfs.Access.Holds.{tpt_lookup-holds}
use project_base_learning.Tptfs.Lock.{tpt_lock}
use project_base_learning.Tptfs.Lock.Interlock.{IsInterlockFreed, tpt_lock-IsInterlockFreed}
use project_base_learning.Tptfs.Names.{tpt_rename, exdev}
use project_base_learning.Tptfs.Names.Rename.{handed_over, tpt_rename-cross}
use project_base_learning.Tptfs.Reclaim.{tpt_reclaim}
use project_base_learning.Tptfs.Reclaim.Release.{undoes, write_leases, tpt_reclaim-released}
use project_base_learning.Tptfs.Vfsops.{mount_disk, tptfs_unmount}
use project_base_learning.Tptfs.Vfsops.Mounted.{
  IsMountedOn, mount_disk-IsMountedOn, tptfs_unmount-released,
}

abbrev pub answer : Call → ℕ
answer malloc = 50
answer (getnewvnode _) = 60
answer (vop_lookup _) = 7
answer (vn_isdisk_error _) = 1
answer _ = 0

abbrev pub calm : Kernel
calm c st = record { error = 0; out = answer c; slots = λ i. 0; store = st }

-- Vnode 4 stands for vnode 5 below, with the node 10 in the mount 1; vnode 9 is in the mount 2.
abbrev vnodes_of : ℕ → Vnode
vnodes_of n = record {
  v_type = vreg;
  v_op = tpt_vnodeops;
  v_data = 10;
  v_mount = if n == 9 then 2 else 1;
  v_vnlock = 5;
  v_object = 0;
  v_writecount = 3;
  v_usecount = 1;
  vv_root = false;
  vv_nosync = false;
  virf_pgread = false;
  virf_doomed = false;
}

abbrev table : ℕ → List ℕ
table zero = 10 ∷ []
table (suc _) = []

abbrev pub store_of : (ℕ → List ℕ) → Store
store_of hashtbl = record {
  vnodes = vnodes_of;
  nodes =
      λ n. record { tpt_lowervp = 5; tpt_vnode = 4; nullv_nounlock = false; nullv_drop = false };
  mounts = λ n. record {
    mnt_rdonly = true;
    mnt_rootfs = false;
    mnt_data = 20;
    mnt_nvnodelistsize = 0;
    mntk_vgone_upper = false;
    mntk_vgone_waiter = false;
    f_fsid = 77;
  };
  tpt_mounts = λ n. record { nullm_vfs = 1; nullm_lowerrootvp = 8; nullm_cache = false; fs = 51 };
  hashtbl = hashtbl;
}

abbrev pub fresh_state : State
fresh_state = record { store = store_of (λ i. []); calls = [] }

abbrev cached_state : State
cached_state = record { store = store_of table; calls = [] }

abbrev pub one_list : ℕ → ℕ
one_list _ = 0

calm-IsObliging : IsObliging calm 1 7
calm-IsObliging = record {
  allocates = λ st h. omega (arith, h);
  fresh = λ st h. omega (arith, h);
  untouched = λ xp vp st h. (refl, h);
  stays = λ c st h. h;
}

tpt_nodeget-Outcome_example :
    Ends (λ r t. Outcome calm 1 7 fresh_state t r.0 r.1) (tpt_nodeget one_list calm 1 7 fresh_state)
tpt_nodeget-Outcome_example =
    tpt_nodeget-Outcome one_list calm 1 7 fresh_state calm-IsObliging (λ h. omega (arith, h))

pub fresh-IsCache : IsCache one_list fresh_state.store
unfolding IsPlaced count
fresh-IsCache = record { placed = λ i. tt; unique = λ i mp l. omega arith }

tpt_hashins-IsCache_example :
    Ends
      (λ r t.
        IsCache one_list t.store
        × ((r ≡ 0) ↔ (count (is_alias fresh_state.store 1 5) [] ≡ 0))
        × ((t.store.nodes (list_find (is_alias t.store 1 5) (t.store.hashtbl 0))).tpt_vnode
            ≡ (if r == 0 then 4 else r)))
      (tpt_hashins one_list 1 10 fresh_state)
tpt_hashins-IsCache_example =
    tpt_hashins-IsCache one_list 1 10 fresh_state fresh-IsCache (λ h. omega (arith, h))
      (λ h. omega (arith, h)) refl

abbrev no_args : Args
no_args = record { a_vps = (4, true) ∷ (0, false) ∷ []; has_vpp = false; a_vpp = 0 }

-- Only the size is to be set.
abbrev truncation : Vattr
truncation = record {
  va_flags = vnoval64;
  va_uid = vnoval32;
  va_gid = vnoval32;
  va_atime_sec = vnoval64;
  va_mtime_sec = vnoval64;
  va_mode = vnoval16;
  va_size = 0;
}

tpt_setattr-rdonly_example :
    tpt_setattr one_list calm 4 truncation no_args fresh_state ≡ ok (size_refusal vreg) fresh_state
tpt_setattr-rdonly_example =
    tpt_setattr-rdonly one_list calm 4 (size_refusal vreg) truncation no_args fresh_state refl
      (size_alone (λ h. omega (arith, h)) refl refl refl refl refl refl)

abbrev last_name : ComponentName
last_name = record { cn_nameiop = op_delete; islastcn = true }

tpt_lookup-holds_example :
    Ends
      (λ _ t. IsEven (holds 5) (drops 5) fresh_state t)
      (tpt_lookup one_list calm 4
        (record { cn_nameiop = op_lookup; islastcn = true })
        0
        fresh_state)
tpt_lookup-holds_example =
    tpt_lookup-holds one_list calm 4 (record { cn_nameiop = op_lookup; islastcn = true }) 0 5
      fresh_state (λ h. omega (arith, h)) (λ h. omega (arith, h)) calm-IsObliging

alive : IsAlive fresh_state.store true no_args.a_vps
unfolding IsAlive
alive = (inr (λ h. omega (arith, h), λ h. omega (arith, h)), (inl (refl, refl), tt))

tpt_bypass-AreRestored_example :
    Ends
      (λ r t.
        IsEven (takes 4) (gives 4) fresh_state t
        × AreRestored fresh_state.store true no_args.a_vps r.args)
      (tpt_bypass one_list calm no_args fresh_state)
tpt_bypass-AreRestored_example =
    tpt_bypass-AreRestored one_list calm 4 no_args fresh_state alive refl

tpt_lock-IsInterlockFreed_example :
    Ends
      (λ _ t. IsEven (holds 5) (drops 5) fresh_state t × IsInterlockFreed 4 true fresh_state t)
      (tpt_lock calm 4 lk_exclusive true fresh_state)
tpt_lock-IsInterlockFreed_example =
    tpt_lock-IsInterlockFreed calm 5 4 lk_exclusive true fresh_state (λ h. ground (arith, h))

tpt_rename-cross_example :
    Ends
      (λ e t.
        (e ≡ exdev)
        × (tally (gives 3) t.calls ≡ handed_over 3 2 4 9 3 + tally (gives 3) fresh_state.calls)
        × (tally (takes 3) t.calls ≡ tally (takes 3) fresh_state.calls))
      (tpt_rename one_list calm 2 4 9 3 no_args fresh_state)
tpt_rename-cross_example = tpt_rename-cross one_list calm 2 4 9 3 3 no_args fresh_state refl

tpt_reclaim-released_example :
    Ends
      (λ e t.
        (e ≡ 0)
        × (tally (gives 5) t.calls ≡ 1 + tally (gives 5) cached_state.calls)
        × IsEven (interlocks 4) (interunlocks 4) cached_state t
        × (tally (write_leases 5) t.calls ≡ undoes 3 + tally (write_leases 5) cached_state.calls))
      (tpt_reclaim one_list calm 4 cached_state)
tpt_reclaim-released_example =
    tpt_reclaim-released one_list calm 4 cached_state (λ h. omega (arith, h)) (λ st. refl)

mount_disk-IsMountedOn_example :
    Ends
      (λ e t.
        (((e ≢ 0) ⊎ (e ≡ 0))
          × (tally (gives 8) t.calls ≡ once (8 == 8) + tally (gives 8) fresh_state.calls))
        ⊎ ((e ≡ 0)
            × (tally (gives 8) t.calls ≡ tally (gives 8) fresh_state.calls)
            × IsMountedOn 1 8 t))
      (mount_disk calm 1 30 8 fresh_state)
mount_disk-IsMountedOn_example = mount_disk-IsMountedOn calm 8 1 30 8 fresh_state

tptfs_unmount-released_example :
    Ends
      (λ e t.
        ((e ≢ 0)
          × (tally (gives 8) t.calls ≡ tally (gives 8) fresh_state.calls)
          × ((t.store.mounts 1).mnt_data ≢ 0))
        ⊎ ((e ≡ 0)
            × (tally (gives 8) t.calls ≡ once (8 == 8) + tally (gives 8) fresh_state.calls)
            × ((t.store.mounts 1).mnt_data ≡ 0)))
      (tptfs_unmount calm 1 1 false fresh_state)
tptfs_unmount-released_example =
    tptfs_unmount-released calm 8 0 1 8 fresh_state (λ h. omega (arith, h)) (refl, refl, refl)
