-- ===== src/Tptfs.antt =====
-- tptfs/tpt.h and the parts of the FreeBSD kernel that the tptfs layer reads and writes. The kernel
-- is a parameter: what it answers to a call, and what other threads do to the vnodes meanwhile.
pub mod Tally
pub mod NodeCache
pub mod Bypass
pub mod Access
pub mod Names
pub mod Lock
pub mod Reclaim
pub mod Vfsops
pub mod Table
pub mod Invariant
pub mod Removal
mod Tests
use project_base_learning.Base.{
  ℕ, Bool, true, false, ◌==◌, if◌then◌else◌, update, List, [], ◌∷◌, Cmd, Run, ok, panic, pure,
  ◌>>=◌, ◌>>◌, get, modify,
}

pub data VType : Type 0 where
  vnon vreg vdir vblk vchr vlnk vsock vfifo vbad : VType

pub data VopVector : Type 0 where
  tpt_vnodeops dead_vnodeops other_vnodeops : VopVector

-- The fields of `struct vnode` that the layer uses. Pointers are numbers, NULL is 0; a lock is
-- named by the vnode whose `v_lock` it is. `v_writecount` is an int in two's complement. Bits of
-- `v_vflag` and of the irregular flags are fields of their own.
pub record Vnode : Type 0 where
  pub v_type : VType
  pub v_op : VopVector
  pub v_data : ℕ
  pub v_mount : ℕ
  pub v_vnlock : ℕ
  pub v_object : ℕ
  pub v_writecount : ℕ
  pub v_usecount : ℕ
  pub vv_root : Bool
  pub vv_nosync : Bool
  pub virf_pgread : Bool
  pub virf_doomed : Bool

-- `struct tpt_node`; the hash lists are in `Store`. The two bits of `tpt_flags` are fields.
pub record TptNode : Type 0 where
  pub tpt_lowervp : ℕ
  pub tpt_vnode : ℕ
  pub nullv_nounlock : Bool
  pub nullv_drop : Bool

-- `struct tpt_mount`; of `nullm_flags` the code reads the bit NULLM_CACHE.
pub record TptMount : Type 0 where
  pub nullm_vfs : ℕ
  pub nullm_lowerrootvp : ℕ
  pub nullm_cache : Bool
  pub fs : ℕ

pub record Mount : Type 0 where
  pub mnt_rdonly : Bool
  pub mnt_rootfs : Bool
  pub mnt_data : ℕ
  pub mnt_nvnodelistsize : ℕ
  pub mntk_vgone_upper : Bool
  pub mntk_vgone_waiter : Bool
  pub f_fsid : ℕ

-- What the pointers point to. A list of `tpt_node_hashtbl` is found by the hash of the lower vnode.
pub record Store : Type 0 where
  pub vnodes : ℕ → Vnode
  pub nodes : ℕ → TptNode
  pub mounts : ℕ → Mount
  pub tpt_mounts : ℕ → TptMount
  pub hashtbl : ℕ → List ℕ

-- The type bits of a lock request.
pub data LkType : Type 0 where
  lk_shared lk_exclusive lk_upgrade lk_other : LkType

-- The kernel functions that the layer calls.
pub data Call : Type 0 where
  vref vrele vput vunref vgone vrecycle vhold vholdnz vdrop vi_lock vi_unlock : ℕ → Call
  vop_islocked vop_unlock vn_islocked lock_own : ℕ → Call
  vn_lock vop_lock vop_stdlock vget : ℕ → LkType → Call
  vop_stdunlock vop_vptofh vop_read_pgcache vop_getwritemount vn_vptocnp : ℕ → Call
  vop_lookup : ℕ → Call
  vop_add_writecount : ℕ → ℕ → Call
  vop_vput_pair : ℕ → ℕ → Bool → Call
  vop_stdislocked vop_stdadvlockpurge : ℕ → Call
  vcall : List ℕ → Call
  getnewvnode : ℕ → Call
  insmntque1 : ℕ → ℕ → Call
  malloc : Call
  free vfs_ref vfs_rel : ℕ → Call
  hash_rlock hash_runlock hash_wlock hash_wunlock rw_destroy hashdestroy : Call
  printf : ℕ → ℕ → Call
  vfs_getopt_from vfs_flagopt_ro namei : Call
  vn_isdisk_error g_vfs_open bread : ℕ → Call
  g_topology_lock g_topology_unlock : Call
  brelse g_vfs_close vfs_mountedfrom : ℕ → Call
  bcopy : ℕ → ℕ → Call
  vflush : ℕ → Bool → Call
  mnt_ilock mnt_iunlock msleep : ℕ → Call
  tailq_remove : ℕ → ℕ → Call
  vfs_quotactl vfs_statfs vfs_vget vfs_fhtovp vfs_extattrctl : ℕ → Call

-- An answer of the kernel: the int, the pointer that it stores or returns, the vnode slots of the
-- argument structure as the callee leaves them, and the store after other threads ran.
pub record Reply : Type 0 where
  pub error : ℕ
  pub out : ℕ
  pub slots : ℕ → ℕ
  pub store : Store

-- The store and the calls made so far, the last one first.
pub record State : Type 0 where
  pub store : Store
  pub calls : List Call

abbrev pub Layer : Type 0 → Type 0
Layer A = Cmd State A

abbrev pub Kernel : Type 0
Kernel = Call → Store → Reply

-- A call that may sleep: the kernel gives the answer and the store.
abbrev pub call : Kernel → Call → Layer Reply
call kernel c s = let r = kernel c s.store in ok r (record { store = r.store; calls = c ∷ s.calls })

-- A call that neither sleeps nor changes what the layer reads.
abbrev pub note : Call → Layer (Unit {0})
note c s = ok tt (record s { calls = c ∷ s.calls })

abbrev pub vnode : ℕ → Layer Vnode
vnode vp s = ok (s.store.vnodes vp) s

abbrev pub set_vnode : ℕ → (Vnode → Vnode) → Layer (Unit {0})
set_vnode vp f s = ok tt (record s {
  store = record (s.store) { vnodes = update s.store.vnodes vp (f (s.store.vnodes vp)) };
})

-- A read through a pointer that may be NULL faults.
abbrev pub tpt_node : ℕ → Layer TptNode
tpt_node xp s = if xp == 0 then panic else ok (s.store.nodes xp) s

abbrev pub set_tpt_node : ℕ → (TptNode → TptNode) → Layer (Unit {0})
set_tpt_node xp f s =
    if xp == 0
    then panic
    else ok tt (record s {
      store = record (s.store) { nodes = update s.store.nodes xp (f (s.store.nodes xp)) };
    })

abbrev pub mount : ℕ → Layer Mount
mount mp s = ok (s.store.mounts mp) s

-- A `struct tpt_mount` read through its pointer.
abbrev pub tpt_mount_at : ℕ → Layer TptMount
tpt_mount_at p s = if p == 0 then panic else ok (s.store.tpt_mounts p) s

-- `MOUNTTONULLMOUNT(mp)`, read through.
abbrev pub tpt_mount : ℕ → Layer TptMount
tpt_mount mp s =
    let p = (s.store.mounts mp).mnt_data in if p == 0 then panic else ok (s.store.tpt_mounts p) s

-- `NULLVPTOLOWERVP(vp)` of a kernel without DIAGNOSTIC.
abbrev pub null_vp_to_lower_vp : ℕ → Layer ℕ
null_vp_to_lower_vp vp = do v ← vnode vp; xp ← tpt_node v.v_data; pure xp.tpt_lowervp
