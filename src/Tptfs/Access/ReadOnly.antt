-- ===== src/Tptfs/Access/ReadOnly.antt =====
-- A mount that is read-only: what is refused, before the lower layer hears of it.
use project_base_learning.Base.{
  ℕ, ap, sym, ◌-◌, ◌^◌, ◌⊎◌, ◌≡◌, ◌≢◌, refl, Bool, true, false, ◌==◌, if◌then◌else◌, ok, arith,
  ne→==, inl, inr, bit_and,
}
use project_base_learning.Tptfs.{
  State, Kernel, VType, vdir, vchr, vblk, vsock, vfifo, vreg, vlnk, vnon, vbad,
}
use project_base_learning.Tptfs.Bypass.{Args}
use project_base_learning.Tptfs.Access.{
  tpt_access, tpt_accessx, tpt_setattr, tpt_lookup, Vattr, sets_attribute, size_verdict, returns,
  vnoval64, vwrite, is_file, erofs, eisdir, ComponentName, is_delete_or_rename,
}

-- The mount of the vnode is read-only.
abbrev pub is_rdonly : State → ℕ → Bool
is_rdonly s vp = (s.store.mounts (s.store.vnodes vp).v_mount).mnt_rdonly

-- A device, a socket or a fifo.
abbrev pub is_special : VType → Bool
is_special vchr = true
is_special vblk = true
is_special vsock = true
is_special vfifo = true
is_special _ = false

-- The answer of a read-only mount to a size that is to be set.
unfoldable pub size_refusal : VType → ℕ
size_refusal vdir = eisdir
size_refusal t = if is_special t then 0 else erofs

size_verdict-rdonly :
    (t : VType) (flags : ℕ)
    → (flags == vnoval64) ≡ true
    → size_verdict t flags true ≡ returns (size_refusal t)
unfolding size_verdict size_refusal
size_verdict-rdonly vdir flags h = refl
size_verdict-rdonly vchr flags h = rw (h) refl
size_verdict-rdonly vblk flags h = rw (h) refl
size_verdict-rdonly vsock flags h = rw (h) refl
size_verdict-rdonly vfifo flags h = rw (h) refl
size_verdict-rdonly vreg flags h = refl
size_verdict-rdonly vlnk flags h = refl
size_verdict-rdonly vnon flags h = refl
size_verdict-rdonly vbad flags h = refl

-- Why a read-only mount refuses, and with which value: some attribute is to be set, or none is but
-- the size. A field is to be set when it differs from VNOVAL in its width.
pub data Refusal (t : VType) (vap : Vattr) : ℕ → Type 0 where
  flags : vap.va_flags ≢ 2 ^ 64 - 1 → Refusal t vap erofs
  uid : vap.va_uid ≢ 2 ^ 32 - 1 → Refusal t vap erofs
  gid : vap.va_gid ≢ 2 ^ 32 - 1 → Refusal t vap erofs
  atime : vap.va_atime_sec ≢ 2 ^ 64 - 1 → Refusal t vap erofs
  mtime : vap.va_mtime_sec ≢ 2 ^ 64 - 1 → Refusal t vap erofs
  mode : vap.va_mode ≢ 2 ^ 16 - 1 → Refusal t vap erofs
  size_alone :
      vap.va_size ≢ 2 ^ 64 - 1
      → vap.va_flags ≡ 2 ^ 64 - 1
      → vap.va_uid ≡ 2 ^ 32 - 1
      → vap.va_gid ≡ 2 ^ 32 - 1
      → vap.va_atime_sec ≡ 2 ^ 64 - 1
      → vap.va_mtime_sec ≡ 2 ^ 64 - 1
      → vap.va_mode ≡ 2 ^ 16 - 1
      → Refusal t vap (size_refusal t)

-- Either an attribute is to be set, or the size alone.
Refusal-cases :
    (t : VType) (vap : Vattr) (e : ℕ)
    → Refusal t vap e
    → ((sets_attribute vap ≡ true) × (e ≡ erofs))
      ⊎ ((sets_attribute vap ≡ false)
          × ((vap.va_size == vnoval64) ≡ false)
          × ((vap.va_flags == vnoval64) ≡ true)
          × (e ≡ size_refusal t))
unfolding sets_attribute
Refusal-cases t vap _ (flags n) = inl (ground (arith, n), refl)
Refusal-cases t vap _ (uid n) = inl (ground (arith, n), refl)
Refusal-cases t vap _ (gid n) = inl (ground (arith, n), refl)
Refusal-cases t vap _ (atime n) = inl (ground (arith, n), refl)
Refusal-cases t vap _ (mtime n) = inl (ground (arith, n), refl)
Refusal-cases t vap _ (mode n) = inl (ground (arith, n), refl)
Refusal-cases t vap _ (size_alone n f u g a m o) =
    inr (ground (arith, f, u, g, a, m, o), ground (arith, n), ground (arith, f), refl)

module _ (hash : ℕ → ℕ) (kernel : Kernel) where
  -- On a read-only mount `tpt_setattr` makes no call at all and changes nothing. It returns EROFS
  -- where the flags, the owner, the group, a time or the mode is to be set. Where only the size is,
  -- it returns EISDIR for a directory, 0 for a device, a socket and a fifo, and else EROFS.
  -- Conditions: the mount is read-only, and there is something to set.
  pub tpt_setattr-rdonly :
      (vp e : ℕ) (vap : Vattr) (args : Args) (s : State)
      → is_rdonly s vp ≡ true
      → Refusal (s.store.vnodes vp).v_type vap e
      → tpt_setattr hash kernel vp vap args s ≡ ok e s
  unfolding tpt_setattr
  tpt_setattr-rdonly vp e vap args s r asked =
      elim (Refusal-cases (s.store.vnodes vp).v_type vap e asked) [
        | inl (sets, value) ↦ rw (sets, r) (ap (λ v. ok v s) (sym value))
        | inr (no_attribute, size, no_flags, value) ↦
            rw
              (
                no_attribute,
                r,
                size,
                size_verdict-rdonly (s.store.vnodes vp).v_type vap.va_flags no_flags,
              )
              (ap (λ v. ok v s) (sym value))
      ]

  -- A read-only mount refuses, with EROFS and without a call, every request to write to a
  -- directory, a link or a file, and to look up a last component so as to delete or rename it.
  -- Conditions: the mount is read-only; the node is of one of the three types and VWRITE is asked
  -- for; the name is the last one and is to be deleted or renamed.
  pub access-rdonly :
      (vp accmode vpp : ℕ) (cnp : ComponentName) (args : Args) (s : State)
      → is_rdonly s vp ≡ true
      → is_file (s.store.vnodes vp).v_type ≡ true
      → bit_and accmode vwrite ≢ 0
      → cnp.islastcn ≡ true
      → is_delete_or_rename cnp.cn_nameiop ≡ true
      → (tpt_access hash kernel vp accmode args s ≡ ok erofs s)
        × (tpt_accessx hash kernel vp accmode args s ≡ ok erofs s)
        × (tpt_lookup hash kernel vp cnp vpp s ≡ ok (erofs, vpp) s)
  unfolding tpt_access tpt_accessx tpt_lookup
  access-rdonly vp accmode vpp cnp args s r t w l d =
      (rw (ne→== _ 0 w, t, r) refl, rw (ne→== _ 0 w, t, r) refl, rw (l, r, d) refl)
