-- ===== src/Tptfs/Vfsops/Passed/Copied.antt =====
-- What tptfs_statfs makes of the answer from below.
use project_base_learning.Base.{
  ◌∷◌, ap, sym, ℕ, ◌≡◌, ◌≢◌, refl, ◌==◌, ne→==, Bool-cases, inl, inr, bit_or, bit_and, ◌-◌, ◌^◌, ok,
  ◌⊎◌, ==→ne, ==→eq,
}
use project_base_learning.Tptfs.{State, Layer, Kernel, malloc, free}
use project_base_learning.Tptfs.Vfsops.Passed.{Statfs, zero_statfs, statfs_copy, tptfs_statfs}
use project_base_learning.Tptfs.Vfsops.Passed.Endless.{IsOver}

-- The buffer `after` has the numbers from below, and of the flags those in `kept` that it had itself
-- and those from below that are not in `faked`.
pub record IsCopy (kept faked : ℕ) (before below after : Statfs) : Type 0 where
  pub type : after.f_type ≡ below.f_type
  pub flags :
      after.f_flags
      ≡ bit_or (bit_and before.f_flags kept) (bit_and below.f_flags (2 ^ 64 - 1 - faked))
  pub bsize : after.f_bsize ≡ below.f_bsize
  pub iosize : after.f_iosize ≡ below.f_iosize
  pub blocks : after.f_blocks ≡ below.f_blocks
  pub bfree : after.f_bfree ≡ below.f_bfree
  pub bavail : after.f_bavail ≡ below.f_bavail
  pub files : after.f_files ≡ below.f_files
  pub ffree : after.f_ffree ≡ below.f_ffree

copied :
    (kept faked : ℕ) (sbp mstat : Statfs)
    → IsCopy kept faked sbp mstat (statfs_copy kept faked sbp mstat)
unfolding statfs_copy
copied kept faked sbp mstat = record {
  type = refl;
  flags = refl;
  bsize = refl;
  iosize = refl;
  blocks = refl;
  bfree = refl;
  bavail = refl;
  files = refl;
  ffree = refl;
}

-- After the buffer for the answer is there.
abbrev pub asked : Kernel → State → State
asked kernel s =
    let allocated = kernel malloc s.store in
    record s { store = allocated.store; calls = malloc ∷ s.calls }

-- Where the mount below answers, with an error or not, `tptfs_statfs` returns its error, and frees the
-- buffer of the answer and makes no other call of its own. With an error it leaves the caller's buffer
-- as it was; without one all nine fields are set: eight numbers are those from below, and the flags
-- are the caller's own and those from below, each cut to its set. Conditions: the mount has its
-- data, with the mount below in it, and that one answers the call.
pub tptfs_statfs-IsCopy :
    (kernel : Kernel) (kept faked mp lower e : ℕ) (below : ℕ → Statfs → Layer (ℕ × Statfs))
    (sbp mstat : Statfs) (s t : State)
    → IsOver mp lower (asked kernel s).store
    → below lower zero_statfs (asked kernel s) ≡ ok (e, mstat) t
    → (after : Statfs) × (tptfs_statfs kernel kept faked below mp sbp s
        ≡ ok (e, after) (record t { calls = free (kernel malloc s.store).out ∷ t.calls }))
      × (((e ≢ 0) × (after ≡ sbp)) ⊎ ((e ≡ 0) × IsCopy kept faked sbp mstat after))
unfolding tptfs_statfs
tptfs_statfs-IsCopy kernel kept faked mp lower e below sbp mstat s t over answers =
    elim (Bool-cases (e == 0)) [
      | inl z ↦ (
        statfs_copy kept faked sbp mstat,
        rw (ne→== _ 0 over.0, over.1, answers, z)
            (ap
              (λ q.
                ok (q, statfs_copy kept faked sbp mstat)
                  (record t { calls = free (kernel malloc s.store).out ∷ t.calls }))
              (sym (==→eq e 0 z))),
        inr (==→eq e 0 z, copied kept faked sbp mstat),
      )
      | inr n ↦ (sbp, rw (ne→== _ 0 over.0, over.1, answers, n) refl, inl (==→ne e 0 n, refl))
    ]
