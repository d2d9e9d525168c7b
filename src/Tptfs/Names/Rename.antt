-- ===== src/Tptfs/Names/Rename.antt =====
-- A rename between two mounts.
use project_base_learning.Base.{
  ℕ, ◌+◌, ◌≡◌, refl, Bool, true, not, ◌==◌, ◌&&◌, ◌||◌, if◌then◌else◌, arith, Bool-cases, inl, inr,
}
use project_base_learning.Tptfs.{State, Kernel}
use project_base_learning.Tptfs.Bypass.{Args}
use project_base_learning.Tptfs.Names.{tpt_rename, rename_refuse, exdev}
use project_base_learning.Tptfs.Tally.{Ends, tally, gives, takes, once}

-- The references that the caller of `VOP_RENAME` hands over.
abbrev pub handed_over : (l fdvp fvp tdvp tvp : ℕ) → ℕ
handed_over l fdvp fvp tdvp tvp =
    once (fdvp == l)
    + once (fvp == l)
    + once (tdvp == l)
    + (if tvp == 0 then 0 else once (tvp == l))

-- The source and the target, or the file that is there, are in different mounts.
abbrev pub is_cross : State → (fvp tdvp tvp : ℕ) → Bool
is_cross s fvp tdvp tvp =
    not ((s.store.vnodes fvp).v_mount == (s.store.vnodes tdvp).v_mount)
    || (not (tvp == 0) && not ((s.store.vnodes fvp).v_mount == (s.store.vnodes tvp).v_mount))

-- A rename between two mounts returns EXDEV, and lets go of each vnode exactly as often as it was
-- handed over, also where the target directory is the target itself. Condition: the mounts differ.
pub tpt_rename-cross :
    (hash : ℕ → ℕ) (kernel : Kernel) (fdvp fvp tdvp tvp l : ℕ) (args : Args) (s : State)
    → is_cross s fvp tdvp tvp ≡ true
    → Ends
        (λ e t.
          (e ≡ exdev)
          × (tally (gives l) t.calls ≡ handed_over l fdvp fvp tdvp tvp + tally (gives l) s.calls)
          × (tally (takes l) t.calls ≡ tally (takes l) s.calls))
        (tpt_rename hash kernel fdvp fvp tdvp tvp args s)
unfolding tpt_rename rename_refuse Ends tally gives takes
tpt_rename-cross hash kernel fdvp fvp tdvp tvp l args s c = elim (Bool-cases (tdvp == tvp)) [
  | inl e ↦ elim (Bool-cases (tvp == 0)) [
    | inl z ↦ rw (c, e, z) (refl, omega arith, omega arith)
    | inr z ↦ rw (c, e, z) (refl, omega arith, omega arith)
  ]
  | inr e ↦ elim (Bool-cases (tvp == 0)) [
    | inl z ↦ rw (c, e, z) (refl, omega arith, omega arith)
    | inr z ↦ rw (c, e, z) (refl, omega arith, omega arith)
  ]
]
