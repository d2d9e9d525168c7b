-- ===== src/Tptfs/Vfsops/Root/Tests.antt =====
-- The root of the mount 1, whose lower root 8 has no node yet.
use project_base_learning.Base.{◌≡◌, ◌≢◌, refl, ◌⊎◌, ◌==◌, if◌then◌else◌, ℕ, arith}
use project_base_learning.Tptfs.{lk_exclusive, vget}
use project_base_learning.Tptfs.NodeCache.Creation.{Outcome, IsObliging}
use project_base_learning.Tptfs.Vfsops.{tptfs_root}
use project_base_learning.Tptfs.Vfsops.Root.{got, tptfs_root-Outcome}
use project_base_learning.Tptfs.Tally.{Ends}
use project_base_learning.Tptfs.Tests.{calm, fresh_state, one_list}

calm-IsObliging : IsObliging calm 1 8
calm-IsObliging = record {
  allocates = λ st h. omega (arith, h);
  fresh = λ st h. omega (arith, h);
  untouched = λ xp vp st h. (refl, h);
  stays = λ c st h. h;
}

abbrev answered : ℕ
answered = (calm (vget 8 lk_exclusive) fresh_state.store).error

tptfs_root-Outcome_example :
    Ends
      (λ r t.
        ((answered ≢ 0) × (r ≡ (answered, 0)) × (t ≡ got one_list calm 8 lk_exclusive fresh_state))
        ⊎ ((answered ≡ 0)
            × ((vp : ℕ) × Outcome calm 1 8 (got one_list calm 8 lk_exclusive fresh_state) t r.0 vp
                × (r.1 ≡ (if r.0 == 0 then vp else 0)))))
      (tptfs_root one_list calm 1 lk_exclusive 0 fresh_state)
tptfs_root-Outcome_example =
    tptfs_root-Outcome one_list calm 1 8 lk_exclusive 0 fresh_state calm-IsObliging
      (λ h. omega (arith, h)) refl refl
