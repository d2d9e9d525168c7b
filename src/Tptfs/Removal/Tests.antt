-- ===== src/Tptfs/Removal/Tests.antt =====
-- Vnode 4 with the node 10 is removed while two threads use it. The kernel marks every node.
use project_base_learning.Base.{ok, ◌⊎◌, false, ◌≡◌, refl, true, false, [], ◌∷◌, arith, inr}
use project_base_learning.Tptfs.Tally.{Ends}
use project_base_learning.Tptfs.Bypass.{Args}
use project_base_learning.Tptfs.Bypass.Balance.{IsAlive}
use project_base_learning.Tptfs.Names.{tpt_remove, tpt_rmdir}
use project_base_learning.Tptfs.Reclaim.{tpt_need_inactive, tpt_inactive}
use project_base_learning.Tptfs.Reclaim.Recycle.{IsWanted, recycled, tpt_need_inactive-tpt_inactive}
use project_base_learning.Tptfs.Removal.{IsRecycledNext, tpt_remove-IsRecycledNext}
use project_base_learning.Tptfs.Tests.{calm, fresh_state, one_list}

abbrev one_arg : Args
one_arg = record { a_vps = (4, true) ∷ []; has_vpp = false; a_vpp = 0 }

alive : IsAlive fresh_state.store true one_arg.a_vps
unfolding IsAlive
alive = (inr (λ h. omega (arith, h), λ h. omega (arith, h)), tt)

tpt_remove-IsRecycledNext_example :
    Ends
      (λ _ t. IsRecycledNext one_list calm 4 t)
      (tpt_remove one_list calm 4 2 one_arg fresh_state)
    × Ends (λ _ t. IsRecycledNext one_list calm 4 t) (tpt_rmdir one_list calm 4 one_arg fresh_state)
tpt_remove-IsRecycledNext_example =
    tpt_remove-IsRecycledNext one_list calm 4 10 one_arg 2 fresh_state (λ c st h. h) refl
      (λ h. omega (arith, h)) alive refl (λ h. omega (arith, h))

tpt_need_inactive-tpt_inactive_example :
    Ends
      (λ need t.
        (t ≡ fresh_state)
        × (((need ≡ true)
              × IsWanted 4 fresh_state.store
              × (tpt_inactive one_list calm 4 fresh_state ≡ ok 0 (recycled calm 4 fresh_state)))
            ⊎ ((need ≡ false)
                × ¬ IsWanted 4 fresh_state.store
                × (tpt_inactive one_list calm 4 fresh_state ≡ ok 0 fresh_state))))
      (tpt_need_inactive 4 fresh_state)
tpt_need_inactive-tpt_inactive_example =
    tpt_need_inactive-tpt_inactive one_list calm 4 fresh_state (λ h. omega (arith, h))
      (λ h. omega (arith, h))
