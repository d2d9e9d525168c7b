-- ===== src/Tptfs/Names/Tests.antt =====
-- The parent of vnode 4, and a directory and a vnode given up together.
use project_base_learning.Base.{◌+◌, ◌≡◌, refl, true, ◌==◌, if◌then◌else◌, arith}
use project_base_learning.Tptfs.Tally.{
  Ends, IsEven, holds, drops, gives, mount_takes, mount_gives, tally, once,
}
use project_base_learning.Tptfs.Names.{tpt_vptocnp, tpt_vput_pair}
use project_base_learning.Tptfs.Names.Parent.{tpt_vptocnp-holds}
use project_base_learning.Tptfs.Names.Pair.{tpt_vput_pair-gives}
use project_base_learning.Tptfs.NodeCache.Creation.{IsObliging}
use project_base_learning.Tptfs.Tests.{calm, fresh_state, one_list}

calm-IsObliging : IsObliging calm 1 0
calm-IsObliging = record {
  allocates = λ st h. omega (arith, h);
  fresh = λ st h. omega (arith, h);
  untouched = λ xp vp st h. (refl, h);
  stays = λ c st h. h;
}

tpt_vptocnp-holds_example :
    Ends
      (λ _ t.
        IsEven (holds 5) (drops 5) fresh_state t
        × IsEven (mount_takes 1) (mount_gives 1) fresh_state t)
      (tpt_vptocnp one_list calm 4 0 fresh_state)
tpt_vptocnp-holds_example =
    tpt_vptocnp-holds one_list calm 4 0 5 1 fresh_state (λ h. omega (arith, h))
      (λ h. omega (arith, h)) calm-IsObliging

tpt_vput_pair-gives_example :
    Ends
      (λ r t.
        (r.1 ≡ 9)
        × (tally (gives 9) t.calls
            ≡ once (4 == 9)
              + (if 9 == 0 then 0 else once (9 == 9))
              + tally (gives 9) fresh_state.calls)
        × IsEven (holds 9) (drops 9) fresh_state t)
      (tpt_vput_pair one_list calm 4 9 true fresh_state)
tpt_vput_pair-gives_example =
    tpt_vput_pair-gives one_list calm 4 9 9 fresh_state (λ h. omega (arith, h))
      (λ x h. omega (arith, h))
