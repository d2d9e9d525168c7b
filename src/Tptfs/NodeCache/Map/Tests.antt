-- ===== src/Tptfs/NodeCache/Map/Tests.antt =====
-- Two nodes for one lower vnode are inserted into an empty hash, and the first one is removed again.
use project_base_learning.Base.{◌≡◌, refl, arith, List, [], ◌∷◌}
use project_base_learning.Tptfs.NodeCache.{list_find}
use project_base_learning.Tptfs.NodeCache.Hash.{IsCache}
use project_base_learning.Tptfs.NodeCache.Map.{
  HashOp, find, insert, remove, perform_all, Aliases, on_map, on_map_all, IsValid, AreValid,
  StandsFor, Follows,
}
use project_base_learning.Tptfs.NodeCache.Map.Refine.{perform_all-on_map_all}
use project_base_learning.Tptfs.Tally.{Ends}
use project_base_learning.Tptfs.Tests.{fresh_state, fresh-IsCache, one_list}

abbrev script : List HashOp
script = insert 1 10 ∷ insert 1 11 ∷ find 1 5 ∷ remove 10 ∷ find 1 5 ∷ []

abbrev empty : Aliases
empty mp lowervp = 0

empty-StandsFor : StandsFor one_list fresh_state.store empty
unfolding list_find
empty-StandsFor mp lowervp = refl

results :
    (on_map_all fresh_state.store.nodes fresh_state.store.vnodes script empty).0
    ≡ 0 ∷ 4 ∷ 4 ∷ 0 ∷ 0 ∷ []
unfolding on_map_all on_map
results = refl

script-AreValid : AreValid fresh_state.store.nodes fresh_state.store.vnodes script empty
unfolding AreValid IsValid on_map
script-AreValid = (
  (λ h. omega (arith, h), λ h. omega (arith, h), refl),
  (
    (λ h. omega (arith, h), λ h. omega (arith, h), refl),
    (tt, ((λ h. omega (arith, h), refl), (tt, tt))),
  ),
)

perform_all-on_map_all_example :
    Ends
      (λ rs t.
        Follows one_list fresh_state.store.nodes fresh_state.store.vnodes
          (on_map_all fresh_state.store.nodes fresh_state.store.vnodes script empty)
          rs
          t
        × IsCache one_list t.store)
      (perform_all one_list script fresh_state)
perform_all-on_map_all_example =
    perform_all-on_map_all one_list script fresh_state empty empty-StandsFor fresh-IsCache
      script-AreValid
