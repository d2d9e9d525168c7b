-- ===== src/Tptfs/Invariant/Tests.antt =====
-- A kernel in which another thread empties the hash while memory is allocated, and the state after
-- a first tpt_nodeget.
use project_base_learning.Base.{ℕ, ◌≡◌, ◌≢◌, refl, update, [], ok, arith, eq→==}
use project_base_learning.Tptfs.{Store, State, Kernel, Call, malloc, getnewvnode, insmntque1}
use project_base_learning.Tptfs.NodeCache.{tptfs_init, tpt_nodeget}
use project_base_learning.Tptfs.NodeCache.Creation.{Outcome, IsObliging}
use project_base_learning.Tptfs.NodeCache.References.{tpt_nodeget-Outcome}
use project_base_learning.Tptfs.NodeCache.Hash.{IsCache, IsPlaced, count}
use project_base_learning.Tptfs.NodeCache.Kept.{IsUnlisted}
use project_base_learning.Tptfs.NodeCache.Kept.Nodeget.{IsSharing}
use project_base_learning.Tptfs.Tally.{Ends-run}
use project_base_learning.Tptfs.Invariant.{start, step, nodeget, Reachable-IsCache}
use project_base_learning.Tptfs.Tests.{fresh_state, one_list}

-- What a call does to the store.
data Effect : Type 0 where
  nothing empties : Effect
  mounts : ℕ → ℕ → Effect

abbrev effect : Call → Effect
effect malloc = empties
effect (insmntque1 vp mp) = mounts vp mp
effect _ = nothing

abbrev apply : Effect → Store → Store
apply nothing st = st
apply empties st = record st { hashtbl = λ i. [] }
apply (mounts vp mp) st = record st {
  hashtbl = λ i. [];
  vnodes = update st.vnodes vp (record (st.vnodes vp) { v_mount = mp });
}

abbrev answer : Call → ℕ
answer malloc = 50
answer (getnewvnode mp) = 60
answer _ = 0

abbrev busy : Kernel
busy c st = record { error = 0; out = answer c; slots = λ i. 0; store = apply (effect c) st }

apply-IsCache : (e : Effect) (st : Store) → IsCache one_list st → IsCache one_list (apply e st)
unfolding IsPlaced count
apply-IsCache nothing st cache = cache
apply-IsCache empties st cache = record { placed = λ i. tt; unique = λ i mp l. omega arith }
apply-IsCache (mounts vp mp) st cache = record { placed = λ i. tt; unique = λ i mp' l. omega arith }

apply-IsUnlisted :
    (e : Effect) (st : Store) (xp : ℕ)
    → IsUnlisted xp st
    → IsUnlisted xp (apply e st) × ((apply e st).nodes xp ≡ st.nodes xp)
unfolding count
apply-IsUnlisted nothing st xp unlisted = (unlisted, refl)
apply-IsUnlisted empties st xp unlisted = (λ i. refl, refl)
apply-IsUnlisted (mounts vp mp) st xp unlisted = (λ i. refl, refl)

busy-IsSharing : IsSharing one_list busy IsUnlisted
unfolding count
busy-IsSharing = record {
  cache = λ c. apply-IsCache (effect c);
  allocates = λ st. ((λ h. omega (arith, h)), λ i. refl);
  keeps = λ c. apply-IsUnlisted (effect c);
  writes = λ st xp vp x v unlisted. unlisted;
  unlisted = λ st xp unlisted. unlisted;
  vnode = λ mp st e h. omega (arith, h);
  mounts = λ vp mp st e. rw (eq→== vp vp refl) refl;
}

apply-data :
    (e : Effect) (st : Store) → (st.mounts 1).mnt_data ≢ 0 → ((apply e st).mounts 1).mnt_data ≢ 0
apply-data nothing st h = h
apply-data empties st h = h
apply-data (mounts vp mp) st h = h

busy-IsObliging : IsObliging busy 1 7
busy-IsObliging = record {
  allocates = λ st h. omega (arith, h);
  fresh = λ st h. omega (arith, h);
  untouched = λ xp vp st h. (refl, rw (eq→== vp vp refl) h);
  stays = λ c. apply-data (effect c);
}

abbrev first : State
first = tptfs_init one_list fresh_state

made :
    (r : ℕ × ℕ) × (t : State) × (tpt_nodeget one_list busy 1 7 first ≡ ok r t)
    × Outcome busy 1 7 first t r.0 r.1
made = Ends-run _ (tpt_nodeget one_list busy 1 7 first) (
    tpt_nodeget-Outcome one_list busy 1 7 first busy-IsObliging
      (unfold tptfs_init in λ h. omega (arith, h)))

Reachable-IsCache_example : IsCache one_list made.1.store
Reachable-IsCache_example =
    Reachable-IsCache one_list busy IsUnlisted busy-IsSharing made.1
      (step (start fresh_state) (nodeget 1 7 made.0 made.2))
