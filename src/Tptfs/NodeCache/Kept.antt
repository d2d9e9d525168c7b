-- ===== src/Tptfs/NodeCache/Kept.antt =====
-- The hash across writes to vnodes, to nodes and to a list.
pub mod Nodeget
pub mod Combined
use project_base_learning.Base.{
  ℕ, ◌+◌, ◌*◌, ◌≤◌, ◌≡◌, ◌≢◌, refl, sym, ap, ◌∙◌, fun_ext, Bool, true, ◌==◌, ◌&&◌, if◌then◌else◌,
  update, List, [], ◌∷◌, arith, ==→eq, eq→==, ne→==, Bool-cases, inl, inr, Run, ok, panic,
  out_of_fuel, Cmd, and_then,
}
use project_base_learning.Tptfs.{
  Vnode, TptNode, State, Store, Kernel, Call, malloc, insmntque1, getnewvnode,
}
use project_base_learning.Tptfs.NodeCache.{is_alias, list_remove, set_list, tpt_hashrem}
use project_base_learning.Tptfs.NodeCache.Hash.{
  IsCache, IsPlaced, count, set_list-IsCache, remove-IsPlaced, remove-count,
}
use project_base_learning.Tptfs.Tally.{once, Ends}

-- Where the run returns, the store has the property.
unfoldable pub Leaves : (Store → Type 0) → {A : Type 0} → Run State A → Type 0
Leaves P (ok a t) = P t.store
Leaves P panic = Unit
Leaves P out_of_fuel = Unit

pub Leaves-and_then :
    (P Q : Store → Type 0) {A B : Type 0} (r : Run State A) (k : A → Cmd State B)
    → Leaves P r
    → ((a : A) (t : State) → P t.store → Leaves Q (k a t))
    → Leaves Q (and_then r k)
unfolding Leaves
Leaves-and_then P Q (ok a t) k h g = g a t h
Leaves-and_then P Q panic k h g = tt
Leaves-and_then P Q out_of_fuel k h g = tt

pub Leaves-ok :
    (P : Store → Type 0) {A : Type 0} (a : A) (t : State) → P t.store → Leaves P (ok a t)
unfolding Leaves
Leaves-ok P a t p = p

pub Ends-Leaves :
    (P : Store → Type 0) {A : Type 0} (Q : A → State → Type 0) (r : Run State A)
    → Ends Q r
    → Leaves P r
    → Ends (λ a t. Q a t × P t.store) r
unfolding Leaves Ends
Ends-Leaves P Q (ok a t) q p = (q, p)
Ends-Leaves P Q panic q p = q
Ends-Leaves P Q out_of_fuel q p = q

pub Leaves-of :
    (P : Store → Type 0) {A : Type 0} (Q : A → State → Type 0) (r : Run State A)
    → Ends Q r
    → ((a : A) (t : State) → Q a t → P t.store)
    → Leaves P r
unfolding Leaves Ends
Leaves-of P Q (ok a t) q f = f a t q
Leaves-of P Q panic q f = tt
Leaves-of P Q out_of_fuel q f = tt

-- No list has the node.
abbrev pub IsUnlisted : ℕ → Store → Type 0
IsUnlisted xp st = (i : ℕ) → count (λ a. a == xp) (st.hashtbl i) ≡ 0

-- A write to a vnode that keeps its mount.
pub vnode-IsCache :
    (hash : ℕ → ℕ) (st : Store) (vp : ℕ) (v : Vnode)
    → IsCache hash st
    → v.v_mount ≡ (st.vnodes vp).v_mount
    → IsCache hash (record st { vnodes = update st.vnodes vp v })
vnode-IsCache hash st vp v cache same = record {
  placed = cache.placed;
  unique = λ i mp l.
      omega
        (arith, ap (λ test. count test (st.hashtbl i)) (fun_ext (alias mp l)), cache.unique i mp l);
}
  where
    alias :
        (mp l a : ℕ)
        → is_alias (record st { vnodes = update st.vnodes vp v }) mp l a ≡ is_alias st mp l a
    alias mp l a = elim (Bool-cases ((st.nodes a).tpt_vnode == vp)) [
      | inl e ↦ rw (e, same) (ground (arith, e))
      | inr e ↦ rw (e) refl
    ]

-- A write to a node that is in no list, and one that keeps the lower vnode and the vnode.
module _ (hash : ℕ → ℕ) (st : Store) (xp : ℕ) (x : TptNode) where
  abbrev written : Store
  written = record st { nodes = update st.nodes xp x }

  IsPlaced-kept :
      (i : ℕ) (hd : List ℕ)
      → count (λ a. a == xp) hd ≡ 0
      → IsPlaced hash st.nodes i hd
      → IsPlaced hash written.nodes i hd
  unfolding IsPlaced count once
  IsPlaced-kept i [] n p = tt
  IsPlaced-kept i (a ∷ hd) n (z, v, h, p) = elim (Bool-cases (a == xp)) [
    | inl e ↦ absurd (ground (arith, e, n))
    | inr e ↦ rw (e) (z, v, h, IsPlaced-kept i hd (ground (arith, e, n)) p)
  ]

  count-kept :
      (mp l : ℕ) (hd : List ℕ)
      → count (λ a. a == xp) hd ≡ 0
      → count (is_alias written mp l) hd ≡ count (is_alias st mp l) hd
  unfolding count once
  count-kept mp l [] n = refl
  count-kept mp l (a ∷ hd) n = elim (Bool-cases (a == xp)) [
    | inl e ↦ absurd (ground (arith, e, n))
    | inr e ↦ rw (e) (omega (arith, count-kept mp l hd (ground (arith, e, n))))
  ]

  pub unlisted-IsCache : IsCache hash st → IsUnlisted xp st → IsCache hash written
  unlisted-IsCache cache unlisted = record {
    placed = λ i. IsPlaced-kept i (st.hashtbl i) (unlisted i) (cache.placed i);
    unique =
        λ i mp l. omega (arith, count-kept mp l (st.hashtbl i) (unlisted i), cache.unique i mp l);
  }

  module _ (same_lower : x.tpt_lowervp ≡ (st.nodes xp).tpt_lowervp)
      (same_vnode : x.tpt_vnode ≡ (st.nodes xp).tpt_vnode) where
    fields-kept :
        (a : ℕ)
        → ((written.nodes a).tpt_lowervp ≡ (st.nodes a).tpt_lowervp)
          × ((written.nodes a).tpt_vnode ≡ (st.nodes a).tpt_vnode)
    fields-kept a = elim (Bool-cases (a == xp)) [
      | inl e ↦ rw (e, ==→eq a xp e) (same_lower, same_vnode)
      | inr e ↦ rw (e) (refl, refl)
    ]

    IsPlaced-same :
        (i : ℕ) (hd : List ℕ) → IsPlaced hash st.nodes i hd → IsPlaced hash written.nodes i hd
    unfolding IsPlaced
    IsPlaced-same i [] p = tt
    IsPlaced-same i (a ∷ hd) (z, v, h, p) = (
      z,
      omega (arith, v, (fields-kept a).1),
      ap hash (fields-kept a).0 ∙ h,
      IsPlaced-same i hd p,
    )

    pub fields-IsCache : IsCache hash st → IsCache hash written
    fields-IsCache cache = record {
      placed = λ i. IsPlaced-same i (st.hashtbl i) (cache.placed i);
      unique = λ i mp l. omega (
        arith,
        ap (λ test. count test (st.hashtbl i)) (fun_ext (alias mp l)),
        cache.unique i mp l,
      );
    }
      where
        alias : (mp l a : ℕ) → is_alias written mp l a ≡ is_alias st mp l a
        alias mp l a =
            ap (λ k. (k == l) && ((st.vnodes (written.nodes a).tpt_vnode).v_mount == mp))
              (fields-kept a).0
            ∙ ap (λ v. ((st.nodes a).tpt_lowervp == l) && ((st.vnodes v).v_mount == mp))
                (fields-kept a).1

-- `tpt_hashrem`, whether the node is listed or not.
pub hashrem-keeps :
    (hash : ℕ → ℕ) (xp : ℕ) (s : State)
    → IsCache hash s.store
    → Leaves (IsCache hash) (tpt_hashrem hash xp s)
unfolding tpt_hashrem Leaves
hashrem-keeps hash xp s cache =
    let i = hash (s.store.nodes xp).tpt_lowervp in
    let hd = s.store.hashtbl i in
    set_list-IsCache hash s i (list_remove xp hd) cache
      (remove-IsPlaced hash s.store.nodes (λ a. true) i xp hd (cache.placed i))
      (λ mp l.
        omega (
          arith,
          remove-count hash s.store.nodes (is_alias s.store mp l) xp hd,
          cache.unique i mp l,
        ))
