-- ===== src/Tptfs/NodeCache/Hash.antt =====
-- The hash in order: at most one node for a lower vnode in a mount.
use project_base_learning.Base.{
  ℕ, ◌+◌, ◌*◌, ◌↔◌, ◌≤◌, ◌≡◌, ◌≢◌, refl, sym, ap, ◌∙◌, ◌⊎◌, Bool, true, ◌==◌, if◌then◌else◌, List,
  [], ◌∷◌, arith, eq→==, ne→==, ==→eq, Bool-cases, inl, inr,
}
use project_base_learning.Tptfs.{TptNode, State, Store}
use project_base_learning.Tptfs.NodeCache.{
  tpt_hashins, tpt_hashrem, is_alias, list_find, list_remove, set_list,
}
use project_base_learning.Tptfs.Tally.{Ends, once}

unfoldable pub count : (ℕ → Bool) → List ℕ → ℕ
count test [] = 0
count test (a ∷ hd) = once (test a) + count test hd

-- The nodes of list `i` are nodes, have a vnode and belong there.
unfoldable pub IsPlaced : (hash : ℕ → ℕ) → (ℕ → TptNode) → ℕ → List ℕ → Type 0
IsPlaced hash nodes i [] = Unit
IsPlaced hash nodes i (a ∷ hd) =
    (a ≢ 0)
    × ((nodes a).tpt_vnode ≢ 0)
    × (hash (nodes a).tpt_lowervp ≡ i)
    × IsPlaced hash nodes i hd

pub record IsCache (hash : ℕ → ℕ) (st : Store) : Type 0 where
  pub placed : (i : ℕ) → IsPlaced hash st.nodes i (st.hashtbl i)
  pub unique : (i mp lowervp : ℕ) → count (is_alias st mp lowervp) (st.hashtbl i) ≤ 1

module _ (hash : ℕ → ℕ) (nodes : ℕ → TptNode) (test : ℕ → Bool) where
  find-cases :
      (i : ℕ) (hd : List ℕ)
      → IsPlaced hash nodes i hd
      → ((list_find test hd ≡ 0) × (count test hd ≡ 0))
        ⊎ ((list_find test hd ≢ 0)
            × ((nodes (list_find test hd)).tpt_vnode ≢ 0)
            × (1 ≤ count test hd))
  unfolding list_find count IsPlaced once
  find-cases i [] p = inl (refl, refl)
  find-cases i (a ∷ hd) (n, v, h, p) = elim (Bool-cases (test a)) [
    | inl e ↦ rw (e) (inr (n, v, omega arith))
    | inr e ↦ rw (e) (ground (arith, find-cases i hd p))
  ]

  pub remove-IsPlaced :
      (i xp : ℕ) (hd : List ℕ)
      → IsPlaced hash nodes i hd
      → IsPlaced hash nodes i (list_remove xp hd)
  unfolding list_remove IsPlaced
  remove-IsPlaced i xp [] p = tt
  remove-IsPlaced i xp (a ∷ hd) (n, v, h, p) = elim (Bool-cases (a == xp)) [
    | inl e ↦ rw (e) (remove-IsPlaced i xp hd p)
    | inr e ↦ rw (e) (n, v, h, remove-IsPlaced i xp hd p)
  ]

  pub remove-count :
      (xp : ℕ) (hd : List ℕ)
      → count test (list_remove xp hd) + once (test xp) * count (λ a. a == xp) hd ≡ count test hd
  unfolding list_remove count once
  remove-count xp [] = omega arith
  remove-count xp (a ∷ hd) = elim (Bool-cases (a == xp)) [
    | inl e ↦ rw (e, ==→eq a xp e) (grind (arith, remove-count xp hd))
    | inr e ↦ rw (e) (grind (arith, remove-count xp hd))
  ]

remove-count_one :
    (hash : ℕ → ℕ) (nodes : ℕ → TptNode) (test : ℕ → Bool) (xp : ℕ) (hd : List ℕ)
    → test xp ≡ true
    → count test (list_remove xp hd) + count (λ a. a == xp) hd ≡ count test hd
unfolding once
remove-count_one hash nodes test xp hd h =
    let same =
      ap (λ b. count test (list_remove xp hd) + once b * count (λ a. a == xp) hd) (sym h) in
    omega (arith, same, remove-count hash nodes test xp hd)

alias-same :
    (st : Store) (mp lowervp a : ℕ)
    → is_alias st mp lowervp a ≡ true
    → ((st.nodes a).tpt_lowervp ≡ lowervp) × ((st.vnodes (st.nodes a).tpt_vnode).v_mount ≡ mp)
alias-same st mp lowervp a h = ground arith

pub set_list-IsCache :
    (hash : ℕ → ℕ) (s : State) (i : ℕ) (hd : List ℕ)
    → IsCache hash s.store
    → IsPlaced hash s.store.nodes i hd
    → ((mp lowervp : ℕ) → count (is_alias s.store mp lowervp) hd ≤ 1)
    → IsCache hash (set_list i hd s).store
set_list-IsCache hash s i hd cache placed unique = record {
  placed = λ j. elim (Bool-cases (j == i)) [
    | inl e ↦ rw (e, ==→eq j i e) placed
    | inr e ↦ rw (e) (cache.placed j)
  ];
  unique = λ j mp lowervp. elim (Bool-cases (j == i)) [
    | inl e ↦ rw (e) (unique mp lowervp)
    | inr e ↦ rw (e) (cache.unique j mp lowervp)
  ];
}

-- `tpt_hashins` keeps the hash in order. It returns 0 exactly when the lower vnode had no node in
-- the mount, and the hash then finds the new one; else it returns the vnode of the node that is
-- there, which the hash still finds. Condition: the node is filled and its vnode is in the mount.
pub tpt_hashins-IsCache :
    (hash : ℕ → ℕ) (mp xp : ℕ) (s : State)
    → IsCache hash s.store
    → xp ≢ 0
    → (s.store.nodes xp).tpt_vnode ≢ 0
    → (s.store.vnodes (s.store.nodes xp).tpt_vnode).v_mount ≡ mp
    → let lowervp = (s.store.nodes xp).tpt_lowervp in
      Ends
        (λ r t.
          IsCache hash t.store
          × ((r ≡ 0) ↔ (count (is_alias s.store mp lowervp) (s.store.hashtbl (hash lowervp)) ≡ 0))
          × ((t.store.nodes (
                list_find (is_alias t.store mp lowervp) (t.store.hashtbl (hash lowervp)))).tpt_vnode
              ≡ (if r == 0 then (s.store.nodes xp).tpt_vnode else r)))
        (tpt_hashins hash mp xp s)
unfolding tpt_hashins Ends
tpt_hashins-IsCache hash mp xp s cache n v m =
    let lowervp = (s.store.nodes xp).tpt_lowervp in
    let i = hash lowervp in
    let hd = s.store.hashtbl i in
    let test = is_alias s.store mp lowervp in
    elim (find-cases hash s.store.nodes test i hd (cache.placed i)) [
      | inl (z, c) ↦ rw (z) (
        set_list-IsCache hash s i (xp ∷ hd) cache (unfold IsPlaced in (n, v, refl, cache.placed i))
            (λ mp' lowervp'. elim (Bool-cases (is_alias s.store mp' lowervp' xp)) [
              | inl e ↦
                  let (l, q) = alias-same s.store mp' lowervp' xp e in
                  let none =
                    ap (λ k. count (is_alias s.store mp' k) hd) (sym l)
                    ∙ ap (λ k. count (is_alias s.store k lowervp) hd) (sym q ∙ m)
                    ∙ c in
                  unfold count once in rw (e) (omega (arith, none))
              | inr e ↦ unfold count once in rw (e) (omega (arith, cache.unique i mp' lowervp'))
            ]),
        (λ x. c, λ x. refl),
        (unfold list_find in rw (eq→== i i refl, eq→== lowervp lowervp refl, eq→== _ mp m) refl),
      )
      | inr (nz, vn, al) ↦
          rw (ne→== _ 0 nz)
            (cache, (λ x. ground (arith, vn x), λ x. omega arith), rw (ne→== _ 0 vn) refl)
    ]

-- `tpt_hashrem` keeps the hash in order, and the list has no node for that lower vnode and mount
-- any more; for every other lower vnode and mount it has as many nodes as before. Condition: the node is in its list.
pub tpt_hashrem-IsCache :
    (hash : ℕ → ℕ) (mp xp : ℕ) (s : State)
    → IsCache hash s.store
    → (s.store.vnodes (s.store.nodes xp).tpt_vnode).v_mount ≡ mp
    → count (λ a. a == xp) (s.store.hashtbl (hash (s.store.nodes xp).tpt_lowervp)) ≢ 0
    → Ends
        (λ _ t.
          IsCache hash t.store
          × (list_find
                (is_alias t.store mp (s.store.nodes xp).tpt_lowervp)
                (t.store.hashtbl (hash (s.store.nodes xp).tpt_lowervp))
              ≡ 0)
          × ((mp' lowervp' : ℕ)
              → count
                    (is_alias t.store mp' lowervp')
                    (t.store.hashtbl (hash (s.store.nodes xp).tpt_lowervp))
                  + once (is_alias s.store mp' lowervp' xp)
                    * count (λ a. a == xp) (s.store.hashtbl (hash (s.store.nodes xp).tpt_lowervp))
                ≡ count
                    (is_alias s.store mp' lowervp')
                    (s.store.hashtbl (hash (s.store.nodes xp).tpt_lowervp))))
        (tpt_hashrem hash xp s)
unfolding tpt_hashrem Ends
tpt_hashrem-IsCache hash mp xp s cache m there =
    let lowervp = (s.store.nodes xp).tpt_lowervp in
    let i = hash lowervp in
    let hd = s.store.hashtbl i in
    let kept = list_remove xp hd in
    let placed =
      remove-IsPlaced hash s.store.nodes (is_alias s.store mp lowervp) i xp hd (cache.placed i) in
    (
      set_list-IsCache hash s i kept cache placed (λ mp' l'. omega (
        arith,
        remove-count hash s.store.nodes (is_alias s.store mp' l') xp hd,
        cache.unique i mp' l',
      )),
      elim (find-cases hash s.store.nodes (is_alias s.store mp lowervp) i kept placed) [
        | inl (z, _) ↦ rw (eq→== i i refl) z
        | inr (_, _, one) ↦
            let alias : is_alias s.store mp lowervp xp ≡ true =
              rw (eq→== lowervp lowervp refl, eq→== _ mp m) refl in
            let counted =
              remove-count_one hash s.store.nodes (is_alias s.store mp lowervp) xp hd alias in
            let absurd : ⊥ = omega (arith, counted, cache.unique i mp lowervp, there, one) in
            elim absurd [ ]
      ],
      λ mp' l'.
          rw (eq→== i i refl) (remove-count hash s.store.nodes (is_alias s.store mp' l') xp hd),
    )
