-- ===== src/Tptfs/NodeCache/Map/Calls.antt =====
-- What one call does to the map.
use project_base_learning.Base.{
  ℕ, ◌≡◌, refl, sym, ap, ◌∙◌, subst, arith, true, false, ◌==◌, List, ◌∷◌, ==→eq, eq→==, Bool-cases,
  inl, inr,
}
use project_base_learning.Tptfs.{State, Store}
use project_base_learning.Tptfs.NodeCache.{
  tpt_hashget, tpt_hashins, tpt_hashrem, is_alias, set_list, list_find, list_remove, list_empty,
}
use project_base_learning.Tptfs.NodeCache.Hash.{IsCache, tpt_hashins-IsCache}
use project_base_learning.Tptfs.NodeCache.Kept.{
  Leaves, Ends-Leaves, Leaves-and_then, Leaves-ok, hashrem-keeps,
}
use project_base_learning.Tptfs.Tally.{Ends, Ends-map, Ends-both}
use project_base_learning.Tptfs.NodeCache.Map.{
  HashOp, find, insert, remove, perform, Aliases, put, mount_of, on_map, IsValid, StandsFor,
  Follows,
}
use project_base_learning.Tptfs.NodeCache.Map.Search.{
  find-first, find-rest, find-remove, find-removed, find-empty,
}

alias-lower :
    (st : Store) (mp l xp : ℕ) → is_alias st mp l xp ≡ true → (st.nodes xp).tpt_lowervp ≡ l
alias-lower st mp l xp e = ground (arith, e)

alias-mount :
    (st : Store) (mp l xp : ℕ)
    → is_alias st mp l xp ≡ true
    → (st.vnodes (st.nodes xp).tpt_vnode).v_mount ≡ mp
alias-mount st mp l xp e = ground (arith, e)

module _ (hash : ℕ → ℕ) (s : State) (a : Aliases) (stands : StandsFor hash s.store a) where
  -- A new list, in which searches for the node's lower vnode find `new` and others what they did.
  put-StandsFor :
      (xp new : ℕ) (hd : List ℕ)
      → ((mp l : ℕ) → is_alias s.store mp l xp ≡ true → list_find (is_alias s.store mp l) hd ≡ new)
      → ((mp l : ℕ)
          → is_alias s.store mp l xp ≡ false
          → list_find (is_alias s.store mp l) hd
            ≡ list_find
                (is_alias s.store mp l)
                (s.store.hashtbl (hash (s.store.nodes xp).tpt_lowervp)))
      → StandsFor hash
          (set_list (hash (s.store.nodes xp).tpt_lowervp) hd s).store
          (put a (mount_of s.store.nodes s.store.vnodes xp) (s.store.nodes xp).tpt_lowervp new)
  put-StandsFor xp new hd found kept mp l =
      let lowervp = (s.store.nodes xp).tpt_lowervp in
      elim (Bool-cases (is_alias s.store mp l xp)) [
        | inl e ↦
            let same = ap hash (sym (alias-lower s.store mp l xp e)) in
            rw (e, eq→== (hash l) (hash lowervp) same) (found mp l e)
        | inr e ↦ elim (Bool-cases (hash l == hash lowervp)) [
          | inl g ↦
              rw (e, g)
                (kept mp l e
                  ∙ ap (λ i. list_find (is_alias s.store mp l) (s.store.hashtbl i))
                      (sym (==→eq (hash l) (hash lowervp) g))
                  ∙ stands mp l)
          | inr g ↦ rw (e, g) (stands mp l)
        ]
      ]

  find-Follows :
      (mp lowervp : ℕ)
      → Ends
          (Follows hash s.store.nodes s.store.vnodes
            (on_map s.store.nodes s.store.vnodes (find mp lowervp) a))
          (tpt_hashget hash mp lowervp s)
  unfolding tpt_hashget on_map Ends
  find-Follows mp lowervp =
      let hd = s.store.hashtbl (hash lowervp) in
      elim (Bool-cases (list_empty hd)) [
        | inl e ↦ rw (e) (rw (sym (stands mp lowervp) ∙ find-empty _ hd e) refl, stands, refl, refl)
        | inr e ↦ rw (e) (
            rw (stands mp lowervp) (elim (Bool-cases (a mp lowervp == 0)) [
              | inl z ↦ rw (z) (refl, stands, refl, refl)
              | inr z ↦ rw (z) (refl, stands, refl, refl)
            ]))
      ]

  insert-Follows :
      (mp xp : ℕ)
      → mount_of s.store.nodes s.store.vnodes xp ≡ mp
      → Ends
          (Follows hash s.store.nodes s.store.vnodes
            (on_map s.store.nodes s.store.vnodes (insert mp xp) a))
          (tpt_hashins hash mp xp s)
  unfolding tpt_hashins on_map Ends
  insert-Follows mp xp m =
      let lowervp = (s.store.nodes xp).tpt_lowervp in
      let hd = s.store.hashtbl (hash lowervp) in
      rw (stands mp lowervp) (elim (Bool-cases (a mp lowervp == 0)) [
        | inl z ↦ rw (z) (
          refl,
          subst
              (λ q. StandsFor hash (set_list (hash lowervp) (xp ∷ hd) s).store (put a q lowervp xp))
              m
              (put-StandsFor xp xp (xp ∷ hd) (λ mp' l e. find-first _ xp hd e)
                (λ mp' l e. find-rest _ xp hd e)),
          refl,
          refl,
        )
        | inr z ↦ rw (z) (refl, stands, refl, refl)
      ])

  remove-Follows :
      (xp : ℕ)
      → IsCache hash s.store
      → IsValid s.store.nodes s.store.vnodes (remove xp) a
      → Ends
          (Follows hash s.store.nodes s.store.vnodes
            (on_map s.store.nodes s.store.vnodes (remove xp) a))
          (perform hash (remove xp) s)
  unfolding tpt_hashrem on_map Ends IsValid perform
  remove-Follows xp cache (n, there) =
      let lowervp = (s.store.nodes xp).tpt_lowervp in
      let mp = mount_of s.store.nodes s.store.vnodes xp in
      let hd = s.store.hashtbl (hash lowervp) in
      (
        refl,
        put-StandsFor xp 0 (list_remove xp hd)
            (λ mp' l e.
              find-removed (is_alias s.store mp' l) xp hd (same mp' l e)
                (cache.unique (hash lowervp) mp' l))
            (λ mp' l e. find-remove (is_alias s.store mp' l) xp hd e),
        refl,
        refl,
      )
    where
      same :
          (mp' l : ℕ)
          → is_alias s.store mp' l xp ≡ true
          → list_find
              (is_alias s.store mp' l)
              (s.store.hashtbl (hash (s.store.nodes xp).tpt_lowervp))
            ≡ xp
      same mp' l e =
          let lowervp = (s.store.nodes xp).tpt_lowervp in
          let mp = mount_of s.store.nodes s.store.vnodes xp in
          let hd = s.store.hashtbl (hash lowervp) in
          subst (λ q. list_find (is_alias s.store q l) hd ≡ xp) (alias-mount s.store mp' l xp e)
            (subst (λ k. list_find (is_alias s.store mp k) hd ≡ xp) (alias-lower s.store mp' l xp e)
              (stands mp lowervp ∙ there))

  find-keeps :
      (mp lowervp : ℕ)
      → IsCache hash s.store
      → Leaves (IsCache hash) (tpt_hashget hash mp lowervp s)
  unfolding tpt_hashget
  find-keeps mp lowervp cache =
      let hd = s.store.hashtbl (hash lowervp) in
      elim (Bool-cases (list_empty hd)) [
        | inl e ↦ rw (e) (Leaves-ok (IsCache hash) _ _ cache)
        | inr e ↦ elim (Bool-cases (list_find (is_alias s.store mp lowervp) hd == 0)) [
          | inl z ↦ rw (e, z) (Leaves-ok (IsCache hash) _ _ cache)
          | inr z ↦ rw (e, z) (Leaves-ok (IsCache hash) _ _ cache)
        ]
      ]

  pub perform-Follows :
      (op : HashOp)
      → IsCache hash s.store
      → IsValid s.store.nodes s.store.vnodes op a
      → Ends
          (λ r t.
            Follows hash s.store.nodes s.store.vnodes (on_map s.store.nodes s.store.vnodes op a) r t
            × IsCache hash t.store)
          (perform hash op s)
  unfolding perform IsValid
  perform-Follows (find mp lowervp) cache valid =
      Ends-Leaves (IsCache hash) _ _ (find-Follows mp lowervp) (find-keeps mp lowervp cache)
  perform-Follows (insert mp xp) cache (n, v, m) =
      Ends-both _ _ (tpt_hashins hash mp xp s) (insert-Follows mp xp m) (
        Ends-map (tpt_hashins hash mp xp s) (λ r t p. p.0)
          (tpt_hashins-IsCache hash mp xp s cache n v m))
  perform-Follows (remove xp) cache valid =
      Ends-Leaves (IsCache hash) _ _ (remove-Follows xp cache valid) (
        Leaves-and_then _ _ (tpt_hashrem hash xp s) _ (hashrem-keeps hash xp s cache)
          (λ x t c. Leaves-ok (IsCache hash) 0 t c))
