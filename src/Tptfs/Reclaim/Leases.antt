-- ===== src/Tptfs/Reclaim/Leases.antt =====
-- The write count that a vnode of the layer passes on to its lower vnode, until tpt_reclaim.
mod Tests
use project_base_learning.Base.{
  ℕ, update, ◌+◌, ◌-◌, ◌%◌, ◌^◌, ◌<◌, ◌≡◌, ◌≢◌, refl, sym, ◌∙◌, subst, Bool, true, false, not, ◌==◌,
  ◌&&◌, arith, ==→eq, eq→==, ne→==, Bool-cases, inl, inr, u32, Run, ok,
}
use project_base_learning.Tptfs.{
  State, Store, Kernel, Call, lock_own, vop_add_writecount, vput, vunref,
}
use project_base_learning.Tptfs.NodeCache.{tpt_hashrem, list_remove}
use project_base_learning.Tptfs.Bypass.{tpt_add_writecount}
use project_base_learning.Tptfs.Reclaim.{tpt_reclaim, reclaim_writecount, is_negative}
use project_base_learning.Tptfs.Tally.{Ends, Ends-and_then, Ends-ok}

-- The call changes the write count of the vnode.
unfoldable pub is_add : ℕ → Call → Bool
is_add l (vop_add_writecount v n) = v == l
is_add l _ = false

abbrev pub count_of : ℕ → Store → ℕ
count_of vp st = (st.vnodes vp).v_writecount

-- What the layer relies on for the vnode `vp` with its node `xp` and its lower vnode `l`, which nobody
-- else opens: VOP_ADD_WRITECOUNT adds, or refuses and adds nothing, and refuses only where the count
-- is negative; no other call changes it; and no call changes the upper vnode's count or its node.
pub record IsCounting (kernel : Kernel) (vp xp l : ℕ) : Type 0 where
  pub adds :
      (n : ℕ) (st : Store)
      → (kernel (vop_add_writecount l n) st).error ≡ 0
      → count_of l (kernel (vop_add_writecount l n) st).store ≡ u32 (count_of l st + n)
  pub refuses :
      (n : ℕ) (st : Store)
      → (kernel (vop_add_writecount l n) st).error ≢ 0
      → count_of l (kernel (vop_add_writecount l n) st).store ≡ count_of l st
  pub accepts :
      (n : ℕ) (st : Store)
      → is_negative (count_of l st) ≡ false
      → (kernel (vop_add_writecount l n) st).error ≡ 0
  pub others :
      (c : Call) (st : Store) → is_add l c ≡ false → count_of l (kernel c st).store ≡ count_of l st
  pub upper : (c : Call) (st : Store) → count_of vp (kernel c st).store ≡ count_of vp st
  pub node :
      (c : Call) (st : Store) → ((kernel c st).store.vnodes vp).v_data ≡ (st.vnodes vp).v_data
  pub lower :
      (c : Call) (st : Store)
      → ((kernel c st).store.nodes xp).tpt_lowervp ≡ (st.nodes xp).tpt_lowervp

-- The lower vnode's count is `base` and what the upper vnode has.
pub record IsLeased (vp xp l base : ℕ) (st : Store) : Type 0 where
  pub node : (st.vnodes vp).v_data ≡ xp
  pub alias : (st.nodes xp).tpt_lowervp ≡ l
  pub leased : count_of l st ≡ u32 (base + count_of vp st)
  pub word : count_of vp st < 2 ^ 32

module _ (hash : ℕ → ℕ) (kernel : Kernel) (vp xp l base : ℕ) (x : xp ≢ 0) (distinct : l ≢ vp)
    (counting : IsCounting kernel vp xp l) where
  add-IsLeased :
      (inc : ℕ) (s : State)
      → IsLeased vp xp l base s.store
      → Ends (λ r t. IsLeased vp xp l base t.store) (tpt_add_writecount hash kernel vp inc s)
  unfolding tpt_add_writecount Ends
  add-IsLeased inc s h =
      let c = vop_add_writecount l inc in
      let after = kernel c s.store in
      elim (Bool-cases (after.error == 0)) [
        | inl e ↦
            rw (h.node, ne→== xp 0 x, h.alias, e)
              (record {
                node = rw (eq→== vp vp refl) (counting.node c s.store ∙ h.node);
                alias = counting.lower c s.store ∙ h.alias;
                leased =
                    rw (count_of, eq→== vp vp refl, ne→== l vp distinct)
                      (counting.adds inc s.store (==→eq _ 0 e)
                        ∙ omega (arith, h.leased, counting.upper c s.store));
                word = rw (count_of, eq→== vp vp refl) (omega arith);
              })
        | inr e ↦
            rw (h.node, ne→== xp 0 x, h.alias, e)
              (record {
                node = counting.node c s.store ∙ h.node;
                alias = counting.lower c s.store ∙ h.alias;
                leased = omega (
                  arith,
                  h.leased,
                  counting.upper c s.store,
                  counting.refuses inc s.store (λ z. ground (arith, e, z)),
                );
                word = omega (arith, h.word, counting.upper c s.store);
              })
      ]

  -- `reclaim_writecount` on what tpt_reclaim has left of the vnode.
  undo-ends :
      (s : State)
      → count_of l s.store ≡ u32 (base + count_of vp s.store)
      → base < 2 ^ 32
      → is_negative (count_of vp s.store) ≡ false
      → is_negative (count_of l s.store) ≡ false
      → Ends (λ _ t. count_of l t.store ≡ base) (reclaim_writecount hash kernel vp l s)
  unfolding reclaim_writecount Ends
  undo-ends s leased small positive lower =
      let w = count_of vp s.store in
      let n = u32 (2 ^ 32 - w) in
      elim (Bool-cases (w == 0)) [
        | inl z ↦ rw (positive, z) (omega (arith, leased, ==→eq _ 0 z))
        | inr z ↦
            rw (positive, z)
              (counting.adds n s.store (counting.accepts n s.store lower)
                ∙ ground (arith, leased, small, positive))
      ]

  reclaim-ends :
      (s : State)
      → IsLeased vp xp l base s.store
      → base < 2 ^ 32
      → is_negative (count_of vp s.store) ≡ false
      → is_negative (count_of l s.store) ≡ false
      → Ends (λ e t. count_of l t.store ≡ base) (tpt_reclaim hash kernel vp s)
  unfolding tpt_reclaim tpt_hashrem Ends is_add
  reclaim-ends s h small positive lower =
      let hd = s.store.hashtbl (hash l) in
      let removed = record (s.store) {
        hashtbl = update s.store.hashtbl (hash l) (list_remove xp hd);
      } in
      let same = counting.upper (lock_own vp) removed in
      let same' = counting.others (lock_own vp) removed refl in
      rw (h.node, ne→== xp 0 x, h.alias)
        (Ends-and_then (λ a t. count_of l t.store ≡ base) _ (reclaim_writecount hash kernel vp l _)
          _
          (undo-ends _
            (rw (count_of, eq→== vp vp refl, ne→== l vp distinct)
              (omega (arith, same, same', h.leased)))
            small (rw (count_of, eq→== vp vp refl) (rw (same) positive))
            (rw (count_of, ne→== l vp distinct) (rw (same') lower)))
          (λ a t kept. elim (Bool-cases (t.store.nodes xp).nullv_nounlock) [
            | inl e ↦ rw (ne→== xp 0 x, e) (counting.others (vunref l) t.store refl ∙ kept)
            | inr e ↦ rw (ne→== xp 0 x, e) (counting.others (vput l) t.store refl ∙ kept)
          ]))

module _ (hash : ℕ → ℕ) (kernel : Kernel) (vp : ℕ) where
  -- Calls of tpt_add_writecount on the vnode, whatever they return.
  pub data AreAdded (s : State) : State → Type 0 where
    none : AreAdded s s
    add :
        {t u : State} (inc r : ℕ)
        → AreAdded s t
        → tpt_add_writecount hash kernel vp inc t ≡ ok r u
        → AreAdded s u

  module _ (xp l base : ℕ) (x : xp ≢ 0) (distinct : l ≢ vp)
      (counting : IsCounting kernel vp xp l) where
    added-IsLeased :
        (s t : State) → AreAdded s t → IsLeased vp xp l base s.store → IsLeased vp xp l base t.store
    added-IsLeased s t none h = h
    added-IsLeased s t (add {t = between} inc r before runs) h =
        Ends-ok (λ _ u. IsLeased vp xp l base u.store) _ r t
          (add-IsLeased hash kernel vp xp l base x distinct counting inc between
            (added-IsLeased s between before h))
          runs

  -- Whatever sequence of `tpt_add_writecount` a vnode sees that starts with a write count of 0, and
  -- whichever of them the lower layer refuses, `tpt_reclaim` returns and leaves the lower vnode with
  -- the write count that it had at first. Conditions: VOP_ADD_WRITECOUNT of the lower layer adds, or
  -- refuses, but only where the count is negative, and nothing else changes the counts and the node;
  -- and at the end neither count is negative.
  pub tpt_reclaim-tpt_add_writecount :
      (xp l : ℕ) (s t : State)
      → xp ≢ 0
      → l ≢ vp
      → IsCounting kernel vp xp l
      → (s.store.vnodes vp).v_data ≡ xp
      → (s.store.nodes xp).tpt_lowervp ≡ l
      → count_of vp s.store ≡ 0
      → count_of l s.store < 2 ^ 32
      → AreAdded s t
      → is_negative (count_of vp t.store) ≡ false
      → is_negative (count_of l t.store) ≡ false
      → Ends (λ _ u. count_of l u.store ≡ count_of l s.store) (tpt_reclaim hash kernel vp t)
  tpt_reclaim-tpt_add_writecount xp l s t x distinct counting node alias unopened word added =
      reclaim-ends hash kernel vp xp l (count_of l s.store) x distinct counting t
        (added-IsLeased xp l (count_of l s.store) x distinct counting s t added (record {
          node = node;
          alias = alias;
          leased = omega (arith, unopened, word);
          word = omega (arith, unopened);
        }))
        word
