-- ===== src/Tptfs/Bypass/Balance.antt =====
-- The references and the arguments before and after tpt_bypass.
use project_base_learning.Base.{
  ℕ, suc, ◌+◌, ◌≡◌, ◌≢◌, refl, sym, ◌∙◌, ap, ◌⊎◌, Bool, true, false, not, ◌==◌, ◌&&◌, ◌||◌,
  if◌then◌else◌, List, [], ◌∷◌, arith, ne→==, Bool-cases, inl, inr,
}
use project_base_learning.Tptfs.{State, Store, Kernel, vop_islocked}
use project_base_learning.Tptfs.NodeCache.{islocked_exclusive}
use project_base_learning.Tptfs.Bypass.{
  Args, Slot, map_vp, map_vps, move_lock, unmap_vp, unmap_vps, bypass_call, bypass_vpp, tpt_bypass,
  is_tpt, first_arg,
}
use project_base_learning.Tptfs.Tally.{Ends, Ends-and_then, tally, takes, gives, once, IsEven}

-- The arguments are vnodes with their nodes, and only the first one has to be there.
unfoldable pub IsAlive : Store → (first : Bool) → List (ℕ × Bool) → Type 0
IsAlive st first [] = Unit
IsAlive st first ((vp, _) ∷ rest) =
    (((vp ≡ 0) × (first ≡ false)) ⊎ ((vp ≢ 0) × ((st.vnodes vp).v_data ≢ 0)))
    × IsAlive st false rest

-- The references to `l` that are taken for one slot, and for all of them.
kept_by : ℕ → Slot → ℕ
kept_by l slot = if slot.old == 0 then 0 else (if slot.willrele then once (slot.old == l) else 0)

kept : ℕ → List Slot → ℕ
kept l [] = 0
kept l (slot ∷ slots) = kept_by l slot + kept l slots

-- The argument is mapped to the lower layer.
abbrev pub is_mapped : Store → (first : Bool) → ℕ → Bool
is_mapped st first vp = not (not first && ((vp == 0) || not (is_tpt (st.vnodes vp).v_op)))

-- The slots remember the arguments that were mapped.
AreMapped : Store → (first : Bool) → List (ℕ × Bool) → List Slot → Type 0
AreMapped st first [] [] = Unit
AreMapped st first ((vp, _) ∷ vps) (slot ∷ slots) =
    (slot.old ≡ (if is_mapped st first vp then vp else 0)) × AreMapped st false vps slots
AreMapped st first _ _ = ⊥

-- Each argument that was mapped has its old value.
unfoldable pub AreRestored : Store → (first : Bool) → List (ℕ × Bool) → List ℕ → Type 0
AreRestored st first [] [] = Unit
AreRestored st first ((vp, _) ∷ vps) (arg ∷ args) =
    ((is_mapped st first vp ≡ false) ⊎ (arg ≡ vp)) × AreRestored st false vps args
AreRestored st first _ _ = ⊥

module _ (l : ℕ) where
  map_vp-ends :
      (first : Bool) (vp : ℕ) (willrele : Bool) (s : State)
      → ((vp ≡ 0) × (first ≡ false)) ⊎ ((vp ≢ 0) × ((s.store.vnodes vp).v_data ≢ 0))
      → Ends
          (λ slot t.
            (t.store ≡ s.store)
            × (tally (takes l) t.calls ≡ kept_by l slot + tally (takes l) s.calls)
            × (tally (gives l) t.calls ≡ tally (gives l) s.calls)
            × (slot.old ≡ (if is_mapped s.store first vp then vp else 0)))
          (map_vp first vp willrele s)
  unfolding map_vp Ends tally takes gives kept_by
  map_vp-ends first vp willrele s (inl (z, f)) = rw (z, f) (refl, omega arith, refl, refl)
  map_vp-ends first vp true s (inr (n, d)) =
      elim (Bool-cases (not first && ((vp == 0) || not (is_tpt (s.store.vnodes vp).v_op)))) [
        | inl e ↦ rw (e) (refl, omega arith, refl, refl)
        | inr e ↦ rw (e, ne→== _ 0 d, ne→== _ 0 n) (refl, omega arith, omega arith, refl)
      ]
  map_vp-ends first vp false s (inr (n, d)) =
      elim (Bool-cases (not first && ((vp == 0) || not (is_tpt (s.store.vnodes vp).v_op)))) [
        | inl e ↦ rw (e) (refl, omega arith, refl, refl)
        | inr e ↦ rw (e, ne→== _ 0 d, ne→== _ 0 n) (refl, omega arith, omega arith, refl)
      ]

  map_vps-ends :
      (first : Bool) (vps : List (ℕ × Bool)) (st : Store) (s : State)
      → s.store ≡ st
      → IsAlive st first vps
      → Ends
          (λ slots t.
            (tally (takes l) t.calls ≡ kept l slots + tally (takes l) s.calls)
            × (tally (gives l) t.calls ≡ tally (gives l) s.calls)
            × AreMapped st first vps slots)
          (map_vps first vps s)
  unfolding map_vps Ends IsAlive kept AreMapped
  map_vps-ends first [] st s e a = (omega arith, refl, tt)
  map_vps-ends first ((vp, willrele) ∷ rest) st s e (a, b) =
      Ends-and_then _ _ (map_vp first vp willrele s) _ (map_vp-ends first vp willrele s (rw (e) a))
        (λ slot t (same, h, g, m).
          Ends-and_then _ _ (map_vps false rest t) _ (map_vps-ends false rest st t (same ∙ e) b)
            (λ slots u (i, j, k). (omega (arith, h, i), omega (arith, g, j), (rw (sym e) m, k))))

module _ (kernel : Kernel) (l : ℕ) where
  move_lock-ends :
      (lvp old : ℕ) (s : State)
      → Ends
          (λ _ t.
            (tally (takes l) t.calls ≡ tally (takes l) s.calls)
            × (tally (gives l) t.calls ≡ tally (gives l) s.calls))
          (move_lock kernel lvp old s)
  unfolding move_lock Ends tally takes gives
  move_lock-ends lvp old s = elim (Bool-cases (lvp == 0)) [
    | inl e ↦ rw (e) (refl, refl)
    | inr e ↦
        let locked = kernel (vop_islocked lvp) s.store in
        elim (Bool-cases (
          (locked.error == islocked_exclusive)
          && not ((locked.store.vnodes old).v_vnlock == (locked.store.vnodes lvp).v_vnlock))) [
            | inl g ↦ rw (e, g) (omega arith, omega arith)
            | inr g ↦ rw (e, g) (omega arith, omega arith)
          ]
  ]

  unmap_vp-ends :
      (lvp : ℕ) (slot : Slot) (s : State)
      → Ends
          (λ arg t.
            (arg ≡ (if slot.old == 0 then lvp else slot.old))
            × (tally (takes l) t.calls ≡ tally (takes l) s.calls)
            × (tally (gives l) t.calls ≡ kept_by l slot + tally (gives l) s.calls))
          (unmap_vp kernel lvp slot s)
  unfolding unmap_vp Ends tally takes gives kept_by
  unmap_vp-ends lvp slot s = elim (Bool-cases (slot.old == 0)) [
    | inl e ↦ rw (e) (refl, refl, omega arith)
    | inr e ↦ rw (e) (
        Ends-and_then _ _ (move_lock kernel lvp slot.old s) _ (move_lock-ends lvp slot.old s)
          (λ _ t (h, g). elim (Bool-cases slot.willrele) [
            | inl w ↦ rw (w) (refl, omega (arith, h), omega (arith, g))
            | inr w ↦ rw (w) (refl, h, omega (arith, g))
          ]))
  ]

  -- The values of the arguments after the call.
  restored : (after : ℕ → ℕ) (i : ℕ) → List Slot → List ℕ
  restored after i [] = []
  restored after i (slot ∷ slots) =
      (if slot.old == 0 then after i else slot.old) ∷ restored after (suc i) slots

  restored-AreRestored :
      (st : Store) (after : ℕ → ℕ) (i : ℕ) (first : Bool) (vps : List (ℕ × Bool))
      (slots : List Slot)
      → IsAlive st first vps
      → AreMapped st first vps slots
      → AreRestored st first vps (restored after i slots)
  unfolding restored IsAlive AreMapped AreRestored
  restored-AreRestored st after i first [] [] a m = tt
  restored-AreRestored st after i first [] (_ ∷ _) a m = elim m [ ]
  restored-AreRestored st after i first (_ ∷ _) [] a m = elim m [ ]
  restored-AreRestored st after i first ((vp, _) ∷ vps) (slot ∷ slots) (a, b) (m, n) = (
    elim (Bool-cases (is_mapped st first vp)) [
      | inr e ↦ inl e
      | inl e ↦ elim a [
        | inl (z, f) ↦ inl (rw (z, f) refl)
        | inr (nz, d) ↦ inr (rw (m, e, ne→== vp 0 nz) refl)
      ]
    ],
    restored-AreRestored st after (suc i) false vps slots b n,
  )

  unmap_vps-ends :
      (after : ℕ → ℕ) (i : ℕ) (slots : List Slot) (s : State)
      → Ends
          (λ args t.
            (args ≡ restored after i slots)
            × (tally (takes l) t.calls ≡ tally (takes l) s.calls)
            × (tally (gives l) t.calls ≡ kept l slots + tally (gives l) s.calls))
          (unmap_vps kernel after i slots s)
  unfolding unmap_vps Ends kept restored
  unmap_vps-ends after i [] s = (refl, refl, omega arith)
  unmap_vps-ends after i (slot ∷ slots) s =
      Ends-and_then _ _ (unmap_vp kernel (after i) slot s) _ (unmap_vp-ends (after i) slot s)
        (λ arg t (e, h, g).
          Ends-and_then _ _ (unmap_vps kernel after (suc i) slots t) _
            (unmap_vps-ends after (suc i) slots t)
            (λ args u (f, j, k). (rw (e, f) refl, omega (arith, h, j), omega (arith, g, k))))

module _ (hash : ℕ → ℕ) (kernel : Kernel) (l : ℕ) where
  call-ends :
      (slots : List Slot) (s : State)
      → Ends
          (λ _ t.
            (tally (takes l) t.calls ≡ tally (takes l) s.calls)
            × (tally (gives l) t.calls ≡ tally (gives l) s.calls))
          (bypass_call hash kernel slots s)
  unfolding bypass_call Ends tally takes gives
  call-ends slots s = elim (Bool-cases (first_arg slots == 0)) [
    | inl e ↦ rw (e) (refl, refl)
    | inr e ↦ rw (e) (omega arith, omega arith)
  ]

  -- `tpt_bypass` always returns; it gives up each reference that it takes for an operation that
  -- releases its arguments, of every vnode as many as it takes; and each argument that was mapped
  -- has its old value again; all this whatever the lower layer answers and stores. Conditions: the
  -- first argument is a vnode of the layer, the others are vnodes or NULL, none is reclaimed at the
  -- start, and the operation returns no vnode.
  pub tpt_bypass-AreRestored :
      (ap : Args) (s : State)
      → IsAlive s.store true ap.a_vps
      → ap.has_vpp ≡ false
      → Ends
          (λ r t. IsEven (takes l) (gives l) s t × AreRestored s.store true ap.a_vps r.args)
          (tpt_bypass hash kernel ap s)
  unfolding tpt_bypass bypass_vpp Ends
  tpt_bypass-AreRestored ap s alive none =
      Ends-and_then _ _ (map_vps true ap.a_vps s) _
        (map_vps-ends l true ap.a_vps s.store s refl alive)
        (λ slots t (h, g, mapped).
          Ends-and_then _ _ (bypass_call hash kernel slots t) _ (call-ends slots t)
            (λ called u (i, j).
              Ends-and_then _
                (λ r v. IsEven (takes l) (gives l) s v × AreRestored s.store true ap.a_vps r.args)
                (unmap_vps kernel called.2 0 slots u) _ (unmap_vps-ends kernel l called.2 0 slots u)
                (λ args v (e, k, m). rw (none) (
                  omega (arith, h, g, i, j, k, m),
                  rw (e) (
                      restored-AreRestored kernel l s.store called.2 0 true ap.a_vps slots alive
                        mapped),
                ))))
