-- ===== src/Tptfs/Reclaim/Leases/Tests.antt =====
-- Vnode 4 with the node 10 is opened for writing by two, on a lower vnode that counts and is open for
-- writing by three others.
use project_base_learning.Base.{
  ℕ, ◌+◌, ◌≡◌, refl, true, false, if◌then◌else◌, update, arith, Bool-cases, inl, inr, u32, ok, Run,
}
use project_base_learning.Tptfs.{Store, State, Kernel, Reply, Call, vop_add_writecount}
use project_base_learning.Tptfs.Bypass.{tpt_add_writecount}
use project_base_learning.Tptfs.Reclaim.{tpt_reclaim, is_negative}
use project_base_learning.Tptfs.Reclaim.Leases.{
  is_add, count_of, IsCounting, none, add, tpt_reclaim-tpt_add_writecount,
}
use project_base_learning.Tptfs.Tally.{Ends}
use project_base_learning.Tptfs.Tests.{fresh_state, one_list}

abbrev added_by : Call → ℕ
added_by (vop_add_writecount v n) = n
added_by _ = 0

abbrev reply : ℕ → Store → Reply
reply error st = record { error = error; out = 0; slots = λ i. 0; store = st }

-- ETXTBSY where the count is negative.
abbrev counts : ℕ → Store → Reply
counts n st =
    if is_negative (count_of 5 st)
    then reply 26 st
    else reply 0 (record st {
      vnodes = update st.vnodes 5 (record (st.vnodes 5) { v_writecount = u32 (count_of 5 st + n) });
    })

abbrev counting : Kernel
counting c st = if is_add 5 c then counts (added_by c) st else reply 0 st

refused : (n : ℕ) (st : Store) → is_negative (count_of 5 st) ≡ true → (counts n st).error ≡ 26
refused n st g = rw (g) refl

counted : (n : ℕ) (st : Store) → is_negative (count_of 5 st) ≡ false → (counts n st).error ≡ 0
counted n st g = rw (g) refl

-- What a read of the store gives that a new write count of vnode 5 does not change.
unchanged :
    (f : Store → ℕ) (c : Call) (st : Store)
    → f (counts (added_by c) st).store ≡ f st
    → f (counting c st).store ≡ f st
unchanged f c st h = elim (Bool-cases (is_add 5 c)) [ inl e ↦ rw (e) h | inr e ↦ rw (e) refl ]

counting-IsCounting : IsCounting counting 4 10 5
unfolding is_add
counting-IsCounting = record {
  adds = λ n st e. elim (Bool-cases (is_negative (count_of 5 st))) [
    | inl g ↦ absurd (omega (arith, e, refused n st g))
    | inr g ↦ rw (g) refl
  ];
  refuses = λ n st e. elim (Bool-cases (is_negative (count_of 5 st))) [
    | inl g ↦ rw (g) refl
    | inr g ↦ absurd (e (counted n st g))
  ];
  accepts = λ n st g. rw (g) refl;
  others = λ c st h. rw (h) refl;
  upper = λ c st. unchanged (count_of 4) c st (elim (Bool-cases (is_negative (count_of 5 st))) [
    | inl g ↦ rw (g) refl
    | inr g ↦ rw (g) refl
  ]);
  node = λ c st.
      unchanged (λ t. (t.vnodes 4).v_data) c st
        (elim (Bool-cases (is_negative (count_of 5 st))) [
          | inl g ↦ rw (g) refl
          | inr g ↦ rw (g) refl
        ]);
  lower = λ c st.
      unchanged (λ t. (t.nodes 10).tpt_lowervp) c st
        (elim (Bool-cases (is_negative (count_of 5 st))) [
          | inl g ↦ rw (g) refl
          | inr g ↦ rw (g) refl
        ]);
}

abbrev unopened : State
unopened = record fresh_state {
  store = record (fresh_state.store) {
    vnodes =
        update fresh_state.store.vnodes 4
          (record (fresh_state.store.vnodes 4) { v_writecount = 0 });
  };
}

abbrev state_of : Run State ℕ → State
state_of (ok r s) = s
state_of _ = unopened

opened : State
unfolding tpt_add_writecount
opened = state_of (tpt_add_writecount one_list counting 4 2 unopened)

tpt_reclaim-tpt_add_writecount_example :
    Ends (λ _ u. count_of 5 u.store ≡ 3) (tpt_reclaim one_list counting 4 opened)
unfolding tpt_add_writecount opened is_add
tpt_reclaim-tpt_add_writecount_example =
    tpt_reclaim-tpt_add_writecount one_list counting 4 10 5 unopened opened (λ h. omega (arith, h))
      (λ h. omega (arith, h)) counting-IsCounting refl refl refl (omega arith) (add 2 0 none refl)
      refl refl
