-- ===== src/Tptfs/NodeCache/Map/Search.antt =====
-- What list_find finds before and after list_remove.
use project_base_learning.Base.{
  ℕ, ◌≤◌, ◌≡◌, refl, sym, ◌∙◌, arith, Bool, true, false, ◌==◌, List, [], ◌∷◌, ==→eq, eq→==,
  Bool-cases, inl, inr,
}
use project_base_learning.Tptfs.NodeCache.{list_find, list_remove, list_empty}
use project_base_learning.Tptfs.NodeCache.Hash.{count}
use project_base_learning.Tptfs.Tally.{once}

module _ (test : ℕ → Bool) (a : ℕ) (hd : List ℕ) where
  pub find-first : test a ≡ true → list_find test (a ∷ hd) ≡ a
  unfolding list_find
  find-first g = rw (g) refl

  pub find-rest : test a ≡ false → list_find test (a ∷ hd) ≡ list_find test hd
  unfolding list_find
  find-rest g = rw (g) refl

module _ (test : ℕ → Bool) (xp : ℕ) where
  -- Removing a node that fails the test changes no search.
  pub find-remove :
      (hd : List ℕ) → test xp ≡ false → list_find test (list_remove xp hd) ≡ list_find test hd
  unfolding list_find list_remove
  find-remove [] h = refl
  find-remove (a ∷ hd) h = elim (Bool-cases (a == xp)) [
    | inl e ↦ rw (e) (rw (==→eq a xp e, h) (find-remove hd h))
    | inr e ↦ elim (Bool-cases (test a)) [
      | inl g ↦ rw (e) (rw (g) refl)
      | inr g ↦ rw (e) (rw (g) (find-remove hd h))
    ]
  ]

  find-none : (hd : List ℕ) → count test hd ≡ 0 → list_find test (list_remove xp hd) ≡ 0
  unfolding list_find list_remove count once
  find-none [] h = refl
  find-none (a ∷ hd) h = elim (Bool-cases (test a)) [
    | inl g ↦ absurd (ground (arith, g, h))
    | inr g ↦ elim (Bool-cases (a == xp)) [
      | inl e ↦ rw (e) (find-none hd (ground (arith, g, h)))
      | inr e ↦ rw (e) (rw (g) (find-none hd (ground (arith, g, h))))
    ]
  ]

  -- The only node that passes the test is removed.
  pub find-removed :
      (hd : List ℕ)
      → list_find test hd ≡ xp
      → count test hd ≤ 1
      → list_find test (list_remove xp hd) ≡ 0
  unfolding list_find list_remove count once
  find-removed [] h one = refl
  find-removed (a ∷ hd) h one = elim (Bool-cases (test a)) [
    | inl g ↦
        rw (eq→== a xp (sym (find-first test a hd g) ∙ h)) (find-none hd (ground (arith, g, one)))
    | inr g ↦ elim (Bool-cases (a == xp)) [
      | inl e ↦ rw (e) (find-removed hd (sym (find-rest test a hd g) ∙ h) (ground (arith, g, one)))
      | inr e ↦
          rw (e)
            (rw (g) (find-removed hd (sym (find-rest test a hd g) ∙ h) (ground (arith, g, one))))
    ]
  ]

pub find-empty : (test : ℕ → Bool) (hd : List ℕ) → list_empty hd ≡ true → list_find test hd ≡ 0
unfolding list_find list_empty
find-empty test [] h = refl
find-empty test (a ∷ hd) h = absurd (ground (arith, h))
