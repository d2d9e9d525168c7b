-- ===== src/Tptfs/Tally.antt =====
-- How often a run made a call, for the rules on references, holds and locks.
use project_base_learning.Base.{
  subst, ℕ, ◌+◌, ◌≡◌, Bool, true, false, ◌==◌, List, [], ◌∷◌, Run, ok, panic, Cmd, and_then, ◌∙◌,
  arith, out_of_fuel, refl,
}
use project_base_learning.Tptfs.{
  Call, vref, vrele, vput, vunref, vhold, vholdnz, vdrop, vi_lock, vi_unlock, vfs_ref, vfs_rel,
  State,
}

-- The run returns, and what it returns has the property.
unfoldable pub Ends : {A : Type 0} → (A → State → Type 0) → Run State A → Type 0
Ends P (ok a s) = P a s
Ends P panic = ⊥
Ends P out_of_fuel = ⊥

unfoldable pub once : Bool → ℕ
once true = 1
once false = 0

unfoldable pub tally : (Call → ℕ) → List Call → ℕ
tally f [] = 0
tally f (c ∷ cs) = f c + tally f cs

-- References to a vnode that a call takes and gives up.
unfoldable pub takes : ℕ → Call → ℕ
takes l (vref v) = once (v == l)
takes l _ = 0

unfoldable pub gives : ℕ → Call → ℕ
gives l (vrele v) = once (v == l)
gives l (vput v) = once (v == l)
gives l (vunref v) = once (v == l)
gives l _ = 0

unfoldable pub holds : ℕ → Call → ℕ
holds l (vhold v) = once (v == l)
holds l (vholdnz v) = once (v == l)
holds l _ = 0

unfoldable pub drops : ℕ → Call → ℕ
drops l (vdrop v) = once (v == l)
drops l _ = 0

-- References to a mount.
unfoldable pub mount_takes : ℕ → Call → ℕ
mount_takes m (vfs_ref n) = once (n == m)
mount_takes m _ = 0

unfoldable pub mount_gives : ℕ → Call → ℕ
mount_gives m (vfs_rel n) = once (n == m)
mount_gives m _ = 0

unfoldable pub interlocks : ℕ → Call → ℕ
interlocks l (vi_lock v) = once (v == l)
interlocks l _ = 0

unfoldable pub interunlocks : ℕ → Call → ℕ
interunlocks l (vi_unlock v) = once (v == l)
interunlocks l _ = 0

-- From `s` to `t` as many calls of the one kind were made as of the other.
abbrev pub IsEven : (Call → ℕ) → (Call → ℕ) → State → State → Type 0
IsEven f g s t = tally f t.calls + tally g s.calls ≡ tally g t.calls + tally f s.calls

pub Ends-map :
    {A : Type 0} {P Q : A → State → Type 0} (r : Run State A)
    → ((a : A) (t : State) → P a t → Q a t)
    → Ends P r
    → Ends Q r
unfolding Ends
Ends-map (ok a t) f p = f a t p
Ends-map panic f p = elim p [ ]
Ends-map out_of_fuel f p = elim p [ ]

pub Ends-both :
    {A : Type 0} (P Q : A → State → Type 0) (r : Run State A)
    → Ends P r
    → Ends Q r
    → Ends (λ a t. P a t × Q a t) r
unfolding Ends
Ends-both P Q (ok a t) u v = (u, v)
Ends-both P Q panic u v = u
Ends-both P Q out_of_fuel u v = u

-- What the run returns.
pub Ends-run :
    {A : Type 0} (P : A → State → Type 0) (r : Run State A)
    → Ends P r
    → (a : A) × (t : State) × (r ≡ ok a t) × P a t
unfolding Ends
Ends-run P (ok a t) p = (a, t, refl, p)
Ends-run P panic p = elim p [ ]
Ends-run P out_of_fuel p = elim p [ ]

pub Ends-ok :
    {A : Type 0} (P : A → State → Type 0) (r : Run State A) (a : A) (t : State)
    → Ends P r
    → r ≡ ok a t
    → P a t
Ends-ok P r a t p e = unfold Ends in subst (Ends P) e p

-- A run that starts after the calls `cs` makes none that `f` counts, wherever it ends.
unfoldable pub Stays : (Call → ℕ) → {A : Type 0} → List Call → Run State A → Type 0
Stays f cs (ok a t) = tally f t.calls ≡ tally f cs
Stays f cs panic = Unit
Stays f cs out_of_fuel = Unit

Stays-same :
    (f : Call → ℕ) {A : Type 0} (ds cs : List Call) (r : Run State A)
    → tally f ds ≡ tally f cs
    → Stays f ds r
    → Stays f cs r
unfolding Stays
Stays-same f ds cs (ok a u) h g = g ∙ h
Stays-same f ds cs panic h g = tt
Stays-same f ds cs out_of_fuel h g = tt

-- One call that is not counted.
pub Stays-∷ :
    (f : Call → ℕ) {A : Type 0} (c : Call) (cs : List Call) (r : Run State A)
    → f c ≡ 0
    → Stays f (c ∷ cs) r
    → Stays f cs r
unfolding Stays tally
Stays-∷ f c cs (ok a t) z h = omega (arith, z, h)
Stays-∷ f c cs panic z h = tt
Stays-∷ f c cs out_of_fuel z h = tt

pub Stays-and_then :
    (f : Call → ℕ) {A B : Type 0} (cs : List Call) (r : Run State A) (k : A → Cmd State B)
    → Stays f cs r
    → ((a : A) (t : State) → Stays f t.calls (k a t))
    → Stays f cs (and_then r k)
unfolding Stays
Stays-and_then f cs (ok a t) k h g = Stays-same f t.calls cs (k a t) h (g a t)
Stays-and_then f cs panic k h g = tt
Stays-and_then f cs out_of_fuel k h g = tt

pub Ends-and_then :
    {A B : Type 0} (P : A → State → Type 0) (Q : B → State → Type 0) (r : Run State A)
    (k : A → Cmd State B)
    → Ends P r
    → ((a : A) (t : State) → P a t → Ends Q (k a t))
    → Ends Q (and_then r k)
unfolding Ends
Ends-and_then P Q (ok a t) k p g = g a t p
Ends-and_then P Q panic k p g = elim p [ ]
Ends-and_then P Q out_of_fuel k p g = elim p [ ]

-- A run that starts after the calls `cs` makes `n` that `f` counts, if it ends.
unfoldable pub Adds : (Call → ℕ) → {A : Type 0} → ℕ → List Call → Run State A → Type 0
Adds f n cs (ok a t) = tally f t.calls ≡ n + tally f cs
Adds f n cs panic = Unit
Adds f n cs out_of_fuel = Unit

pub Adds-Stays :
    (f : Call → ℕ) {A : Type 0} (n : ℕ) (cs ds : List Call) (r : Run State A)
    → tally f ds ≡ n + tally f cs
    → Stays f ds r
    → Adds f n cs r
unfolding Adds Stays
Adds-Stays f n cs ds (ok a t) h g = g ∙ h
Adds-Stays f n cs ds panic h g = tt
Adds-Stays f n cs ds out_of_fuel h g = tt

pub Adds-more :
    (f : Call → ℕ) {A : Type 0} (m n : ℕ) (cs ds : List Call) (r : Run State A)
    → tally f ds ≡ m + tally f cs
    → Adds f n ds r
    → Adds f (m + n) cs r
unfolding Adds
Adds-more f m n cs ds (ok a t) h g = omega (arith, h, g)
Adds-more f m n cs ds panic h g = tt
Adds-more f m n cs ds out_of_fuel h g = tt

pub Adds-and_then :
    (f : Call → ℕ) {A B : Type 0} (m n : ℕ) (cs ds : List Call) (r : Run State A)
    (k : A → Cmd State B)
    → tally f ds ≡ m + tally f cs
    → Stays f ds r
    → ((a : A) (t : State) → Adds f n t.calls (k a t))
    → Adds f (m + n) cs (and_then r k)
unfolding Stays
Adds-and_then f m n cs ds (ok a t) k h g j = Adds-more f m n cs t.calls (k a t) (g ∙ h) (j a t)
Adds-and_then f m n cs ds panic k h g j = unfold Adds in tt
Adds-and_then f m n cs ds out_of_fuel k h g j = unfold Adds in tt

Adds-same :
    (f : Call → ℕ) {A : Type 0} (n : ℕ) (cs ds : List Call) (r : Run State A)
    → tally f ds ≡ tally f cs
    → Adds f n ds r
    → Adds f n cs r
unfolding Adds
Adds-same f n cs ds (ok a t) h g = omega (arith, h, g)
Adds-same f n cs ds panic h g = tt
Adds-same f n cs ds out_of_fuel h g = tt

-- A first part that makes none of the calls.
pub Adds-after :
    (f : Call → ℕ) {A B : Type 0} (n : ℕ) (cs ds : List Call) (r : Run State A)
    (k : A → Cmd State B)
    → tally f ds ≡ tally f cs
    → Stays f ds r
    → ((a : A) (t : State) → Adds f n t.calls (k a t))
    → Adds f n cs (and_then r k)
unfolding Stays
Adds-after f n cs ds (ok a t) k h g j = Adds-same f n cs t.calls (k a t) (g ∙ h) (j a t)
Adds-after f n cs ds panic k h g j = unfold Adds in tt
Adds-after f n cs ds out_of_fuel k h g j = unfold Adds in tt

-- A run that returns and makes as many calls of the one kind as of the other.
pub Ends-IsEven :
    {A : Type 0} (f g : Call → ℕ) (m n : ℕ) (s : State) (r : Run State A) (P : A → State → Type 0)
    → m ≡ n
    → Ends P r
    → Adds f m s.calls r
    → Adds g n s.calls r
    → Ends (λ a t. IsEven f g s t) r
unfolding Ends Adds
Ends-IsEven f g m n s (ok a t) P e p h j = omega (arith, h, j, e)
Ends-IsEven f g m n s panic P e p h j = p
Ends-IsEven f g m n s out_of_fuel P e p h j = p
