-- ===== src/Elephant/Interrupt/Nested.antt =====
-- Critical sections inside one another: each sets a status, and sets the old one again at its end.
use project_base_learning.Base.{◌^◌, ◌<◌, ◌≡◌, refl, ap, ◌∙◌, arith}
use project_base_learning.Elephant.Interrupt.{
  Machine, IntrStatus, intr_on, intr_off, intr_set_status,
}
use project_base_learning.Elephant.Interrupt.Status.{
  intr_set_status-IsStatusSet, intr_set_status_restores,
}

-- A section that sets `want`, with the sections inside it, and those that follow it.
pub data Sections : Type 0 where
  nothing : Sections
  section : (want : IntrStatus) (inside after : Sections) → Sections

pub run : Sections → Machine → Machine
run nothing s = s
run (section want inside after) s =
    let (s1, old_status) = intr_set_status want s in
    let (s2, _) = intr_set_status old_status (run inside s1) in run after s2

eflags-lt :
    (want : IntrStatus) (s : Machine)
    → s.eflags < 2 ^ 32
    → (intr_set_status want s).0.eflags < 2 ^ 32
eflags-lt intr_on s fits =
    let set = intr_set_status-IsStatusSet intr_on s fits in omega (arith, set.2)
eflags-lt intr_off s fits =
    let set = intr_set_status-IsStatusSet intr_off s fits in omega (arith, set.2)

-- Sections that set either status, nested and in sequence as one likes, leave the machine as it was.
pub run-restores : (p : Sections) (s : Machine) → s.eflags < 2 ^ 32 → run p s ≡ s
unfolding run
run-restores nothing s fits = refl
run-restores (section want inside after) s fits =
    let (s1, old_status) = intr_set_status want s in
    let inner : run inside s1 ≡ s1 = run-restores inside s1 (eflags-lt want s fits) in
    let back : (intr_set_status old_status (run inside s1)).0 ≡ s =
      ap (λ t. (intr_set_status old_status t).0) inner ∙ intr_set_status_restores want s fits in
    ap (run after) back ∙ run-restores after s fits
