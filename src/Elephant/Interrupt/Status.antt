-- ===== src/Elephant/Interrupt/Status.antt =====
-- The interrupt flag: enable, disable, set and get.
use project_base_learning.Base.{
  ℕ, ◌+◌, ◌-◌, ◌*◌, ◌/◌, ◌%◌, ◌^◌, ◌<◌, ◌≡◌, refl, ap, sym, ◌⊎◌, inl, inr, arith, bit_and, bit_or,
}
use project_base_learning.Base.Bits.{
  bit_and_comm, bit_and_split, bit_and_high, bit_and_low, bit_and_one, bit_or_high, bit_or_one,
  bit_and-zero,
}
use project_base_learning.Elephant.Interrupt.{
  Machine, IntrStatus, intr_on, intr_off, eflags_if, sti, cli, intr_get_status, intr_enable,
  intr_disable, intr_set_status,
}

-- The interrupt flag is bit 9 of eflags.
abbrev pub if_bit : ℕ → ℕ
if_bit eflags = eflags / 512 % 2

test_if : (e : ℕ) → bit_and eflags_if e ≡ if_bit e * 512
test_if e = ground (
  arith,
  bit_and_comm 512 512 e (omega arith),
  bit_and_high 9 (e / 512) (e % 512) 1,
  bit_and_one (e / 512),
)

set_if : (e : ℕ) → bit_or e eflags_if ≡ e + (1 - if_bit e) * 512
set_if e = ground (arith, bit_or_high 9 (e / 512) (e % 512) 1, bit_or_one (e / 512))

clear_if : (e : ℕ) → e < 2 ^ 32 → bit_and e (2 ^ 32 - 1 - eflags_if) + if_bit e * 512 ≡ e
clear_if e fits = ground (
  arith,
  bit_and_split 9 (e / 512) (e % 512) 0x7f_fffe 0x1ff,
  bit_and_low 9 0 (e % 512),
  bit_and_split 1 (e / 512 / 2) (e / 512 % 2) 0x3f_ffff 0,
  bit_and_low 22 0 (e / 512 / 2),
  bit_and-zero (e / 512 % 2) (e / 512 % 2),
)

abbrev pub value_of : IntrStatus → ℕ
value_of intr_on = 1
value_of intr_off = 0

get_status-on : (s : Machine) → if_bit s.eflags ≡ 1 → intr_get_status s ≡ intr_on
unfolding intr_get_status
get_status-on s h = ground (arith, test_if s.eflags)

get_status-off : (s : Machine) → if_bit s.eflags ≡ 0 → intr_get_status s ≡ intr_off
unfolding intr_get_status
get_status-off s h = ground (arith, test_if s.eflags)

flag-cases : (e : ℕ) → (if_bit e ≡ 1) ⊎ (if_bit e ≡ 0)
flag-cases e = omega arith

module _ (s : Machine) where
  enable-on : if_bit s.eflags ≡ 1 → intr_set_status intr_on s ≡ (s, intr_on)
  enable-on h = unfold intr_set_status intr_enable in ground (arith, get_status-on s h)

  enable-off : if_bit s.eflags ≡ 0 → intr_set_status intr_on s ≡ (sti s, intr_off)
  enable-off h = unfold intr_set_status intr_enable in ground (arith, get_status-off s h)

  disable-on : if_bit s.eflags ≡ 1 → intr_set_status intr_off s ≡ (cli s, intr_on)
  disable-on h = unfold intr_set_status intr_disable in ground (arith, get_status-on s h)

  disable-off : if_bit s.eflags ≡ 0 → intr_set_status intr_off s ≡ (s, intr_off)
  disable-off h = unfold intr_set_status intr_disable in ground (arith, get_status-off s h)

-- What `intr_set_status` promises of its result `r`.
abbrev pub IsStatusSet : IntrStatus → Machine → Machine × IntrStatus → Type 0
IsStatusSet want s r =
    (r.1 ≡ intr_get_status s)
    × (intr_get_status r.0 ≡ want)
    × (r.0.eflags + if_bit s.eflags * 512 ≡ s.eflags + value_of want * 512)
    × (r.0 ≡ record s { eflags = r.0.eflags })

-- `intr_set_status` returns the status from before, leaves the machine with the status that was
-- asked for, and changes no other bit of eflags and nothing else.
pub intr_set_status-IsStatusSet :
    (want : IntrStatus) (s : Machine)
    → s.eflags < 2 ^ 32
    → IsStatusSet want s (intr_set_status want s)
intr_set_status-IsStatusSet intr_on s fits = elim (flag-cases s.eflags) [
  | inl e ↦ rw (enable-on s e) (sym (get_status-on s e), get_status-on s e, omega arith, refl)
  | inr e ↦ rw (enable-off s e) (
    sym (get_status-off s e),
    get_status-on (sti s) (omega (arith, set_if s.eflags)),
    omega (arith, set_if s.eflags),
    refl,
  )
]
intr_set_status-IsStatusSet intr_off s fits = elim (flag-cases s.eflags) [
  | inl e ↦ rw (disable-on s e) (
    sym (get_status-on s e),
    get_status-off (cli s) (omega (arith, clear_if s.eflags fits)),
    omega (arith, clear_if s.eflags fits),
    refl,
  )
  | inr e ↦ rw (disable-off s e) (sym (get_status-off s e), get_status-off s e, omega arith, refl)
]

pub intr_disable-off :
    (s : Machine) → s.eflags < 2 ^ 32 → intr_get_status (intr_disable s).0 ≡ intr_off
intr_disable-off s fits =
    let promised = intr_set_status-IsStatusSet intr_off s fits in
    unfold intr_set_status in promised.1

-- The same machine, where only eflags may differ.
eq_of_eflags : (s : Machine) (e : ℕ) → e ≡ s.eflags → record s { eflags = e } ≡ s
eq_of_eflags s e h = ap (λ f. record s { eflags = f }) h

-- A critical section restores the machine: after `intr_disable`, and likewise after `intr_enable`,
-- setting the status that it returned gives the machine back as it was.
pub intr_set_status_restores :
    (want : IntrStatus) (s : Machine)
    → s.eflags < 2 ^ 32
    → (intr_set_status (intr_set_status want s).1 (intr_set_status want s).0).0 ≡ s
intr_set_status_restores intr_on s fits = elim (flag-cases s.eflags) [
  | inl e ↦ rw (enable-on s e, enable-on s e)
  | inr e ↦
      rw (enable-off s e, disable-on (sti s) (omega (arith, set_if s.eflags)))
        (eq_of_eflags s _ (
          omega (arith, set_if s.eflags, clear_if (sti s).eflags (omega (arith, set_if s.eflags)))))
]
intr_set_status_restores intr_off s fits = elim (flag-cases s.eflags) [
  | inl e ↦
      rw (disable-on s e, enable-off (cli s) (omega (arith, clear_if s.eflags fits)))
        (eq_of_eflags s _ (omega (arith, clear_if s.eflags fits, set_if (cli s).eflags)))
  | inr e ↦ rw (disable-off s e, disable-off s e)
]
