-- ===== src/Elephant/Timer/Tests.antt =====
-- The bytes for 100 interrupts a second.
use project_base_learning.Base.{◌≡◌, refl, ◌↔◌, ◌<◌, ◌%◌, [], ◌∷◌, none, some, arith}
use project_base_learning.Elephant.Timer.{timer_init, frequency_set}
use project_base_learning.Elephant.Timer.Reload.{
  Counter, unset, take_control, take_half, take_byte, pit_write, pit_writes,
  pit_writes-frequency_set,
}

abbrev fresh : Counter
fresh = record { access = unset; low = none; count = none }

timer_init_writes : timer_init ≡ (0x43, 0x34) ∷ (0x40, 0x9b) ∷ (0x40, 0) ∷ []
unfolding timer_init frequency_set
timer_init_writes = refl

timer_init_count : (pit_writes 0 timer_init fresh).count ≡ some 155
unfolding timer_init frequency_set pit_writes pit_write take_control take_byte take_half
timer_init_count = refl

pit_writes-frequency_set_example :
    ((pit_writes 0 (frequency_set 0x40 0 3 2 11931) fresh).count ≡ some (11931 % 256))
    × (((pit_writes 0 (frequency_set 0x40 0 3 2 11931) fresh).count ≡ some 11931) ↔ (11931 < 256))
    × (pit_writes 1 (frequency_set 0x40 0 3 2 11931) fresh ≡ fresh)
pit_writes-frequency_set_example =
    pit_writes-frequency_set 0 2 11931 1 fresh fresh (omega arith) (omega arith) (omega arith)
      (λ h. omega (arith, h))
