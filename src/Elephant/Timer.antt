-- ===== src/Elephant/Timer.antt =====
-- os-elephant/device/timer.c: the bytes that program the counter of the PIT 8253.
pub mod Reload
mod Tests
use project_base_learning.Base.{ℕ, ◌+◌, ◌*◌, ◌/◌, ◌%◌, ◌^◌, List, [], ◌∷◌, u8, u16, bit_or}

abbrev pub input_frequency : ℕ
input_frequency = 1193180

abbrev pub irq0_frequency : ℕ
irq0_frequency = 100

-- `COUNTER0_VALUE`, cut to the `uint16_t` parameter where it is passed.
abbrev pub counter0_value : ℕ
counter0_value = input_frequency / irq0_frequency

-- The writes to ports, in order. The cast binds closer than `>>`, so the last byte is
-- `((uint8_t)counter_value) >> 8`.
pub frequency_set : (counter_port counter_no rwl counter_mode counter_value : ℕ) → List (ℕ × ℕ)
frequency_set counter_port counter_no rwl counter_mode counter_value =
    (0x43, u8 (bit_or (bit_or (counter_no * 2 ^ 6) (rwl * 2 ^ 4)) (counter_mode * 2 ^ 1)))
    ∷ (counter_port, u8 counter_value)
    ∷ (counter_port, u8 counter_value / 2 ^ 8)
    ∷ []

pub timer_init : List (ℕ × ℕ)
timer_init = frequency_set 0x40 0 3 2 (u16 counter0_value)
