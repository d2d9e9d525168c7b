-- ===== src/Elephant/Timer/Reload.antt =====
-- The PIT 8253, and the value that its counter is loaded with.
use project_base_learning.Base.{
  ℕ, sym, ◌∙◌, zero, suc, ◌≢◌, ne→==, eq→==, ap, ◌+◌, ◌*◌, ◌/◌, ◌%◌, ◌^◌, ◌<◌, ◌≡◌, ◌↔◌, refl,
  arith, true, ◌==◌, ◌&&◌, if◌then◌else◌, List, [], ◌∷◌, Option, none, some, u8, bit_or,
}
use project_base_learning.Base.Bits.{all_below, all_below_sound}
use project_base_learning.Elephant.Timer.{frequency_set}

-- What a counter does with a byte on its port: nothing before it has a mode; else the byte is the
-- low or the high half of the value, or the two come one after the other.
pub data Access : Type 0 where
  unset low_byte high_byte low_then_high : Access

-- A counter: how it takes its value, the low half where only that has come, and the value that it is
-- loaded with.
pub record Counter : Type 0 where
  pub access : Access
  pub low : Option ℕ
  pub count : Option ℕ

-- Bits 4 and 5 of a control word; 0 latches the counter, and leaves it as it is.
unfoldable pub take_control : (rw_bits : ℕ) → Counter → Counter
take_control zero c = c
take_control (suc zero) c = record { access = low_byte; low = none; count = none }
take_control (suc (suc zero)) c = record { access = high_byte; low = none; count = none }
take_control (suc (suc (suc _))) c = record { access = low_then_high; low = none; count = none }

unfoldable pub take_half : Option ℕ → (byte : ℕ) → Counter → Counter
take_half none byte c = record c { low = some byte }
take_half (some l) byte c = record c { low = none; count = some (l + byte * 2 ^ 8) }

unfoldable pub take_byte : Access → (byte : ℕ) → Counter → Counter
take_byte unset byte c = c
take_byte low_byte byte c = record c { count = some byte }
take_byte high_byte byte c = record c { count = some (byte * 2 ^ 8) }
take_byte low_then_high byte c = take_half c.low byte c

-- A write to a port, as counter `n` sees it: the control word names the counter in its top two bits,
-- and the counters have the ports from 0x40 on.
unfoldable pub pit_write : (n port byte : ℕ) → Counter → Counter
pit_write n port byte c =
    if (port == 0x43) && (byte / 2 ^ 6 == n)
    then take_control (byte / 2 ^ 4 % 4) c
    else (if port == 0x40 + n then take_byte c.access byte c else c)

unfoldable pub pit_writes : (n : ℕ) → List (ℕ × ℕ) → Counter → Counter
pit_writes n [] c = c
pit_writes n ((port, byte) ∷ rest) c = pit_writes n rest (pit_write n port byte c)

abbrev pub control_word : (counter mode : ℕ) → ℕ
control_word counter mode = u8 (bit_or (bit_or (counter * 2 ^ 6) (3 * 2 ^ 4)) (mode * 2 ^ 1))

control_table :
    all_below 3 (λ n.
      all_below 8
        (λ mode. control_word n mode / 2 ^ 6 == n && control_word n mode / 2 ^ 4 % 4 == 3))
    ≡ true
unfolding all_below
control_table = refl

control-bits :
    (n mode : ℕ)
    → n < 3
    → mode < 8
    → (control_word n mode / 2 ^ 6 ≡ n) × (control_word n mode / 2 ^ 4 % 4 ≡ 3)
control-bits n mode hn hm =
    let both = all_below_sound 8 _ mode (all_below_sound 3 _ n control_table hn) hm in
    ground (arith, both)

-- A counter that waits for two bytes.
abbrev ready : Counter
ready = record { access = low_then_high; low = none; count = none }

pit_write-control :
    (n byte : ℕ) (c : Counter)
    → byte / 2 ^ 6 ≡ n
    → byte / 2 ^ 4 % 4 ≡ 3
    → pit_write n 0x43 byte c ≡ ready
unfolding pit_write take_control
pit_write-control n byte c top rw_bits = rw (top, eq→== n n refl, rw_bits) refl

pit_write-data :
    (n byte : ℕ) (c : Counter) → n < 3 → pit_write n (0x40 + n) byte c ≡ take_byte c.access byte c
unfolding pit_write
pit_write-data n byte c hn =
    rw (ne→== (0x40 + n) 0x43 (λ e. omega (arith, e, hn)), eq→== (0x40 + n) (0x40 + n) refl) refl

pit_write-other_control :
    (k byte : ℕ) (d : Counter) → byte / 2 ^ 6 ≢ k → k < 3 → pit_write k 0x43 byte d ≡ d
unfolding pit_write
pit_write-other_control k byte d other hk =
    rw (ne→== _ k other, ne→== 0x43 (0x40 + k) (λ e. omega (arith, e, hk))) refl

pit_write-other_data :
    (n k byte : ℕ) (d : Counter) → n < 3 → k ≢ n → pit_write k (0x40 + n) byte d ≡ d
unfolding pit_write
pit_write-other_data n k byte d hn other =
    rw
      (
        ne→== (0x40 + n) 0x43 (λ e. omega (arith, e, hn)),
        ne→== (0x40 + n) (0x40 + k) (λ e. other (omega (arith, e))),
      )
      refl

counter_loaded :
    (n mode value : ℕ) (c : Counter)
    → n < 3
    → mode < 8
    → (pit_writes n (frequency_set (0x40 + n) n 3 mode value) c).count ≡ some (value % 256)
unfolding pit_writes frequency_set take_byte take_half
counter_loaded n mode value c hn hm =
    let (top, rw_bits) = control-bits n mode hn hm in
    rw (pit_write-control n (control_word n mode) c top rw_bits) (
      rw (pit_write-data n (u8 value) ready hn) (
        rw
          (pit_write-data n (u8 value / 2 ^ 8)
            (record { access = low_then_high; low = some (u8 value); count = none }) hn)
          (ap some (omega arith))))

counter_kept :
    (n mode value k : ℕ) (d : Counter)
    → n < 3
    → mode < 8
    → k < 3
    → k ≢ n
    → pit_writes k (frequency_set (0x40 + n) n 3 mode value) d ≡ d
unfolding pit_writes frequency_set
counter_kept n mode value k d hn hm hk other =
    let (top, _) = control-bits n mode hn hm in
    rw
      (
        pit_write-other_control k (control_word n mode) d (λ e. other (sym e ∙ top)) hk,
        pit_write-other_data n k (u8 value) d hn other,
        pit_write-other_data n k (u8 value / 2 ^ 8) d hn other,
      )
      refl

abbrev value_or_zero : Option ℕ → ℕ
value_or_zero none = 0
value_or_zero (some a) = a

value_of_some : (a b : ℕ) → some a ≡ some b → a ≡ b
value_of_some a b e = ap value_or_zero e

-- With READ_WRITE_LATCH, that is 3 for "low byte, then high byte", `frequency_set` loads the counter
-- with the remainder of `counter_value` by 256, whatever its high byte is and whatever the counter
-- did before; so with `counter_value` itself exactly when that is below 256. The other counters stay
-- as they are. Conditions: one of the three counters with its own port, a mode of three bits, and
-- another of the three counters.
pub pit_writes-frequency_set :
    (n mode value k : ℕ) (c d : Counter)
    → n < 3
    → mode < 8
    → k < 3
    → k ≢ n
    → let writes = frequency_set (0x40 + n) n 3 mode value in
      ((pit_writes n writes c).count ≡ some (value % 256))
      × (((pit_writes n writes c).count ≡ some value) ↔ (value < 256))
      × (pit_writes k writes d ≡ d)
pit_writes-frequency_set n mode value k c d hn hm hk other =
    let loaded = counter_loaded n mode value c hn hm in
    (
      loaded,
      (
        λ e. omega (arith, value_of_some (value % 256) value (sym loaded ∙ e)),
        λ lt. loaded ∙ ap some (omega (arith, lt)),
      ),
      counter_kept n mode value k d hn hm hk other,
    )
