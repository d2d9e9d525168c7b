-- ===== src/Elephant/Str.antt =====
-- os-elephant/lib/string.c. A pointer is an address, NULL is 0, and `char` is signed, as on i386.
-- A loop that ends at a NUL byte takes fuel: one unit for each byte that it reads.
pub mod Block
pub mod Find
pub mod Compare
pub mod Copy
mod Tests
use project_base_learning.Base.{
  ℕ, zero, suc, ◌+◌, ◌-◌, ◌%◌, Bool, true, false, not, ◌&&◌, ◌||◌, ltb, ◌==◌, if◌then◌else◌, u8,
  u32, sub32, ℤ, pos, negsuc, Run, ok, out_of_fuel, Cmd, pure, ◌>>=◌, ◌>>◌, assert, get, modify,
  Mem, write,
}

-- The order and the equality of C's `char` values, and of a `char` with a `uint8_t`.
unfoldable pub char_lt : ℕ → ℕ → Bool
char_lt c d = ltb (u8 (c + 128)) (u8 (d + 128))

-- `*str == ch`: both are promoted to `int`, so a byte above 127 is negative and equals no `uint8_t`.
unfoldable pub char_is : ℕ → ℕ → Bool
char_is c ch = ltb c 128 && c == ch

abbrev is_null : ℕ → Bool
is_null p = p == 0

pub memset_loop : ℕ → ℕ → ℕ → Mem → Mem
memset_loop dst value zero m = m
memset_loop dst value (suc size) m = memset_loop (dst + 1) value size (write m dst value)

unfoldable pub memset : ℕ → ℕ → ℕ → Cmd Mem (Unit {0})
unfolding memset_loop
memset dst value size = do assert (not (is_null dst)); modify (memset_loop dst value size)

pub memcpy_loop : ℕ → ℕ → ℕ → Mem → Mem
memcpy_loop dst src zero m = m
memcpy_loop dst src (suc size) m = memcpy_loop (dst + 1) (src + 1) size (write m dst (m src))

pub memcpy : ℕ → ℕ → ℕ → Cmd Mem (Unit {0})
unfolding memcpy_loop
memcpy dst src size = do
  assert (not (is_null dst) && not (is_null src))
  modify (memcpy_loop dst src size)

pub memcmp_loop : ℕ → ℕ → ℕ → Mem → ℤ
memcmp_loop a b zero m = pos 0
memcmp_loop a b (suc size) m =
    if not (m a == m b)
    then (if char_lt (m b) (m a) then pos 1 else negsuc 0)
    else memcmp_loop (a + 1) (b + 1) size m

pub memcmp : ℕ → ℕ → ℕ → Cmd Mem ℤ
unfolding memcmp_loop char_lt
memcmp a b size = do
  assert (not (is_null a) || not (is_null b))
  m ← get
  pure (memcmp_loop a b size m)

-- `while ((*dst++ = *src++));`
pub strcpy_loop : ℕ → ℕ → ℕ → Cmd Mem (Unit {0})
strcpy_loop zero dst src m = out_of_fuel
strcpy_loop (suc fuel) dst src m =
    let rest = strcpy_loop fuel (dst + 1) (src + 1) (write m dst (m src)) in
    if m src == 0 then ok tt (write m dst (m src)) else rest

pub strcpy : ℕ → ℕ → ℕ → Cmd Mem ℕ
unfolding strcpy_loop
strcpy fuel dst src = do
  assert (not (is_null dst) && not (is_null src))
  strcpy_loop fuel dst src
  pure dst

-- `while (*p++);`: the pointer behind the NUL byte.
pub skip_loop : ℕ → ℕ → Cmd Mem ℕ
skip_loop zero p m = out_of_fuel
skip_loop (suc fuel) p m =
    let rest = skip_loop fuel (p + 1) m in if m p == 0 then ok (p + 1) m else rest

pub strlen : ℕ → ℕ → Cmd Mem ℕ
unfolding skip_loop
strlen fuel str = do
  assert (not (is_null str))
  p ← skip_loop fuel str
  pure (sub32 (sub32 p str) 1)

pub strcmp_loop : ℕ → ℕ → ℕ → Cmd Mem ℤ
strcmp_loop zero a b m = out_of_fuel
strcmp_loop (suc fuel) a b m =
    let rest = strcmp_loop fuel (a + 1) (b + 1) m in
    if not (m a == 0) && m a == m b
    then rest
    else ok
        (if char_lt (m a) (m b) then negsuc 0 else (if char_lt (m b) (m a) then pos 1 else pos 0)) m

pub strcmp : ℕ → ℕ → ℕ → Cmd Mem ℤ
unfolding strcmp_loop char_lt
strcmp fuel a b = do assert (not (is_null a) && not (is_null b)); strcmp_loop fuel a b

pub strchr_loop : ℕ → ℕ → ℕ → Cmd Mem ℕ
strchr_loop zero str ch m = out_of_fuel
strchr_loop (suc fuel) str ch m =
    let rest = strchr_loop fuel (str + 1) ch m in
    if m str == 0 then ok 0 m else (if char_is (m str) ch then ok str m else rest)

pub strchr : ℕ → ℕ → ℕ → Cmd Mem ℕ
unfolding strchr_loop char_is
strchr fuel str ch = do assert (not (is_null str)); strchr_loop fuel str ch

pub strrchr_loop : ℕ → ℕ → ℕ → ℕ → Cmd Mem ℕ
strrchr_loop zero str ch last_char m = out_of_fuel
strrchr_loop (suc fuel) str ch last_char m =
    let rest = strrchr_loop fuel (str + 1) ch (if char_is (m str) ch then str else last_char) m in
    if m str == 0 then ok last_char m else rest

pub strrchr : ℕ → ℕ → ℕ → Cmd Mem ℕ
unfolding strrchr_loop char_is
strrchr fuel str ch = do assert (not (is_null str)); strrchr_loop fuel str ch 0

pub strcat : ℕ → ℕ → ℕ → Cmd Mem ℕ
unfolding skip_loop strcpy_loop
strcat fuel dst src = do
  assert (not (is_null dst) && not (is_null src))
  str ← skip_loop fuel dst
  strcpy_loop fuel (str - 1) src
  pure dst

pub strchrs_loop : ℕ → ℕ → ℕ → ℕ → Cmd Mem ℕ
strchrs_loop zero p ch ch_cnt m = out_of_fuel
strchrs_loop (suc fuel) p ch ch_cnt m =
    let rest =
      strchrs_loop fuel (p + 1) ch (if char_is (m p) ch then u32 (ch_cnt + 1) else ch_cnt) m in
    if m p == 0 then ok ch_cnt m else rest

pub strchrs : ℕ → ℕ → ℕ → Cmd Mem ℕ
unfolding strchrs_loop char_is
strchrs fuel str ch = do assert (not (is_null str)); strchrs_loop fuel str ch 0
