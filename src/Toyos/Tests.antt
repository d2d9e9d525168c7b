-- ===== src/Toyos/Tests.antt =====
-- A firmware whose state is what its console shows, and a vsprintf that writes "ok".
use project_base_learning.Base.{
  ℕ, zero, suc, ◌+◌, ◌%◌, ◌^◌, ◌<◌, ◌≡◌, refl, arith, ◌==◌, if◌then◌else◌, List, [], ◌∷◌, ◌++◌, Mem,
  write,
}
use project_base_learning.Elephant.Str.Find.{IsString, IsString-tail, IsString-head, IsString-end}
use project_base_learning.Toyos.{Firmware}
use project_base_learning.Toyos.Printk.{LibC, printk, put_bytes, hello_world}
use project_base_learning.Toyos.Printk.Console.{IsConsole, chars_at, printk-shown}

abbrev firmware : Firmware (List ℕ)
firmware r shown = if r.a7 == 1 then ((0, 0), shown ++ r.a0 % 256 ∷ []) else ((0, 0), shown)

firmware-IsConsole : IsConsole firmware (λ shown. shown)
firmware-IsConsole r f call = ground arith

-- `left` more bytes to look at.
length_from : (left a : ℕ) → Mem → ℕ
length_from zero a m = 0
length_from (suc left) a m =
    let rest = length_from left (a + 1) m in if m a == 0 then 0 else rest + 1

length_from_lem : (left a n : ℕ) (m : Mem) → n < left → IsString m a n → length_from left a m ≡ n
unfolding length_from
length_from_lem zero a n m h s = elim h [ ]
length_from_lem (suc left) a zero m h s = ground (arith, IsString-end a s)
length_from_lem (suc left) a (suc n) m h s = ground (
  arith,
  IsString-head a n s,
  length_from_lem left (a + 1) n m (omega arith) (IsString-tail a n s),
)

-- It writes "ok" whatever it is given.
abbrev libc : LibC
libc = record {
  vsprintf = λ buf fmt args m. (2, write (write (write m buf 111) (buf + 1) 107) (buf + 2) 0);
  strlen = length_from (2 ^ 32);
}

abbrev written : Mem
written = write (write (write (λ a. 0) 500 111) 501 107) 502 0

written-IsString : IsString written 500 2
written-IsString = record { inside = λ i lt. ground arith; stop = refl }

hello : put_bytes 100 hello_world (λ a. 7) 111 ≡ 33
unfolding put_bytes
hello = refl

printk-shown_example :
    (f' : List ℕ) × (printk firmware libc 500 800 [] (λ a. 0) [] ≡ (2, written, f'))
    × (f' ≡ [] ++ chars_at written 500 0 2)
printk-shown_example =
    printk-shown firmware (λ shown. shown) firmware-IsConsole libc 500 800 [] (λ a. 0) [] 2 2
      written (λ a n m lt s. length_from_lem (2 ^ 32) a n m lt s) refl (λ a. ground arith)
      written-IsString (omega arith)
