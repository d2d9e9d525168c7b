-- ===== src/Elephant/Str/Tests.antt =====
-- The functions of string.c on two short strings: "hi" at 100 and "ha" at 200.
use project_base_learning.Base.{
  ℕ, ◌+◌, ◌≡◌, refl, inl, arith, Mem, IsBytes, write, ok, ◌==◌, if◌then◌else◌, ℤ, pos, negsuc,
}
use project_base_learning.Elephant.Str.{memcmp, strlen, strcmp, strchr, strrchr, strcat, strchrs}
use project_base_learning.Elephant.Str.Find.{IsString, IsFirst, strchr-IsFirst}
use project_base_learning.Elephant.Str.Compare.{
  IsCompared, memcmp-IsCompared, AreCompared, strcmp-AreCompared,
}
use project_base_learning.Elephant.Str.Copy.{IsCopied, strcat-IsCopied}

abbrev words : Mem
words a =
    if a == 100
    then b'h'
    else (if a == 101 then b'i' else (if a == 200 then b'h' else (if a == 201 then b'a' else 0)))

hi-IsString : IsString words 100 2
hi-IsString = record { inside = λ i h. ground arith; stop = refl }

ha-IsString : IsString words 200 2
ha-IsString = record { inside = λ i h. ground arith; stop = refl }

words-IsBytes : IsBytes words
words-IsBytes a = ground arith

runs :
    (strlen 9 100 words ≡ ok 2 words)
    × (strcmp 9 100 200 words ≡ ok (pos 1) words)
    × (strchr 9 100 b'i' words ≡ ok 101 words)
    × (strrchr 9 200 b'z' words ≡ ok 0 words)
    × (strchrs 9 100 b'h' words ≡ ok 1 words)
    × (memcmp 200 100 2 words ≡ ok (negsuc 0) words)
unfolding strlen strcmp strchr strrchr strchrs memcmp
runs = (refl, refl, refl, refl, refl, refl)

-- The sign is that of signed bytes: 0x80 comes before 0x01.
memcmp_signed :
    memcmp 100 200 1 (write (write words 100 0x80) 200 1)
    ≡ ok (negsuc 0) (write (write words 100 0x80) 200 1)
unfolding memcmp
memcmp_signed = refl

strchr-IsFirst_example :
    (r : ℕ) × (strchr 9 100 b'i' words ≡ ok r words) × IsFirst words 100 2 b'i' r
strchr-IsFirst_example = strchr-IsFirst 9 100 2 b'i' words hi-IsString (omega arith) (omega arith)

memcmp-IsCompared_example :
    (r : ℤ) × (memcmp 100 200 2 words ≡ ok r words) × IsCompared words 100 200 2 r
memcmp-IsCompared_example = memcmp-IsCompared 100 200 2 words words-IsBytes (inl (omega arith))

strcmp-AreCompared_example :
    (r : ℤ) × (strcmp 9 100 200 words ≡ ok r words) × AreCompared words 100 200 2 2 r
strcmp-AreCompared_example =
    strcmp-AreCompared words words-IsBytes 9 100 200 2 2 hi-IsString ha-IsString (omega arith)
      (omega arith) (omega arith)

strcat-IsCopied_example :
    (m' : Mem) × (strcat 9 100 200 words ≡ ok 100 m') × IsCopied words (100 + 2) 200 2 m'
strcat-IsCopied_example =
    strcat-IsCopied 9 100 200 2 2 words hi-IsString ha-IsString (omega arith) (omega arith)
      (inl (omega arith)) (omega arith) (omega arith)
