-- ===== src/Elephant/Start/Tests.antt =====
-- The kernel started on 32 megabytes.
use project_base_learning.Base.{
  ℕ, ◌+◌, ◌*◌, ◌%◌, ◌^◌, ◌<◌, ◌≤◌, ◌≡◌, refl, arith, Mem, true, false, ok, leb, ◌==◌, if◌then◌else◌,
  [],
}
use project_base_learning.Elephant.Memory.{
  Globals, get32, pte_ptr, pde_ptr, is_present, k_heap_start,
}
use project_base_learning.Elephant.Memory.Words.{pte_ptr_lem, pde_ptr_lem, is_present_lem}
use project_base_learning.Elephant.Memory.Initial.{IsLoaded}
use project_base_learning.Elephant.Memory.Pages.Ready.{kernel_space}
use project_base_learning.Elephant.Interrupt.{unset}
use project_base_learning.Elephant.Start.{System, main}
use project_base_learning.Elephant.Start.Boot.{IsStarted, main-IsStarted}

-- 0x0200_0000 at 0xb00, and the directory's words from number 768 on odd; all else is zero.
abbrev loaded : Mem
loaded a = if a == 0xb03 then 2 else (if leb 0xffff_fc00 a then 1 else 0)

directory : (v : ℕ) → kernel_space ≤ v → v < 2 ^ 32 → is_present loaded (pde_ptr v) ≡ true
directory v high fits =
    ground (arith, is_present_lem loaded (pde_ptr v), pde_ptr_lem v fits, word (pde_ptr v))
  where
    word : (q : ℕ) → 0xffff_fc00 ≤ q → get32 loaded q ≡ 0x0101_0101
    word q h = unfold get32 in ground arith

unmapped : (p : ℕ) → 0x20_0000 ≤ p → p < 0x20_0000 + 2 ^ 27 → is_present loaded (pte_ptr p) ≡ false
unmapped p high low =
    ground (arith, is_present_lem loaded (pte_ptr p), pte_ptr_lem p (omega arith), word (pte_ptr p))
  where
    word : (q : ℕ) → 0xb03 < q → q + 3 < 0xffff_fc00 → get32 loaded q ≡ 0
    word q lo h = unfold get32 in ground arith

loaded-IsLoaded : IsLoaded 0x200_0000 loaded
loaded-IsLoaded = record {
  bytes = λ a. ground arith;
  detected = unfold get32 in refl;
  enough = omega arith;
  fits = omega arith;
  tables = directory;
  unmapped = unmapped;
}

abbrev system : System
system = record {
  machine = record {
    idt = λ v. record {
      func_offset_low_word = 0;
      selector = 0;
      dcount = 0;
      attribute = 0;
      func_offset_high_word = 0;
    };
    intr_name = λ v. "";
    idt_table = λ v. unset;
    eflags = 2;
    idtr = 0;
    ports = [];
  };
  memory = loaded;
}

main-IsStarted_example :
    (g : Globals) × (s' : System) × (main (λ v. 0xc000_1500 + v % 256 * 16) 0xc000_5000 system
      ≡ ok (g, k_heap_start) s')
    × IsStarted (λ v. 0xc000_1500 + v % 256 * 16) 0xc000_5000 0x200_0000 g system s'
main-IsStarted_example =
    main-IsStarted (λ v. 0xc000_1500 + v % 256 * 16) 0xc000_5000 0x200_0000 system
      (λ v lt. omega arith) (omega arith) loaded-IsLoaded (omega arith)
