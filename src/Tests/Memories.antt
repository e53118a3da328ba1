-- ===== src/Tests/Memories.antt =====
-- Concrete memories, and what the statements on memory.py say of them.
use tsrkit_pvm.Prelude.{
  ◌%◌, ℕ, true, false, ◌||◌, List, [], ◌∷◌, some, ◌==◌, ◌≡◌, refl, arith, Outcome, Ensures,
}
use tsrkit_pvm.Common.Constants.{Accessibility}
use tsrkit_pvm.Interpreter.Memory.{
  Memory, addr_mod, store_page, read, write, alter_accessibility, cool,
}
use tsrkit_pvm.Interpreter.Memory.Init.{blank}
use tsrkit_pvm.Interpreter.Memory.Coherent.{IsCoherent, AreBytes}
use tsrkit_pvm.Interpreter.Memory.Keeps.{Reads, Writes, read-Reads, write-Writes}
use tsrkit_pvm.Interpreter.Memory.Grants.{IsAltered, alter_accessibility-IsAltered}
use tsrkit_pvm.Interpreter.Memory.Flat.{Answer, answer, left, settled, read_flat}
use tsrkit_pvm.Interpreter.Memory.Flat.Reads.{read-Flat}
use tsrkit_pvm.Interpreter.Memory.Flat.Rest.{read-left}
use tsrkit_pvm.Interpreter.Memory.Flat.Writes.{write_flat}
use tsrkit_pvm.Interpreter.Memory.Flat.WriteThrough.{write-Flat}
use tsrkit_pvm.Interpreter.Memory.Flat.Stored.{IsWritten, Anything, write-IsWritten}
use tsrkit_pvm.Interpreter.Memory.Flat.ReadBack.{write-read}

-- Pages 16 and 17 may be written.
abbrev two_pages : Memory
two_pages = blank (λ _. false) (λ pg. pg == 16 || pg == 17) 0

two_pages-IsCoherent : IsCoherent two_pages
two_pages-IsCoherent = record { paged = λ pg bytes e. cc; hot = tt }

abbrev three : List ℕ
three = 7 ∷ 8 ∷ 9 ∷ []

-- The memory after three bytes were written to the start of page 16, which is then the hot page.
abbrev warm : Memory
warm =
    store_page 16 0 three (record two_pages {
      hot_page_num = some 16;
      hot_page_data = some 16;
      hot_page_writable = true;
    })

write-three : write 65536 three two_pages ≡ Outcome.done tt warm
unfolding write
write-three = refl

three-AreBytes : AreBytes three
three-AreBytes = (omega arith, (omega arith, (omega arith, tt)))

-- A read over the border of the two pages.
read-Flat_example : answer (read 69630 4 two_pages) ≡ read_flat two_pages 4 (69630 % addr_mod)
read-Flat_example = read-Flat 69630 4 two_pages two_pages-IsCoherent

read-left_example : left (read 65536 3 warm) ≡ cool warm
read-left_example = read-left 65536 3 warm

-- A write over the end of page 17 faults half way.
write-Flat_example :
    settled (write 73726 three two_pages) ≡ settled (write_flat (73726 % addr_mod) three two_pages)
write-Flat_example = write-Flat 73726 three two_pages two_pages-IsCoherent

write-IsWritten_example :
    Ensures
      (λ _ m'. IsWritten (65536 % addr_mod) three two_pages m')
      Anything
      (write 65536 three two_pages)
write-IsWritten_example = write-IsWritten 65536 three two_pages two_pages-IsCoherent

write-read_example : answer (read 65536 3 warm) ≡ Answer.ok three
write-read_example =
    write-read 65536 three two_pages warm two_pages-IsCoherent three-AreBytes write-three

read-Reads_example : Reads (read 69630 4 two_pages)
read-Reads_example = read-Reads 69630 4 two_pages two_pages-IsCoherent

write-Writes_example : Writes (write 69630 three two_pages)
write-Writes_example = write-Writes 69630 three two_pages three-AreBytes two_pages-IsCoherent

alter_accessibility-IsAltered_example :
    IsAltered 65536 4096 Accessibility.null two_pages
      (alter_accessibility 65536 4096 Accessibility.null two_pages)
alter_accessibility-IsAltered_example =
    alter_accessibility-IsAltered 65536 4096 Accessibility.null two_pages two_pages-IsCoherent
