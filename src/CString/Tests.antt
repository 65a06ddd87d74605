-- ===== src/CString/Tests.antt =====
-- Inputs for the laws of libs/string.c: "abc" at 10, "abd" at 20, and NUL bytes elsewhere.
use nkucore.Prelude.{ℕ, ◌+◌, ◌≡◌, refl, inr, some, arith, update, returns, pos, negsuc}
use nkucore.CString.{
  Memory, strlen, strnlen, strcpy, strncpy, strcmp, strncmp, strchr, strfind, memmove, memcmp,
}
use nkucore.CString.Blocks.{copied, memmove-copied}
use nkucore.CString.Scan.{IsString, FirstDiff, strlen_lem, strnlen-min, strcmp_lem, strncmp_lem}
use nkucore.CString.Copy.{padded, strcpy-copied, strncpy-padded}
use nkucore.CString.Search.{StopsAt, strchr-strfind, memcmp-first}

abbrev word : ℕ → ℕ → ℕ → ℕ → Memory → Memory
word s a b c m = update (update (update m s a) (s + 1) b) (s + 2) c

abbrev memory : Memory
memory = word 10 b'a' b'b' b'c' (word 20 b'a' b'b' b'd' (λ a. 0))

abc : IsString memory 10 3
abc = record { body = λ i l. ground arith; end = refl }

strlen_lem_run : strlen 9 memory 10 ≡ returns 3
strlen_lem_run = strlen_lem 9 3 10 memory abc (omega arith)

strnlen-min_run : strnlen memory 10 2 ≡ 2
strnlen-min_run = strnlen-min 3 10 2 memory abc

diff : FirstDiff memory 10 20 2
diff = record { agree = λ i l. ground arith; stop = inr (omega arith) }

strcmp_lem_run : strcmp 9 memory 10 20 ≡ returns (negsuc 0)
strcmp_lem_run = strcmp_lem 9 2 10 20 memory diff (omega arith)

strncmp_lem_run : strncmp memory 10 20 2 ≡ pos 0
strncmp_lem_run = strncmp_lem 2 2 10 20 memory diff

strcpy-copied_run : strcpy 9 30 10 memory ≡ returns (copied 30 10 4 memory)
strcpy-copied_run = strcpy-copied 9 3 30 10 memory abc (inr (omega arith)) (omega arith)

strncpy-padded_run : strncpy 30 10 6 memory ≡ padded 30 10 3 6 memory
strncpy-padded_run = strncpy-padded 6 3 30 10 memory abc (inr (omega arith))

memmove-copied_example : memmove 11 10 3 memory ≡ copied 11 10 3 memory
memmove-copied_example = memmove-copied 11 10 3 memory

memmove_runs : memmove 11 10 3 memory 13 ≡ b'c'
unfolding memmove
memmove_runs = refl

stops : StopsAt memory 10 b'c' 2
stops = record { before = λ i l. ground arith; stop = inr refl }

strchr-strfind_run :
    (strfind 9 memory 10 b'c' ≡ returns 12) × (strchr 9 memory 10 b'c' ≡ returns (some 12))
strchr-strfind_run = strchr-strfind 9 2 10 b'c' memory stops (omega arith)

memcmp-first_run : memcmp memory 10 20 3 ≡ negsuc 0
memcmp-first_run = memcmp-first 3 2 10 20 memory (λ i l. ground arith) (omega arith) (omega arith)
