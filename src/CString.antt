-- ===== src/CString.antt =====
-- libs/string.c: memory is a function from addresses to bytes (`char` is unsigned on RISC-V).
-- A loop that ends at a NUL byte runs on fuel, one that counts `n` down recurs on `n`.
pub mod Blocks
mod Tests
pub mod Scan
pub mod Copy
pub mod Search
use nkucore.Prelude.{
  ℕ, zero, suc, ◌+◌, ◌-◌, Bool, true, false, ◌&&◌, not, Option, none, some, ltb, ◌==◌,
  if◌then◌else◌, update, Outcome, returns, out_of_fuel, ℤ, pos, sub_ℕ,
}

abbrev pub Memory : Type 0
Memory = ℕ → ℕ

pub strlen_loop : (fuel : ℕ) → Memory → (s cnt : ℕ) → Outcome ℕ
strlen_loop zero m s cnt = out_of_fuel
strlen_loop (suc k) m s cnt =
    let rest = strlen_loop k m (s + 1) (cnt + 1) in if m s == 0 then returns cnt else rest

unfoldable pub strlen : (fuel : ℕ) → Memory → ℕ → Outcome ℕ
unfolding strlen_loop
strlen fuel m s = strlen_loop fuel m s 0

-- The first argument is `len - cnt`, the rounds that `cnt < len` leaves.
pub strnlen_loop : (left : ℕ) → Memory → (s cnt : ℕ) → ℕ
strnlen_loop zero m s cnt = cnt
strnlen_loop (suc k) m s cnt =
    let rest = strnlen_loop k m (s + 1) (cnt + 1) in if m s == 0 then cnt else rest

unfoldable pub strnlen : Memory → (s len : ℕ) → ℕ
unfolding strnlen_loop
strnlen m s len = strnlen_loop len m s 0

-- `strcpy`, with `p` running from `dst` on: the memory that it leaves.
unfoldable pub strcpy : (fuel : ℕ) → (p src : ℕ) → Memory → Outcome Memory
strcpy zero p src m = out_of_fuel
strcpy (suc k) p src m =
    let m' = update m p (m src) in
    let rest = strcpy k (p + 1) (src + 1) m' in if m src == 0 then returns m' else rest

unfoldable pub strncpy : (p src len : ℕ) → Memory → Memory
strncpy p src zero m = m
strncpy p src (suc len) m =
    strncpy (p + 1) (if m src == 0 then src else src + 1) len (update m p (m src))

unfoldable pub strcmp : (fuel : ℕ) → Memory → (s1 s2 : ℕ) → Outcome ℤ
strcmp zero m s1 s2 = out_of_fuel
strcmp (suc k) m s1 s2 =
    let rest = strcmp k m (s1 + 1) (s2 + 1) in
    if not (m s1 == 0) && (m s1 == m s2) then rest else returns (sub_ℕ (m s1) (m s2))

unfoldable pub strncmp : Memory → (s1 s2 n : ℕ) → ℤ
strncmp m s1 s2 zero = pos 0
strncmp m s1 s2 (suc n) =
    let rest = strncmp m (s1 + 1) (s2 + 1) n in
    if not (m s1 == 0) && (m s1 == m s2) then rest else sub_ℕ (m s1) (m s2)

-- NULL is `none`.
unfoldable pub strchr : (fuel : ℕ) → Memory → (s c : ℕ) → Outcome (Option ℕ)
strchr zero m s c = out_of_fuel
strchr (suc k) m s c =
    let rest = strchr k m (s + 1) c in
    if m s == 0 then returns none else if m s == c then returns (some s) else rest

unfoldable pub strfind : (fuel : ℕ) → Memory → (s c : ℕ) → Outcome ℕ
strfind zero m s c = out_of_fuel
strfind (suc k) m s c =
    let rest = strfind k m (s + 1) c in
    if m s == 0 then returns s else if m s == c then returns s else rest

unfoldable pub memset : (p c n : ℕ) → Memory → Memory
memset p c zero m = m
memset p c (suc n) m = memset (p + 1) c n (update m p c)

-- `while (n -- > 0) *d ++ = *s ++;`
unfoldable pub copy_forward : (d s n : ℕ) → Memory → Memory
copy_forward d s zero m = m
copy_forward d s (suc n) m = copy_forward (d + 1) (s + 1) n (update m d (m s))

-- `while (n -- > 0) *-- d = *-- s;`
unfoldable pub copy_backward : (d s n : ℕ) → Memory → Memory
copy_backward d s zero m = m
copy_backward d s (suc n) m = copy_backward (d - 1) (s - 1) n (update m (d - 1) (m (s - 1)))

unfoldable pub memmove : (dst src n : ℕ) → Memory → Memory
unfolding copy_forward copy_backward
memmove dst src n m =
    if ltb src dst && ltb dst (src + n)
    then copy_backward (dst + n) (src + n) n m
    else copy_forward dst src n m

unfoldable pub memcpy : (dst src n : ℕ) → Memory → Memory
unfolding copy_forward
memcpy dst src n m = copy_forward dst src n m

unfoldable pub memcmp : Memory → (v1 v2 n : ℕ) → ℤ
memcmp m v1 v2 zero = pos 0
memcmp m v1 v2 (suc n) =
    let rest = memcmp m (v1 + 1) (v2 + 1) n in if m v1 == m v2 then rest else sub_ℕ (m v1) (m v2)
