-- ===== src/Hash.antt =====
-- Go's hash/fnv, as rule/expr.go uses it: New32, Write and Sum32 (FNV-1 with 32 bits) over the
-- UTF-8 bytes of a text.
use Prim.Native.Nat.{bit_xor}
use regula.Prelude.{
  ℕ, ◌+◌, ◌*◌, ◌/◌, ◌%◌, ◌^◌, ◌<◌, String, List, [], ◌∷◌, ◌++◌, ltb, if◌then◌else◌, arith, codes,
}

-- The UTF-8 bytes of a code point.
abbrev utf8_char : ℕ → List ℕ
utf8_char c =
    if ltb c 0x80
    then c ∷ []
    else if ltb c 0x800
    then (0xC0 + c / 64) ∷ (0x80 + c % 64) ∷ []
    else if ltb c 0x10000
    then (0xE0 + c / 4096) ∷ (0x80 + c / 64 % 64) ∷ (0x80 + c % 64) ∷ []
    else (0xF0 + c / 262144) ∷ (0x80 + c / 4096 % 64) ∷ (0x80 + c / 64 % 64) ∷ (0x80 + c % 64) ∷ []

utf8 : List ℕ → List ℕ
utf8 [] = []
utf8 (c ∷ cs) = utf8_char c ++ utf8 cs

-- `[]byte(s)`.
unfoldable pub bytes : String → List ℕ
unfolding utf8
bytes s = utf8 (codes s)

abbrev pub offset32 : ℕ
offset32 = 2166136261

abbrev pub prime32 : ℕ
prime32 = 16777619

-- `hash *= prime32; hash ^= uint32(c)` for each byte.
unfoldable pub write : ℕ → List ℕ → ℕ
write hash [] = hash
write hash (c ∷ cs) = write (bit_xor (hash * prime32 % 2 ^ 32) c % 2 ^ 32) cs

-- The sum of a new hash into which `data` was written.
unfoldable pub sum32 : List ℕ → ℕ
unfolding write
sum32 data_bytes = write offset32 data_bytes

write-lt : (hash : ℕ) (cs : List ℕ) → hash < 2 ^ 32 → write hash cs < 2 ^ 32
unfolding write
write-lt hash [] h = h
write-lt hash (c ∷ cs) h = write-lt (bit_xor (hash * prime32 % 2 ^ 32) c % 2 ^ 32) cs (omega arith)

-- A sum is a uint32.
pub sum32-lt : (cs : List ℕ) → sum32 cs < 2 ^ 32
unfolding sum32
sum32-lt cs = write-lt offset32 cs (omega arith)
