-- ===== src/Strconv/RoundTrip.antt =====
-- ParseInt reads back what FormatInt prints.
use Prim.Native.Char.{code}
use native.Mathlib.Nat.{pow-suc}
use regula.Prelude.{
  ℕ, zero, suc, ◌+◌, ◌*◌, ◌/◌, ◌%◌, ◌<◌, ◌^◌, String, true, false, ◌≡◌, refl, none, List, ◌∷◌,
  codes, ℤ, pos, negsuc, InInt64, arith, Bool-cases, leb, inl, inr,
}
use regula.Strconv.{
  number, scan, parse_uint, signed, parse_codes, parse_int, format_int, format_uint, emit, digit,
}

code-digit : (d : ℕ) → d < 10 → code (digit d) ≡ b'0' + d
code-digit zero h = refl
code-digit (suc zero) h = refl
code-digit (suc (suc zero)) h = refl
code-digit (suc (suc (suc zero))) h = refl
code-digit (suc (suc (suc (suc zero)))) h = refl
code-digit (suc (suc (suc (suc (suc zero))))) h = refl
code-digit (suc (suc (suc (suc (suc (suc zero)))))) h = refl
code-digit (suc (suc (suc (suc (suc (suc (suc zero))))))) h = refl
code-digit (suc (suc (suc (suc (suc (suc (suc (suc zero)))))))) h = refl
code-digit (suc (suc (suc (suc (suc (suc (suc (suc (suc zero))))))))) h = refl
code-digit (suc (suc (suc (suc (suc (suc (suc (suc (suc (suc n)))))))))) h = absurd (omega arith)

-- One digit behind the number read so far.
scan-digit :
    (d n : ℕ) (s : List ℕ)
    → d < 10
    → n * 10 + d < 2 ^ 64
    → scan (code (digit d) ∷ s) n ≡ scan s (n * 10 + d)
scan-digit d n s h fits = rw (code-digit d h) (unfold scan in ground arith)

emit_more :
    (k n : ℕ) (out : String)
    → leb 10 n ≡ true
    → emit (suc k) n out ≡ emit k (n / 10) (String.◌∷◌ (digit (n % 10)) out)
unfolding emit
emit_more k n out h = rw h

emit_done :
    (k n : ℕ) (out : String) → leb 10 n ≡ false → emit (suc k) n out ≡ String.◌∷◌ (digit n) out
unfolding emit
emit_done k n out h = rw h

scan_small : (n : ℕ) (s : List ℕ) → n < 10 → scan (code (digit n) ∷ s) 0 ≡ scan s n
scan_small n s h = let e : 0 * 10 + n ≡ n = omega arith in rw (scan-digit n 0 s h (omega arith), e)

scan_last : (n : ℕ) (s : List ℕ) → n < 2 ^ 64 → scan (code (digit (n % 10)) ∷ s) (n / 10) ≡ scan s n
scan_last n s h =
    let e : n / 10 * 10 + n % 10 ≡ n = omega arith in
    rw (scan-digit (n % 10) (n / 10) s (omega arith) (omega arith), e)

-- The digits of `n` before a text, read from 0, leave `n` before that text.
scan-emit :
    (k n : ℕ) (out : String)
    → n < 10 ^ suc k
    → n < 2 ^ 64
    → scan (codes (emit (suc k) n out)) 0 ≡ scan (codes out) n
scan-emit zero n out h fits =
    let small : leb 10 n ≡ false = ground arith in
    rw (emit_done zero n out small) (scan_small n (codes out) h)
scan-emit (suc k) n out h fits = elim (Bool-cases (leb 10 n)) [
  | inl big ↦
      let fewer : n / 10 < 10 ^ suc k = omega (arith, pow-suc 10 (suc k)) in
      rw (emit_more (suc k) n out big, scan-emit k (n / 10) _ fewer (omega arith))
        (scan_last n (codes out) fits)
  | inr small ↦ rw (emit_done (suc k) n out small) (scan_small n (codes out) (ground arith))
]

-- A print of a number starts with a digit.
abbrev StartsWithDigit : List ℕ → Type 0
StartsWithDigit s = (d : ℕ) × (rest : List ℕ) × (d < 10) × (s ≡ (b'0' + d) ∷ rest)

emit-StartsWithDigit :
    (k n : ℕ) (out : String) → n < 10 ^ suc k → StartsWithDigit (codes (emit (suc k) n out))
emit-StartsWithDigit zero n out h =
    let small : leb 10 n ≡ false = ground arith in
    (n, codes out, h, rw (emit_done zero n out small, code-digit n h))
emit-StartsWithDigit (suc k) n out h = elim (Bool-cases (leb 10 n)) [
  | inl big ↦
      let fewer : n / 10 < 10 ^ suc k = omega (arith, pow-suc 10 (suc k)) in
      rw (emit_more (suc k) n out big)
        (emit-StartsWithDigit k (n / 10) (String.◌∷◌ (digit (n % 10)) out) fewer)
  | inr small ↦
      let few : n < 10 = ground arith in
      (n, codes out, few, rw (emit_done (suc k) n out small, code-digit n few))
]

parse_uint-format_uint : (n : ℕ) → n < 2 ^ 64 → parse_uint (codes (format_uint n)) ≡ number n
unfolding parse_uint format_uint
parse_uint-format_uint n h =
    let (d, rest, small, e) = emit-StartsWithDigit 19 n "" (omega arith) in
    let read = scan-emit 19 n "" (omega arith) h in rw e (rw e at read)

-- Digits have no sign in front.
parse_codes_unsigned :
    (s : String) (cs : List ℕ)
    → StartsWithDigit cs
    → parse_codes s cs ≡ signed s false (parse_uint cs)
unfolding parse_codes
parse_codes_unsigned s cs (d, rest, small, e) = rw e (ground arith)

-- Every int64 is read back from its decimal print, with no error.
pub parse_int-format_int : (i : ℤ) → InInt64 i → parse_int (format_int i) ≡ (i, none)
unfolding parse_int format_int format_uint
parse_int-format_int (pos n) h =
    rw (parse_codes_unsigned _ _ (emit-StartsWithDigit 19 n "" (omega arith)))
      (rw (parse_uint-format_uint n (omega arith)) (unfold signed in ground arith))
parse_int-format_int (negsuc n) h =
    rw (parse_uint-format_uint (suc n) (omega arith)) (unfold signed in ground arith)
