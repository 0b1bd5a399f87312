-- ===== src/Client/Retries.antt =====
-- tryN of api/client/client.go: which attempt is returned.
use regula.Prelude.{
  ℕ, suc, zero, ◌≤◌, ◌<◌, ◌+◌, ℤ, true, false, Option, ◌≡◌, refl, ◌⊎◌, inl, inr, arith, Bool-cases,
}
use regula.Client.{ClientError, is_retriable_error, rounds, try_from, try_n}

module _ {A : Type 0} (attempt : ℕ → A × Option ClientError) where
  -- The attempt `last` is the first, from `start` on, that is not to be tried again, or it is the
  -- last that is allowed.
  pub record IsSettled (start left : ℕ) (out : A × Option ClientError) : Type 0 where
    pub last : ℕ
    pub from_start : start ≤ last
    pub within : last ≤ start + left
    pub retried : (i : ℕ) → start ≤ i → i < last → is_retriable_error (attempt i).1 ≡ true
    pub settled : (is_retriable_error (attempt last).1 ≡ false) ⊎ (last ≡ start + left)
    pub result : out ≡ attempt last

  try_from-IsSettled : (start left : ℕ) → IsSettled start left (try_from attempt start left)
  unfolding try_from
  try_from-IsSettled start zero = record {
    last = start;
    from_start = omega arith;
    within = omega arith;
    retried = λ i h k. absurd (omega arith);
    settled = inr (omega arith);
    result = refl;
  }
  try_from-IsSettled start (suc left) = elim (Bool-cases (is_retriable_error (attempt start).1)) [
    | inl again ↦
        let r = try_from-IsSettled (suc start) left in
        record {
          last = r.last;
          from_start = ground (arith, r.from_start);
          within = ground (arith, r.within);
          retried = λ i h k. step again r.retried i h k;
          settled = elim r.settled [ inl a ↦ inl a | inr e ↦ inr (ground (arith, e)) ];
          result = rw again r.result;
        }
    | inr stop ↦ record {
      last = start;
      from_start = omega arith;
      within = omega arith;
      retried = λ i h k. absurd (omega arith);
      settled = inl stop;
      result = rw stop refl;
    }
  ]
    where
      step :
          {n : ℕ}
          → is_retriable_error (attempt start).1 ≡ true
          → ((i : ℕ) → suc start ≤ i → i < n → is_retriable_error (attempt i).1 ≡ true)
          → (i : ℕ) → start ≤ i
          → i < n
          → is_retriable_error (attempt i).1 ≡ true
      step again later i h k = ground (arith, later i)

  pub try_n-IsSettled : (times : ℤ) → IsSettled 0 (rounds times) (try_n attempt times)
  unfolding try_n
  try_n-IsSettled times = try_from-IsSettled 0 (rounds times)
