-- ===== src/Client/Sending/Answered.antt =====
-- A request of api/client that is answered within its tries.
use regula.Prelude.{
  ℕ, ◌≤◌, ◌<◌, ◌-◌, ◌+◌, pos, true, false, ◌||◌, Option, none, ltb, leb, ◌≡◌, refl, ap, ◌∙◌, ◌⊎◌,
  inl, inr, arith, Bool-cases,
}
use regula.Client.{ClientError, is_retriable_error, rounds, try_n}
use regula.Client.Retries.{IsSettled, try_n-IsSettled}
use regula.Client.Sending.{decoded, Reply, reply, do_request, try_request}

module _ {A : Type 0} (zero_value : A) where
  -- A round trip whose error is tried again.
  abbrev pub IsBusy : Reply A → Type 0
  IsBusy r = is_retriable_error (do_request zero_value r).1 ≡ true

  do_request-decoded :
      (code : ℕ) (a : A)
      → 200 ≤ code
      → code < 400
      → do_request zero_value (reply code (decoded a)) ≡ (a, none)
  unfolding do_request
  do_request-decoded code a low high = rw in_range refl
    where
      in_range : (ltb code 200 || leb 400 code) ≡ false
      in_range = ground arith

  -- Whatever else the attempts are, the first that is not tried again is the one that counts.
  settled_at :
      (attempt : ℕ → A × Option ClientError) (n k : ℕ) (out : A × Option ClientError)
      → k < n
      → is_retriable_error (attempt k).1 ≡ false
      → ((i : ℕ) → i < k → is_retriable_error (attempt i).1 ≡ true)
      → IsSettled attempt 0 (n - 1) out
      → out ≡ attempt k
  settled_at attempt n k out below stops busy s =
      s.result
      ∙ ap attempt (elim (Bool-cases (ltb s.last k)) [
        | inl before ↦ absurd (early (ground arith) s.settled)
        | inr reached ↦ elim (Bool-cases (ltb k s.last)) [
          | inl beyond ↦ absurd (late (s.retried k (omega arith) (ground arith)))
          | inr within ↦ ground arith
        ]
      ])
    where
      early :
          s.last < k → (is_retriable_error (attempt s.last).1 ≡ false) ⊎ (s.last ≡ 0 + (n - 1)) → ⊥
      early before (inl e) = cc (e, busy s.last before)
      early before (inr e) = omega (arith, before, below, e)

      late : is_retriable_error (attempt k).1 ≡ true → ⊥
      late e = cc (e, stops)

-- A request that the server answers within the client's tries succeeds, with the value of that
-- reply's body: the status is at least 200 and below 400, and each reply before it is an error that is
-- tried again.
pub try_request-decoded :
    {A : Type 0} (zero_value : A) (replies : ℕ → Reply A) (n k code : ℕ) (a : A)
    → k < n
    → replies k ≡ reply code (decoded a)
    → 200 ≤ code
    → code < 400
    → ((i : ℕ) → i < k → IsBusy zero_value (replies i))
    → try_request zero_value replies (pos n) ≡ (a, none)
unfolding try_request
try_request-decoded zero_value replies n k code a below answered low high busy =
    settled_at zero_value (λ i. do_request zero_value (replies i)) n k
      (try_n (λ i. do_request zero_value (replies i)) (pos n)) below
      (unfold is_retriable_error in ap (λ o. is_retriable_error o.1) got) busy
      (unfold rounds in try_n-IsSettled (λ i. do_request zero_value (replies i)) (pos n))
    ∙ got
  where
    got : do_request zero_value (replies k) ≡ (a, none)
    got = ap (do_request zero_value) answered ∙ do_request-decoded zero_value code a low high
