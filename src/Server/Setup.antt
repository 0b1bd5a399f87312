-- ===== src/Server/Setup.antt =====
-- NewHandler of api/server/handler.go: the timeouts of the rulesets' handler, and the chain of
-- middlewares that each request plays. A handler is of any type, and nil before the first one; the
-- middlewares of hlog and the router of net/http are elements of the chain.
use regula.Prelude.{ℕ, suc, zero, ℤ, pos, ◌*◌, ◌^◌, List, [], ◌∷◌, ◌++◌, length, ◌≡◌, refl, ap, ◌∙◌}
use regula.Outcome.{Result, ok, err, panic, ◌>>=◌}

-- The durations of Config, in nanoseconds.
pub record HandlerConfig : Type 0 where
  pub timeout : ℤ
  pub watch_timeout : ℤ

-- `if cfg.Timeout == 0 { cfg.Timeout = ... }`.
unfoldable pub default_duration : ℕ → ℤ → ℤ
default_duration n (pos zero) = pos (n * 10 ^ 9)
default_duration n d = d

unfoldable pub handler_timeouts : HandlerConfig → HandlerConfig
unfolding default_duration
handler_timeouts cfg = record {
  timeout = default_duration 5 cfg.timeout;
  watch_timeout = default_duration 30 cfg.watch_timeout;
}

-- `cur = chain[i](cur)`, from the last index down, with as many indices left.
module _ {H : Type 0} where
  unfoldable pub apply_at : List (H → H) → ℕ → H → Result H
  apply_at [] i cur = panic
  apply_at (m ∷ ms) zero cur = ok (m cur)
  apply_at (m ∷ ms) (suc i) cur = apply_at ms i cur

  unfoldable pub play_from : List (H → H) → ℕ → H → Result H
  unfolding apply_at
  play_from chain zero cur = ok cur
  play_from chain (suc i) cur = apply_at chain i cur >>= λ next. play_from chain i next

  unfoldable pub play : List (H → H) → H → Result H
  unfolding play_from
  play chain nil_handler = play_from chain (length chain) nil_handler

  -- The middlewares from the outermost on.
  abbrev pub nested : List (H → H) → H → H
  nested [] cur = cur
  nested (m ∷ ms) cur = m (nested ms cur)

  -- The handler that a request is served by: `middlewares` are those of hlog, and the last one of
  -- the chain returns the router.
  unfoldable pub request_handler : List (H → H) → H → H → Result H
  unfolding play
  request_handler middlewares mux nil_handler = play (middlewares ++ (λ _. mux) ∷ []) nil_handler

  outermost :
      (m : H → H) (out : Result H) (next : H → Result H) (rest : H → Result H)
      → ((cur : H) → next cur ≡ (rest cur >>= λ c. ok (m c)))
      → (out >>= next) ≡ (out >>= rest >>= λ c. ok (m c))
  outermost m (ok cur) next rest h = h cur
  outermost m (err e) next rest h = refl
  outermost m panic next rest h = refl

  play_from-cons :
      (m : H → H) (ms : List (H → H)) (i : ℕ) (cur : H)
      → play_from (m ∷ ms) (suc i) cur ≡ (play_from ms i cur >>= λ c. ok (m c))
  unfolding play_from apply_at
  play_from-cons m ms zero cur = refl
  play_from-cons m ms (suc i) cur =
      outermost m (apply_at ms i cur) (play_from (m ∷ ms) (suc i)) (play_from ms i)
        (play_from-cons m ms i)

  play-nested : (ms : List (H → H)) (cur : H) → play ms cur ≡ ok (nested ms cur)
  unfolding play play_from
  play-nested [] cur = refl
  play-nested (m ∷ ms) cur =
      play_from-cons m ms (length ms) cur ∙ ap (λ o. o >>= λ c. ok (m c)) (play-nested ms cur)

  nested-last :
      (ms : List (H → H)) (mux nil_handler : H)
      → nested (ms ++ (λ _. mux) ∷ []) nil_handler ≡ nested ms mux
  nested-last [] mux nil_handler = refl
  nested-last (m ∷ ms) mux nil_handler = ap m (nested-last ms mux nil_handler)

  -- A request is served by the router within the middlewares, the first one outermost, whatever the
  -- first handler was: the loop over the chain stays within its bounds.
  pub request_handler-nested :
      (ms : List (H → H)) (mux nil_handler : H)
      → request_handler ms mux nil_handler ≡ ok (nested ms mux)
  unfolding request_handler
  request_handler-nested ms mux nil_handler =
      play-nested (ms ++ (λ _. mux) ∷ []) nil_handler ∙ ap ok (nested-last ms mux nil_handler)
