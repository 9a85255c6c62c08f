-- ===== src/Google/Retries.antt =====
-- How often a request is repeated, and how it ends.
use bond_trading.Prelude.{ℕ, zero, suc, ◌+◌, ◌<◌, ◌≡◌, refl, false, List, [], ◌∷◌, ◌==◌, arith}
use bond_trading.Prelude.Texts.{Text, codes}
use bond_trading.Prelude.Results.{ok, err}
use bond_trading.Google.{Attempt, finished, retryable, ending_of, pause, request_loop, request}

module _ {Body : Type 0} (status_text : ℕ → Text) (send : ℕ → Attempt Body) where
  -- All attempts from `first` on, `n` of them, end with an exception that is caught.
  abbrev pub AllRetryable : ℕ → ℕ → Type 0
  AllRetryable zero first = Unit {0}
  AllRetryable (suc n) first =
      ((message : Text) × (ending_of status_text (send first) ≡ retryable message))
      × AllRetryable n (suc first)

  -- The pauses after attempts from `first` on, `n` of them.
  unfoldable pub pauses : ℕ → ℕ → List ℕ
  pauses zero first = []
  pauses (suc n) first = pause first ∷ pauses n (suc first)

  loop-finished :
      (n left first at : ℕ) (message : Text) (body : Body)
      → at ≡ first + n
      → n < left
      → AllRetryable n first
      → ending_of status_text (send at) ≡ finished body
      → request_loop status_text send left first message ≡ (ok body, pauses n first)
  unfolding request_loop pauses
  loop-finished n zero first at message body p h all e = absurd (omega arith)
  loop-finished zero (suc left) first at message body p h all e =
      let here : at ≡ first = omega arith in rw (rw here at e, request_loop) refl
  loop-finished (suc n) (suc left) first at message body p h all e =
      let (reason, f) = all.0 in
      let more : (left == 0) ≡ false = ground arith in
      let rest =
        loop-finished n left (suc first) at reason body (omega arith) (omega arith) all.1 e in
      rw (f, request_loop, more, rest) refl

  loop-exhausted :
      (left first last : ℕ) (message reason : Text)
      → last ≡ first + left
      → AllRetryable (suc left) first
      → ending_of status_text (send last) ≡ retryable reason
      → request_loop status_text send (suc left) first message ≡ (err reason, pauses left first)
  unfolding request_loop pauses
  loop-exhausted zero first last message reason p all e =
      let here : last ≡ first = omega arith in rw (rw here at e, request_loop) refl
  loop-exhausted (suc left) first last message reason p all e =
      let (caught, f) = all.0 in
      let more : (suc left == 0) ≡ false = ground arith in
      let rest = loop-exhausted left (suc first) last caught reason (omega arith) all.1 e in
      rw (f, request_loop, more, rest) refl

  -- Where the n attempts before one fail in a way that is retried, and that one is among those
  -- allowed and gives a result, the request ends with the result of that attempt and makes one
  -- pause after each attempt before it.
  pub request-finishes :
      (n retries : ℕ) (body : Body)
      → n < retries
      → AllRetryable n 0
      → ending_of status_text (send n) ≡ finished body
      → request status_text send retries ≡ (ok body, pauses n 0)
  unfolding request
  request-finishes n retries body h all e = loop-finished n retries 0 n _ body (omega arith) h all e

  -- Where all attempts that are allowed fail in a way that is retried, the request fails with the
  -- error of the last of them, and makes one pause less than attempts.
  pub request-exhausted :
      (left : ℕ) (reason : Text)
      → AllRetryable (suc left) 0
      → ending_of status_text (send left) ≡ retryable reason
      → request status_text send (suc left) ≡ (err reason, pauses left 0)
  unfolding request
  request-exhausted left reason all e =
      loop-exhausted left 0 left (codes "Неизвестная ошибка Google Sheets") reason (omega arith) all
        e
