-- ===== src/Google.antt =====
-- infrastructure/google_sheets/client.py: the gateway of a service account, with its retries, the
-- gateway that is not available and the one in memory. Parameters are the HTTP library with the
-- credentials (what one attempt gives) and the percent encoding of a path. An error is its text.
pub mod Memory
pub mod Retries
pub mod Reads
pub mod Located
mod Samples
use bond_trading.Prelude.{
  ℕ, zero, suc, ◌+◌, ◌-◌, ◌^◌, Bool, true, false, not, ◌&&◌, ◌||◌, List, [], ◌∷◌, ◌++◌, Option,
  none, some, any, get_elem?, length, ltb, leb, ◌==◌, if◌then◌else◌,
}
use bond_trading.Prelude.Texts.{Text, codes, text_eq, nonempty, strip}
use bond_trading.Prelude.Results.{Result, ok, err, ◌>>=◌, ◌>>◌, raise_if}
use bond_trading.Moex.{RawRow, cells, not_an_array}
use bond_trading.Values.{Value, absent, PythonLibrary, is_blank, shown}
use bond_trading.Sync.{SheetDataRow, CellUpdate, SheetConnectionCheck}

-- What an attempt gives: an exception that is caught (`TransportError`, or the missing token's), or
-- an answer with its status.
pub data Attempt (Body : Type 0) : Type 0 where
  interrupted : Text → Attempt Body
  answered : ℕ → Body → Attempt Body

-- How an attempt ends: with a result, an exception that is caught, or one that is not.
pub data Ending (Body : Type 0) : Type 0 where
  finished : Body → Ending Body
  retryable : Text → Ending Body
  raised : Text → Ending Body

abbrev pub is_temporary : ℕ → Bool
is_temporary status = any (λ s. s == status) (429 ∷ 500 ∷ 502 ∷ 503 ∷ 504 ∷ [])

abbrev pub is_denied : ℕ → Bool
is_denied status = status == 401 || status == 403

-- How long `_request` sleeps after an attempt: `min(2 ** attempt, 4)`
abbrev pub pause : ℕ → ℕ
pause attempt = if leb (2 ^ attempt) 4 then 2 ^ attempt else 4

module _ {Body : Type 0} (status_text : ℕ → Text) where
  -- The body of the loop of `_request`; `raise_for_status` raises from 400 on, and for redirects.
  unfoldable pub ending_of : Attempt Body → Ending Body
  ending_of (interrupted message) = retryable message
  ending_of (answered status body) =
      if is_temporary status
      then retryable (codes "Временная ошибка Google Sheets: HTTP " ++ status_text status)
      else if is_denied status
      then retryable
          (codes "Google Sheets отклонил доступ. Проверьте service account и права Editor")
      else if leb 200 status && ltb status 300
      then finished body
      else raised (status_text status)

  -- The loop: `left` attempts are left, `attempt` were made. With the pauses that it made.
  unfoldable pub request_loop : (ℕ → Attempt Body) → ℕ → ℕ → Text → Result Text Body × List ℕ
  unfolding ending_of
  request_loop send zero attempt last_error = (err last_error, [])
  request_loop send (suc left) attempt last_error =
      let again = λ (message : Text). request_loop send left (suc attempt) message in
      elim (ending_of (send attempt)) [
        | finished body ↦ (ok body, [])
        | raised message ↦ (err message, [])
        | retryable message ↦
            if left == 0
            then (err message, [])
            else ((again message).0, pause attempt ∷ (again message).1)
      ]

  -- `_request`, where `send` makes an attempt by its number
  unfoldable pub request : (ℕ → Attempt Body) → ℕ → Result Text Body × List ℕ
  unfolding request_loop
  request send retries = request_loop send retries 0 (codes "Неизвестная ошибка Google Sheets")
