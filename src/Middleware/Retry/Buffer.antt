-- ===== src/Middleware/Retry/Buffer.antt =====
-- What the buffering writer of internal/middleware/retry.go lets through to the client.
use balance_x.Http.{Action, put_header, write_status, write_body}
use balance_x.Middleware.Retry.{
  apply_all, Writer, finish, flush, apply, set_header, write_header, new_writer, write,
  header_calls, get_current_attempt, send_status, body_calls,
}
use balance_x.Common.{ℕ, ◌≡◌, false, String, List, [], ◌∷◌, ◌++◌, Option, sym, ◌∙◌, ap}
use mathlib.Core.List.{append-nil, append_assoc}
use balance_x.Common.Dict.{Dict, insert}

-- The answer that a series of calls amounts to: the last status, all bytes, the headers.
unfoldable pub last_status : ℕ → List Action → ℕ
last_status code [] = code
last_status code (put_header key values ∷ actions) = last_status code actions
last_status code (write_status new ∷ actions) = last_status new actions
last_status code (write_body bytes ∷ actions) = last_status code actions

unfoldable pub all_bytes : List Action → List ℕ
all_bytes [] = []
all_bytes (put_header key values ∷ actions) = all_bytes actions
all_bytes (write_status new ∷ actions) = all_bytes actions
all_bytes (write_body bytes ∷ actions) = bytes ++ all_bytes actions

unfoldable pub all_headers : Dict (List String) → List Action → Dict (List String)
all_headers headers [] = headers
all_headers headers (put_header key values ∷ actions) =
    all_headers (insert key values headers) actions
all_headers headers (write_status new ∷ actions) = all_headers headers actions
all_headers headers (write_body bytes ∷ actions) = all_headers headers actions

abbrev buffered : ℕ → List ℕ → Dict (List String) → Writer
buffered code bytes headers = record {
  status_code = code;
  body = bytes;
  headers = headers;
  committed = false;
  sent = [];
}

apply_all-buffered :
    (actions : List Action) (code : ℕ) (bytes : List ℕ) (headers : Dict (List String))
    → apply_all actions (buffered code bytes headers)
      ≡ buffered
          (last_status code actions)
          (bytes ++ all_bytes actions)
          (all_headers headers actions)
unfolding apply_all apply set_header write_header write last_status all_bytes all_headers
apply_all-buffered [] code bytes headers =
    ap (λ b. buffered code b headers) (sym (append-nil bytes))
apply_all-buffered (put_header key values ∷ actions) code bytes headers =
    apply_all-buffered actions code bytes (insert key values headers)
apply_all-buffered (write_status new ∷ actions) code bytes headers =
    apply_all-buffered actions new bytes headers
apply_all-buffered (write_body more ∷ actions) code bytes headers =
    apply_all-buffered actions code (bytes ++ more) headers
    ∙ ap (λ b. buffered (last_status code actions) b (all_headers headers actions))
        (append_assoc bytes more (all_bytes actions))

-- Whatever calls a handler makes on the buffering writer, nothing reaches the client before the end.
-- What `finish` then writes is each header's values with X-Attempts set, the status that was written
-- last (200 if none was), and all bytes in order as one body, if there are any. A second flush adds
-- nothing.
pub finish_lem :
    (itoa : ℕ → String) (context : Option ℕ) (actions : List Action)
    → ((apply_all actions new_writer).sent ≡ [])
      × (finish itoa context (apply_all actions new_writer)
          ≡ header_calls (
              insert "X-Attempts"
                (itoa (get_current_attempt context) ∷ [])
                (all_headers [] actions))
            ++ send_status (last_status 200 actions) ∷ body_calls (all_bytes actions))
      × (flush (flush (apply_all actions new_writer)) ≡ flush (apply_all actions new_writer))
unfolding finish flush set_header new_writer
finish_lem itoa context actions =
    let e = apply_all-buffered actions 200 [] [] in
    (
      ap (λ w. w.sent) e,
      ap (λ w. finish itoa context w) e,
      ap (λ w. flush (flush w)) e ∙ sym (ap flush e),
    )
