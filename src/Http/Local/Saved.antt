-- ===== src/Http/Local/Saved.antt =====
-- A save that is sent twice.
use lumio_os.Prelude.{suc, ◌+◌, ◌≤◌, arith, ◌≡◌, refl, ap, ◌∙◌, String, Option, none, some}
use lumio_os.Prelude.Action.{Result, ok, err, Post}
use lumio_os.Http.Idempotency.{IdemStore, Clock, get, mutate, replay_header, idem_ttl}
use lumio_os.Http.Idempotency.Replay.{mutate_twice}
use lumio_os.Files.System.{Bytes, Error, State, System}
use lumio_os.Files.User.Write.{WriteResult, write}
use lumio_os.Files.User.Write.Safe.{Written, Untouched, write_saved}
use lumio_os.Files.System.Count.{replacements}
use lumio_os.Files.System.Quiet.{On}
use lumio_os.Http.Local.{
  Answer, WriteBody, checked_content, finished, file_written, run_write, write_checked,
  handle_files_write,
}

module _ {W : Type 0} (sys : System W) (decode : String → Option Bytes) where
  handle_accepted :
      (req : WriteBody) (content : Bytes) (store : IdemStore Answer) (t : Clock) (s : State W)
      → checked_content decode req ≡ ok content
      → handle_files_write sys decode (some req) store t s
        ≡ mutate store req.request_id t (run_write sys req content) s
  unfolding handle_files_write
  handle_accepted req content store t s h = ap (λ r. write_checked sys req r store t s) h

  run_write-state :
      (req : WriteBody) (content : Bytes) (s : State W)
      → (run_write sys req content s).1 ≡ (write sys req.path content req.expected_revision s).1
  run_write-state req content s = go (write sys req.path content req.expected_revision s)
    where
      go :
          (r : Result Error WriteResult × State W)
          → ◌≡◌ {A = State W} (finished file_written r).1 r.1
      go (ok a, s) = refl
      go (err e, s) = refl

  -- A write replaces at most one file.
  write_at_most_once :
      (p : String) (content : Bytes) (expected : String) (s : State W)
      → replacements (write sys p content expected s).1.calls ≤ suc (replacements s.calls)
  write_at_most_once p content expected s =
      go (write sys p content expected s) (write_saved sys s p content expected)
    where
      go :
          (r : Result Error WriteResult × State W)
          → Post (λ _. On (Written sys s p content expected)) (On (Untouched sys s)) r
          → replacements r.1.calls ≤ suc (replacements s.calls)
      go (ok a, u) (dir, existing, at, (there, fits, n, k)) = omega (arith, n)
      go (err e, u) n = omega (arith, n)

  -- A save that is sent twice under one request id. When no answer is stored for the id and both bodies
  -- pass the checks, the first request leaves the file system as files.Write leaves it, and has replaced
  -- at most one file more than before; the second, up to 24 hours after the answer and whatever its path and its
  -- content are, gets the same status and the same body marked as a replay, and changes neither the
  -- file system nor the stored answers.
  pub saved_once :
      (req req' : WriteBody) (content content' : Bytes) (store : IdemStore Answer) (t t' : Clock)
      (s s' : State W)
      → checked_content decode req ≡ ok content
      → checked_content decode req' ≡ ok content'
      → req'.request_id ≡ req.request_id
      → (get store req.request_id t.looked_up).0 ≡ none
      → t'.looked_up ≤ t.answered + idem_ttl
      → let first = handle_files_write sys decode (some req) store t s in
        (first.2 ≡ (write sys req.path content req.expected_revision s).1)
        × (replacements first.2.calls ≤ suc (replacements s.calls))
        × (handle_files_write sys decode (some req') first.1 t' s' ≡ (
          record { header = replay_header; status = (first.0).status; body = (first.0).body },
          first.1,
          s',
        ))
  saved_once req req' content content' store t t' s s' h h' same absent soon =
      rw (handle_accepted req content store t s h) (
        let first = mutate store req.request_id t (run_write sys req content) s in
        let twice =
          mutate_twice store req.request_id t t' (run_write sys req content)
            (run_write sys req' content') s s' absent soon in
        let left = twice.2 ∙ run_write-state req content s in
        (
          left,
          rw left (write_at_most_once req.path content req.expected_revision s),
          handle_accepted req' content' first.1 t' s' h'
              ∙ ap (λ id. mutate first.1 id t' (run_write sys req' content') s') same
              ∙ twice.3,
        ))
