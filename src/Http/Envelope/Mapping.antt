-- ===== src/Http/Envelope/Mapping.antt =====
-- What `MapError` and `WriteError` answer for every error.
use lumio_os.Prelude.{
  ℕ, ◌≤◌, String, ◌≡◌, refl, Bool, true, false, false≢true, sym, ◌∙◌, Option, none, some, [], arith,
  if◌then◌else◌, str_eq, eq_iff,
}
use lumio_os.Http.Envelope.{
  ApiError, Error, failure, code_unavailable, code_internal, status_for, map_error, map_sentinel,
  map_stale, map_path, failed_path, first, any, as_api_error, is_permission, is_not_exist,
  is_validation, is_stale, as_stale, is_services_unavailable, is_journal_unavailable,
  is_terminal_not_found, is_terminal_conflict, is_terminal_validation, is_deadline, write_error,
}

status_for_range : (code : String) → (400 ≤ status_for code) × (status_for code ≤ 503)
unfolding status_for
status_for_range code = ground arith

-- Every error response has an error status from 400 to 503 and the mapped error as its body, and
-- exactly the responses with the code "unavailable" ask the client to retry after a second.
pub write_error-status :
    (e : Error)
    → (400 ≤ (write_error {D = ℕ} e).status)
      × ((write_error {D = ℕ} e).status ≤ 503)
      × ((write_error {D = ℕ} e).body ≡ failure (map_error e))
      × ((write_error {D = ℕ} e).retry_after
          ≡ (if str_eq (map_error e).code code_unavailable then some 1 else none))
unfolding write_error
write_error-status e =
    ((status_for_range (map_error e).code).0, (status_for_range (map_error e).code).1, refl, refl)

-- What may be shown of an internal error.
abbrev pub Hides : ApiError → Type 0
Hides a = a.code ≡ code_internal → (a.message ≡ "Internal server error.") × (a.details ≡ [])

-- A code that is not "internal".
abbrev OtherCode : String → Type 0
OtherCode c = str_eq c code_internal ≡ false

not_internal : (a : ApiError) → OtherCode a.code → Hides a
not_internal a ne same = absurd (false≢true (sym ne ∙ (eq_iff a.code code_internal).1 same))

if-Hides : (b : Bool) (x y : ApiError) → OtherCode x.code → Hides y → Hides (if b then x else y)
if-Hides true x y ne h = not_internal x ne
if-Hides false x y ne h = h

map_stale-code : (o : Option (String × String)) → OtherCode (map_stale o).code
unfolding map_stale
map_stale-code none = refl
map_stale-code (some (expected, actual)) = refl

map_sentinel-Hides : (e : Error) → Hides (map_sentinel e)
unfolding map_sentinel
map_sentinel-Hides e = if-Hides (any is_validation e.causes) _ _ refl (
    if-Hides (any is_stale e.causes) _ _ (map_stale-code (first as_stale e.causes)) (
      if-Hides (any is_services_unavailable e.causes) _ _ refl (
        if-Hides (any is_journal_unavailable e.causes) _ _ refl (
          if-Hides (any is_terminal_not_found e.causes) _ _ refl (
            if-Hides (any is_terminal_conflict e.causes) _ _ refl (
              if-Hides (any is_terminal_validation e.causes) _ _ refl
                (if-Hides (any is_deadline e.causes) _ _ refl (λ _. (refl, refl)))))))))

map_path-Hides : (e : Error) (path : String) → Hides (map_path e path)
unfolding map_path
map_path-Hides e path =
    if-Hides (any is_permission e.causes) _ _ refl
      (if-Hides (any is_not_exist e.causes) _ _ refl (map_sentinel-Hides e))

-- An error that is not already an API error and is answered as "internal" shows nothing of itself:
-- the message is fixed and there are no details.
pub map_error-Hides :
    (e : Error)
    → first as_api_error e.causes ≡ none
    → (map_error e).code ≡ code_internal
    → ((map_error e).message ≡ "Internal server error.") × ((map_error e).details ≡ [])
unfolding map_error
map_error-Hides e plain = rw (plain, map_error) (by_path (failed_path e.causes))
  where
    by_path :
        (o : Option String) → Hides (elim o [ some path ↦ map_path e path | none ↦ map_sentinel e ])
    by_path none = map_sentinel-Hides e
    by_path (some path) = map_path-Hides e path
