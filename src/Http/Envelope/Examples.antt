-- ===== src/Http/Envelope/Examples.antt =====
-- Tests of the error mapping, and its theorems at concrete errors.
use lumio_os.Prelude.{ℕ, ◌≡◌, refl, [], ◌∷◌}
use lumio_os.Http.Envelope.{
  Error, path_error, eacces, other_cause, terminal_conflict, failed_path, map_error, status_for,
  write_error,
}
use lumio_os.Http.Envelope.Mapping.{map_error-Hides}

abbrev denied : Error
denied = record {
  causes = path_error "/etc/shadow" ∷ eacces ∷ [];
  message = "open /etc/shadow: permission denied";
}

abbrev odd : Error
odd = record { causes = other_cause "boom" ∷ []; message = "boom" }

denied_status : status_for (map_error denied).code ≡ 403
unfolding status_for map_error failed_path
denied_status = refl

conflict_status :
    (write_error {D = ℕ} (record { causes = terminal_conflict ∷ []; message = "busy" })).status
    ≡ 409
unfolding write_error status_for map_error failed_path
conflict_status = refl

map_error-Hides_example : (map_error odd).message ≡ "Internal server error."
unfolding map_error failed_path
map_error-Hides_example = (map_error-Hides odd refl refl).0
