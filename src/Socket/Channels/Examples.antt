-- ===== src/Socket/Channels/Examples.antt =====
-- Subscriptions to a build without terminals.
use lumio_os.Prelude.{ℕ, ◌≡◌, refl, true, false, none, some, inl, inr}
use lumio_os.Prelude.Int.{pos}
use lumio_os.Http.Envelope.{new_error, code_validation_failed}
use lumio_os.Journal.Query.{Library}
use lumio_os.Socket.Channels.{
  absent, decoded, no_params, Deps, metrics, Terminals, err_validation, err_unavailable,
  start_channel, handle_terminal_input,
}
use lumio_os.Socket.Channels.Parameters.{Checked, start_channel-Checked}

abbrev library : Library
library = record {
  to_lower = λ s. s;
  is_rfc3339 = λ s. true;
  format_utc = λ s. s;
  itoa = λ n. "";
  byte_length = λ s. 3;
}

-- The world is nothing but a number.
abbrev deps : Deps ℕ
deps = record {
  services_available = true;
  journal_available = true;
  has_terminal = false;
  has_broker = true;
  attach = λ t w. (inr t, w);
  open_terminal = λ o w. (inr "t", w);
  kill = λ t w. w;
  byte_length = λ s. 3;
  lib = library;
}

default_interval : start_channel deps "system.metrics" absent 0 ≡ (inr (metrics (pos 2000)), 0)
unfolding start_channel
default_interval = refl

too_fast :
    start_channel deps "system.metrics" (decoded (record no_params { interval_ms = pos 499 })) 0
    ≡ (inl (err_validation "intervalMs must be between 500 and 60000"), 0)
unfolding start_channel
too_fast = refl

no_terminal :
    start_channel deps "terminal.open" absent 0
    ≡ (inl (err_unavailable "terminal is not available in this build"), 0)
unfolding start_channel
no_terminal = refl

abbrev sess : Terminals ℕ
sess = record { decode = λ s. none; write = λ b w. w; resize = λ c r w. (true, w) }

not_base64 :
    handle_terminal_input sess (some record { kind = "stdin"; data' = "?"; cols = 0; rows = 0 }) 0
    ≡ (some (new_error code_validation_failed "data must be base64."), 0)
unfolding handle_terminal_input
not_base64 = refl

start_channel-Checked_example :
    Checked deps "updates.progress"
      (start_channel deps "updates.progress" (decoded (record no_params { request_id = "abc" })) 0)
start_channel-Checked_example =
    start_channel-Checked deps "updates.progress"
      (decoded (record no_params { request_id = "abc" })) 0
