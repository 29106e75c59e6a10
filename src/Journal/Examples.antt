-- ===== src/Journal/Examples.antt =====
-- A page of the journal of one unit.
use lumio_os.Prelude.{◌≡◌, refl, String, true, false, some, List, [], ◌∷◌, inr, string_eq}
use lumio_os.Prelude.Map.{insert}
use lumio_os.Prelude.Int.{pos}
use lumio_os.Prelude.Text.{codes, all_in}
use lumio_os.Journal.Query.{Query, Library, validate, args, priority_names, unit_name_pattern}
use lumio_os.Journal.Entry.{
  Entry, plain, numbers, Codec, parse_line, add_values, add_value, value_to_string, to_bytes,
  priority_name,
}
use lumio_os.Journal.Cli.{Output, printed, query, parse_lines, follow_lines}
use lumio_os.Journal.Cli.Pages.{Good, query_safe}

abbrev lib : Library
lib = record {
  to_lower = λ s. s;
  is_rfc3339 = λ s. true;
  format_utc = λ s. s;
  itoa = λ n. "200";
  byte_length = λ s. 0;
}

-- Every line is the same object.
abbrev codec : Codec
codec = record {
  unmarshal = λ line. some (
      ("__CURSOR", plain (codes "c1"))
      ∷ ("PRIORITY", plain (codes "3"))
      ∷ ("MESSAGE", numbers (pos 104 ∷ pos 105 ∷ []))
      ∷ ("_PID", plain (codes "7"))
      ∷ ("__SEQNUM", plain (codes "9"))
      ∷ []);
  valid = λ s. true;
  format_time = λ s. s;
}

abbrev journalctl : List String → Output
journalctl list = printed (codes "x" ∷ [] ∷ codes "y" ∷ []) true

abbrev ssh : Query
ssh = record {
  unit = "ssh.service";
  priority = "err";
  since = "";
  boot = "current";
  limit = pos 0;
  after_cursor = "";
}

abbrev entry : Entry
entry = record {
  cursor = codes "c1";
  ts = [];
  priority = codes "err";
  unit = [];
  message = codes "hi";
  fields = ("_PID", codes "7") ∷ [];
}

arguments_of_unit :
    args lib ssh false
    ≡ "--output=json" ∷ "--no-pager" ∷ "--quiet" ∷ "-u" ∷ "ssh.service" ∷ "-p" ∷ "err" ∷ "--boot=0"
      ∷ "-n" ∷ "200" ∷ []
unfolding args
arguments_of_unit = refl

page_of_unit :
    query lib codec journalctl true ssh
    ≡ inr record { entries = entry ∷ entry ∷ []; next_cursor = codes "c1" }
unfolding query validate priority_names unit_name_pattern all_in parse_lines parse_line add_values
    add_value value_to_string to_bytes priority_name insert
page_of_unit = refl

validate_option :
    validate lib (record ssh { unit = "-M" }) ≡ some "unit contains invalid characters"
unfolding validate
validate_option = refl

-- One entry is wanted.
follow_first :
    follow_lines codec (λ e (es : List Entry). (false, e ∷ es)) (codes "x" ∷ codes "y" ∷ []) []
    ≡ entry ∷ []
unfolding follow_lines parse_line add_values add_value value_to_string to_bytes priority_name insert
follow_first = refl

query_safe_example :
    (query lib codec journalctl true ssh ≡ query lib codec journalctl true ssh)
    × Good (query lib codec journalctl true ssh)
query_safe_example = query_safe lib codec journalctl journalctl (λ list fit. refl) true ssh
