-- ===== src/Journal/Cli/Pages.antt =====
-- server/internal/journal/cli.go: what holds of every page of entries.
use lumio_os.Prelude.{
  ◌≡◌, refl, ap, String, Bool, true, false, ◌&&◌, Option, none, some, List, [], ◌∷◌, str_eq,
  Bool-cases, inl, inr,
}
use lumio_os.Journal.Query.{Query, Library, validate, args}
use lumio_os.Journal.Query.Arguments.{Fit, args-Fit}
use lumio_os.Journal.Entry.{Bytes, Entry, Codec, parse_line}
use lumio_os.Journal.Entry.Bounds.{Bounded, OnSome, parse_line-Bounded}
use lumio_os.Journal.Cli.{
  Result, Output, printed, failed, Answer, add_entry, last_cursor, parse_lines, read_output, query,
  answered, previous_boot_unavailable,
}

pub data AllBounded : List Entry → Type 0 where
  no_entry : AllBounded []
  one_more : (e : Entry) {es : List Entry} → Bounded e → AllBounded es → AllBounded (e ∷ es)

abbrev pub Good : Answer Result → Type 0
Good (inl e) = Unit {0}
Good (inr r) = AllBounded r.entries × (r.next_cursor ≡ last_cursor r.entries)

module _ (codec : Codec) where
  add_entry-AllBounded :
      (e : Option Entry) (es : List Entry) → OnSome e → AllBounded es → AllBounded (add_entry e es)
  add_entry-AllBounded none es h hs = hs
  add_entry-AllBounded (some e) es h hs = one_more e h hs

  parse_lines-AllBounded : (lines : List Bytes) → AllBounded (parse_lines codec lines)
  unfolding parse_lines
  parse_lines-AllBounded [] = no_entry
  parse_lines-AllBounded (line ∷ lines) =
      add_entry-AllBounded (parse_line codec line) (parse_lines codec lines)
        (parse_line-Bounded codec line) (parse_lines-AllBounded lines)

  read_output-Good : (q : Query) (o : Output) → Good (read_output codec q o)
  read_output-Good q (printed lines true) = (parse_lines-AllBounded lines, refl)
  read_output-Good q (printed lines false) = tt
  read_output-Good q (failed stderr) =
      elim (Bool-cases (str_eq q.boot "previous" && previous_boot_unavailable stderr)) [
        | inl e ↦ rw (e) (no_entry, refl)
        | inr e ↦ rw (e) tt
      ]

module _ (lib : Library) (codec : Codec) where
  answered-Good :
      (journalctl : List String → Output) (q : Query) (v : Option String)
      → Good (answered lib codec journalctl q v)
  answered-Good journalctl q none = read_output-Good codec q (journalctl (args lib q false))
  answered-Good journalctl q (some message) = tt

  module _ (j k : List String → Output)
      (same : (list : List String) → Fit lib list → j list ≡ k list) where
    answered_same :
        (q : Query) (v : Option String)
        → validate lib q ≡ v
        → answered lib codec j q v ≡ answered lib codec k q v
    answered_same q none e =
        ap (read_output codec q) (same (args lib q false) (args-Fit lib q false e))
    answered_same q (some message) e = refl

    -- A query calls journalctl, if at all, with fixed options and checked values only: its answer is the
    -- same for any two programs that agree on such arguments. Whatever the program prints, a page of
    -- entries tells of each its cursor, which is not empty, at most 16 KiB of its message, and fields of at
    -- most 4 KiB whose names do not start with two underscores; the next cursor is that of the last entry.
    pub query_safe :
        (available : Bool) (q : Query)
        → (query lib codec j available q ≡ query lib codec k available q)
          × Good (query lib codec j available q)
    unfolding query
    query_safe false q = (refl, tt)
    query_safe true q = (answered_same q (validate lib q) refl, answered-Good j q (validate lib q))
