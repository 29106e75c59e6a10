-- ===== src/Files/User/Read.antt =====
-- `Read` of server/internal/files/files.go.
pub mod Whole
use lumio_os.Prelude.{
  ℕ, ◌+◌, ◌-◌, ◌≡◌, refl, String, Bool, true, false, ◌&&◌, ◌||◌, not, Option, none, some, List, [],
  ◌∷◌, ◌++◌, ltb, ◌==◌, if◌then◌else◌, Bool-cases, inl, inr, ap, ◌∙◌, sym, str_eq,
}
use lumio_os.Prelude.Lists.{length, take, drop, take-append_drop}
use lumio_os.Prelude.Action.{Action, Result, ok, err, ◌>>=◌, ◌>>◌, next, pure, guard}
use lumio_os.Files.System.{Bytes, Error, err_validation, Info, State, System, M, read}
use lumio_os.Files.User.{clean_path}

abbrev pub max_read_bytes : ℕ
max_read_bytes = 1048576

abbrev pub detect_byte_count : ℕ
detect_byte_count = 8000

pub record ReadResult : Type 0 where
  pub path : String
  pub size_bytes : ℕ
  pub revision : String
  pub encoding : String
  pub content : Option String
  pub is_truncated : Bool

-- unicode/utf8 and encoding/base64
pub record Codec : Type 0 where
  pub valid : Bytes → Bool
  pub encode : Bytes → String

unfoldable pub has_zero : Bytes → Bool
has_zero [] = false
has_zero (b ∷ bs) = b == 0 || has_zero bs

module _ (codec : Codec) where
  -- The sample without its last i bytes, when more than i are there.
  abbrev valid_without : Bytes → ℕ → Bool
  valid_without sample i = ltb i (length sample) && codec.valid (take (length sample - i) sample)

  abbrev detect_sample : Bytes → String
  detect_sample sample =
      if has_zero sample
      then "binary"
      else if codec.valid sample
      then "utf-8"
      else if valid_without sample 1 || valid_without sample 2 || valid_without sample 3
      then "utf-8"
      else "binary"

  unfoldable pub detect_encoding : Bytes → String
  detect_encoding head = detect_sample (take detect_byte_count head)

  abbrev pub encoded : Bytes → Option String
  encoded head = if str_eq (detect_encoding head) "binary" then none else some (codec.encode head)

  module _ {ℓ} {W : Type ℓ} (sys : System W) where
    -- The hash runs over what the first read gives and then over the rest.
    abbrev pub result : String → ℕ → Bytes → ReadResult
    result path size bytes =
        let first = take (max_read_bytes + 1) bytes in
        let is_truncated = ltb max_read_bytes (length first) in
        let head = if is_truncated then take max_read_bytes first else first in
        record {
          path = path;
          size_bytes = size;
          revision = sys.revision (first ++ drop (max_read_bytes + 1) bytes);
          encoding = detect_encoding head;
          content = encoded head;
          is_truncated = is_truncated;
        }

    unfoldable pub read_file : String → M W ReadResult
    unfolding clean_path
    read_file p = do
      clean ← clean_path sys p
      real ← read (sys.eval_symlinks clean)
      info ← read (sys.lstat real)
      guard info.is_dir (err_validation "path is a directory")
      bytes ← read (sys.read_file real)
      pure (result clean info.size bytes)
