-- ===== src/Files/System.antt =====
-- The calls of the operating system that server/internal/files and server/internal/privfiles make.
-- The file system is a world `W`, and each call answers from it and changes it. What was done is also
-- written to `calls`, newest first. A call that failed is not in it, nor is one that only reads.
pub mod Count
pub mod Exact
pub mod Quiet
pub mod Run
use lumio_os.Prelude.{ℕ, String, Bool, true, false, Option, none, some, List, [], ◌∷◌}
use lumio_os.Prelude.Action.{Action, Result, ok, err, ◌>>=◌, next}

abbrev pub Bytes : Type 0
Bytes = List ℕ

-- What the error texts and chains say. `permission` is EACCES, EPERM or EBUSY on a path.
pub data Error : Type 0 where
  err_validation : String → Error
  stale_error : String → String → Error
  not_found permission : String → Error
  system_error : String → Error

-- What `os.Lstat` and `os.Stat` tell.
pub record Info : Type 0 where
  pub is_dir : Bool
  pub is_symlink : Bool
  pub is_regular : Bool
  pub size : ℕ
  pub mode : ℕ
  pub uid : ℕ
  pub gid : ℕ

-- `kept` is the rename of a rollback copy into its place, and `replaced` that of a temporary file into
-- the place of the target, each from the first path to the second; `moved` is the rename of a file into
-- the trash, and `checked` a validator that accepted a candidate.
pub data Call : Type 0 where
  created removed closed synced : String → Call
  wrote : String → Bytes → Call
  chmoded : String → ℕ → Call
  chowned : String → ℕ → ℕ → Call
  made_dir : String → Call
  checked : String → String → Call
  kept replaced : String → String → Call
  moved : String → String → Call

pub record State {ℓ} (W : Type ℓ) : Type ℓ where
  pub calls : List Call
  pub world : W

-- path/filepath, crypto/sha256 with its prefix, and the system calls; `stat` gives `none` for a file
-- that does not exist.
pub record System {ℓ} (W : Type ℓ) : Type ℓ where
  pub is_abs : String → Bool
  pub clean : String → String
  pub dir : String → String
  pub base : String → String
  pub join : String → String → String
  pub revision : Bytes → String
  pub eval_symlinks : String → W → Result Error String
  pub lstat : String → W → Result Error Info
  pub stat : String → W → Result Error (Option Info)
  pub read_file : String → W → Result Error Bytes
  pub create_temp : String → String → W → Result Error String × W
  pub write : String → Bytes → W → Option Error × W
  pub sync : String → W → Option Error × W
  pub chmod : String → ℕ → W → Option Error × W
  pub chown : String → ℕ → ℕ → W → Option Error × W
  pub close : String → W → Option Error × W
  pub rename : String → String → W → Option Error × W
  pub remove : String → W → Option Error × W
  pub make_dir : String → W → Option Error × W
  pub sync_dir : String → W → W

abbrev pub M {ℓ κ} : Type ℓ → Type κ → Type (ℓ ⊔ κ)
M W A = Action (State W) Error A

-- What a call leaves in the state.
abbrev pub logged {ℓ} :
    {W : Type ℓ} → Call → State W → Option Error × W → Result Error (Unit {0}) × State W
logged c s (none, w) = (ok tt, record s { calls = c ∷ s.calls; world = w })
logged c s (some e, w) = (err e, record s { world = w })

abbrev pub call {ℓ} : {W : Type ℓ} → Call → (W → Option Error × W) → M W (Unit {0})
call c op s = logged c s (op s.world)

abbrev pub read {ℓ κ} : {W : Type ℓ} {A : Type κ} → (W → Result Error A) → M W A
read op s = (op s.world, s)

abbrev made {ℓ} : {W : Type ℓ} → State W → Result Error String × W → Result Error String × State W
made s (ok path, w) = (ok path, record s { calls = created path ∷ s.calls; world = w })
made s (err e, w) = (err e, record s { world = w })

abbrev ignored {ℓ} : {W : Type ℓ} → Call → State W → Option Error × W → State W
ignored c s (none, w) = record s { calls = c ∷ s.calls; world = w }
ignored c s (some e, w) = record s { world = w }

abbrev finally {ℓ κ} :
    {W : Type ℓ} {A : Type κ}
    → (State W → State W)
    → Result Error A × State W
    → Result Error A × State W
finally f (r, s) = (r, f s)

abbrev on_error {ℓ κ} :
    {W : Type ℓ} {A : Type κ}
    → (State W → State W)
    → Result Error A × State W
    → Result Error A × State W
on_error f (ok a, s) = (ok a, s)
on_error f (err e, s) = (err e, f s)

module _ {ℓ} {W : Type ℓ} (sys : System W) where
  unfoldable pub create_temp : String → String → M W String
  create_temp dir pattern s = made s (sys.create_temp dir pattern s.world)

  -- defer os.Remove(path), around the rest
  unfoldable pub with_removal {κ} : {A : Type κ} → String → M W A → M W A
  with_removal path m s = finally (λ t. ignored (removed path) t (sys.remove path t.world)) (m s)

  -- `_ = tmp.Close()` before the return of an error
  unfoldable pub or_close {κ} : {A : Type κ} → String → M W A → M W A
  or_close path m s = on_error (λ t. ignored (closed path) t (sys.close path t.world)) (m s)

  unfoldable pub sync_dir : String → M W (Unit {0})
  sync_dir dir s = (ok tt, record s { world = sys.sync_dir dir s.world })
