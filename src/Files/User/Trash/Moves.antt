-- ===== src/Files/User/Trash/Moves.antt =====
-- What a call of `Trash` moves.
use lumio_os.Prelude.{ℕ, ◌<◌, ◌≡◌, ◌⊎◌, String, Bool, true, false, none, List, [], ◌∷◌, str_eq}
use lumio_os.Prelude.Action.{Result, ok, err}
use lumio_os.Files.System.{Error, Call, moved, State, System}
use lumio_os.Files.System.Run.{Run}
use lumio_os.Files.User.Trash.{Desk, Trashing, trash_dir, free, candidate, in_trash, prepare, trash}

-- The moves among the calls, newest first.
unfoldable pub moves : List Call → List (String × String)
moves [] = []
moves (moved real dest ∷ cs) = (real, dest) ∷ moves cs
moves (_ ∷ cs) = moves cs

module _ {W : Type 0} (sys : System W) (desk : Desk W) where
  -- A name among the first `fuel` is free in the trash of the user, when `Trash` looks for one.
  abbrev pub HasFree : ℕ → String → State W → Type 0
  HasFree fuel p s =
      (t : Trashing) (u : State W)
      → prepare sys desk p s ≡ (ok t, u)
      → (k : ℕ) × (k < fuel)
        × (free sys desk (candidate sys desk (sys.join t.trash "files") (sys.base t.real) k) u.world
            ≡ true)

  -- The file that a path names, in the state `s`: it is not the root, and, in the state `at`, neither
  -- the user's trash nor in it.
  pub record Movable (p : String) (s : State W) (real trash : String) (at : W) : Type 0 where
    pub names : sys.eval_symlinks (sys.clean p) s.world ≡ ok real
    pub no_root : str_eq real "/" ≡ false
    pub users_trash : trash_dir sys desk ≡ ok trash
    pub outside : in_trash sys desk real (sys.eval_symlinks trash at) ≡ false

  -- Exactly one move, of that file, to a name for it in that trash that does not exist right before.
  pub record Moved (p : String) (s u : State W) : Type 0 where
    pub real : String
    pub trash : String
    pub round : ℕ
    pub at : W
    pub movable : Movable p s real trash at
    pub is_free :
        free sys desk (candidate sys desk (sys.join trash "files") (sys.base real) round) at ≡ true
    pub renames :
        (sys.rename real (candidate sys desk (sys.join trash "files") (sys.base real) round) at).0
        ≡ none
    pub once :
        moves u.calls
        ≡ (real, candidate sys desk (sys.join trash "files") (sys.base real) round) ∷ []

  abbrev Unmoved : State W → Type 0
  Unmoved s = moves s.calls ≡ []

  abbrev Prepared : String → State W → Trashing → State W → Type 0
  Prepared p s t u = Unmoved u × Movable p s t.real t.trash u.world

  abbrev pub Trashed : String → State W → Result Error Bool × State W → Type 0
  Trashed p s (ok r, u) = Moved p s u
  Trashed p s (err e, u) = Unmoved u ⊎ Moved p s u
