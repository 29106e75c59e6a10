-- ===== src/Socket/Replay.antt =====
-- server/internal/wsapi/channels.go: what `runTerminal` first sends to a connection that has attached to
-- a terminal. An event is its bytes, which base64 carries over.
pub mod Shown
mod Examples
use lumio_os.Prelude.{ℕ, zero, suc, Bool, true, false, List, [], ◌∷◌, if◌then◌else◌}
use lumio_os.Prelude.Lists.{length, take, drop}

abbrev pub replay_chunk_bytes : ℕ
replay_chunk_bytes = 16384

-- The loop over `att.Replay`, with fuel for as many rounds as there are bytes.
unfoldable pub chunks_of : ℕ → ℕ → List ℕ → List (List ℕ)
chunks_of n zero bytes = []
chunks_of n (suc fuel) [] = []
chunks_of n (suc fuel) (b ∷ bytes) = take n (b ∷ bytes) ∷ chunks_of n fuel (drop n (b ∷ bytes))

unfoldable pub replay_chunks : List ℕ → List (List ℕ)
unfolding chunks_of
replay_chunks bytes = chunks_of replay_chunk_bytes (length bytes) bytes
