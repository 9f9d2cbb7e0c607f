-- ===== src/Resolve/Agreement.antt =====
-- The client's prediction of a conflict against the server's arbitration of the same commit.
use vaultsyncforagents.Prelude.{ℕ, ◌≡◌, ◌≢◌, ◌↔◌, not, Option, Str, arith, ap}
use vaultsyncforagents.Prelude.Dict.{Dict}
use vaultsyncforagents.Types.{LogicalClock, Version}
use vaultsyncforagents.Clock.{compare_clocks, next_clock, is_positive, zero_sign}
use vaultsyncforagents.Clock.Order.{compare_clocks-opposite, compare_clocks-eq, compare_clocks_self}
use vaultsyncforagents.Platform.{Platform}
use vaultsyncforagents.LocalIndex.{LocalIndex, LocalIndexEntry}
use vaultsyncforagents.Arbitrate.{ArbitrationFileState, clock_of, incoming_wins}
use vaultsyncforagents.Resolve.Ops.{RemoteFile, clock_of_entry}
use vaultsyncforagents.Resolve.Contested.{remote_wins, local_clock}

either_wins :
    (a b : LogicalClock)
    → (is_positive (compare_clocks b a) ≡ not (is_positive (compare_clocks a b))) ↔ (a ≢ b)
either_wins a b = (
  λ h e. ground (
    arith,
    compare_clocks_self b,
    ap (λ c. compare_clocks c b) e,
    ap (λ c. compare_clocks b c) e,
  ),
  λ differ. ground (
    arith,
    compare_clocks-opposite a b,
    λ (z : compare_clocks a b ≡ zero_sign). differ (compare_clocks-eq a b z),
  ),
)

-- For an index entry with the clock of the commit's parent and a manifest entry with the clock of
-- the standing head: the client predicts the side that the server lets win exactly when the
-- tentative clock of the commit is not the very clock of the head.
pub remote_wins-incoming_wins :
    (u : Platform) (index : LocalIndex) (manifest : Dict RemoteFile) (device_id name : Str)
    (now : ℕ) (devices : Dict Str) (entry : Option LocalIndexEntry) (remote : RemoteFile)
    (parent : Option Version) (target : ArbitrationFileState)
    → clock_of_entry entry ≡ clock_of parent
    → remote.clock ≡ target.head.clock
    → (remote_wins u index manifest device_id name now entry remote
        ≡ not (incoming_wins u device_id now devices parent target))
      ↔ (next_clock (clock_of parent) device_id ≢ target.head.clock)
unfolding remote_wins local_clock incoming_wins
remote_wins-incoming_wins u index manifest device_id name now devices entry remote parent target
      same_parent same_head =
    rw (same_parent, same_head)
      (either_wins (next_clock (clock_of parent) device_id) target.head.clock)
