-- ===== src/Wire.antt =====
-- Two programs that talk over a connection, as src/disk_mgr.c and the block functions of src/utils.c
-- do: each direction is a queue of packets, and a `read` gets bytes of the first one.
pub mod Talk
use cs356_mini_file_system.Base.{
  List, Option, [], drop, if◌then◌else◌, none, some, suc, take, zero, ℕ, ◌++◌, ◌-◌, ◌∷◌,
}
use cs356_mini_file_system.Utils.Socket.{buffer_size, ends_in_nul, left_over, packet}
use cs356_mini_file_system.Utils.Text.{Text, c_string}

-- `stopped` is undefined behaviour, or a loop that is cut off by its bound.
pub data Wire (A : Type 0) : Type 0 where
  done : A → Wire A
  stopped : Wire A
  hear : ℕ → (List ℕ → Wire A) → Wire A
  say : List ℕ → Wire A → Wire A

-- `get_msg` on the bytes that its `read` has got
unfoldable pub heard : List ℕ → Option Text
heard bytes = if ends_in_nul bytes then some (c_string bytes) else none

-- `get_msg` and `send_msg`
abbrev pub hear_msg : {A : Type 0} → (Option Text → Wire A) → Wire A
hear_msg next = hear (buffer_size - 1) (λ bytes. next (heard bytes))

abbrev pub say_msg : {A : Type 0} → Text → Wire A → Wire A
say_msg text next = say (packet text) next

-- a client and a server, and the packets on the way to each
pub record Config (A B : Type 0) : Type 0 where
  pub client : Wire A
  pub to_client : List (List ℕ)
  pub server : Wire B
  pub to_server : List (List ℕ)

-- a step of the server, while the client waits
unfoldable pub step_server :
    {A B : Type 0} → Wire A → List (List ℕ) → Wire B → List (List ℕ) → Config A B
step_server c i (say p s) j = record {
  client = c;
  to_client = i ++ p ∷ [];
  server = s;
  to_server = j;
}
step_server c i (hear n next) (p ∷ j) = record {
  client = c;
  to_client = i;
  server = next (take n p);
  to_server = left_over (drop n p) j;
}
step_server c i s j = record { client = c; to_client = i; server = s; to_server = j }

-- One step: of the client, or of the server if the client waits or is over.
unfoldable pub step_client :
    {A B : Type 0} → Wire A → List (List ℕ) → Wire B → List (List ℕ) → Config A B
step_client (say p c) i s j = record {
  client = c;
  to_client = i;
  server = s;
  to_server = j ++ p ∷ [];
}
step_client (hear n next) (p ∷ i) s j = record {
  client = next (take n p);
  to_client = left_over (drop n p) i;
  server = s;
  to_server = j;
}
step_client (hear n next) [] s j = step_server (hear n next) [] s j
step_client (done a) i s j = step_server (done a) i s j
step_client stopped i s j = step_server stopped i s j

abbrev pub step : {A B : Type 0} → Config A B → Config A B
step x = step_client x.client x.to_client x.server x.to_server

-- that many steps
unfoldable pub talk : {A B : Type 0} → ℕ → Config A B → Config A B
talk zero x = x
talk (suc n) x = talk n (step x)

-- nothing is on its way
abbrev pub quiet : {A B : Type 0} → Wire A → Wire B → Config A B
quiet c s = record { client = c; to_client = []; server = s; to_server = [] }
