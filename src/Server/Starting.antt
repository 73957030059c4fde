-- ===== src/Server/Starting.antt =====
-- `NewServer` and `Run` of pkg/core/server.go up to the relay: the keys of the sessions, and the two
-- listeners. The random bytes, SHA-512/256 and the texts in hexadecimal are parameters.
use relaybaton.Common.{
  ℕ, String, Bool, Option, none, some, [], ◌++◌, ◌=ℕ◌, if◌then◌else◌, Bytes, length, Result, ok,
  err, ◌>>=◌, ◌>>◌, guard,
}
use relaybaton.Sockets.Memory.{MemSocket, new_mem_socket}
use relaybaton.Server.Buckets.{Buckets}

-- What a server keeps beside its configuration.
pub record Server : Type 0 where
  pub buckets : Buckets
  pub ms : MemSocket

new_server : Server
new_server = record { buckets = record { places = []; limiters = [] }; ms = new_mem_socket }

pub data StartError : Type 0 where
  random_error short_key listen_error : StartError

pub record Random : Type 0 where
  -- The bytes that `rand.Read` gives for the first, the second and the third slice.
  pub read : ℕ → ℕ → Option Bytes
  -- `sha512.New512_256()` of no bytes.
  pub empty_sum : Bytes
  pub hex : Bytes → String
  -- The eight bytes of the time.
  pub now : Bytes

pub record SessionKeys : Type 0 where
  pub name : String
  pub auth_key : Bytes
  pub crypt_key : Bytes

-- `rand.Read` of a slice, and the test of the count.
read_key : Random → ℕ → ℕ → Result StartError Bytes
read_key random which size = checked (random.read which size)
  where
    checked : Option Bytes → Result StartError Bytes
    checked none = err random_error
    checked (some b) = if length b =ℕ size then ok b else err short_key

-- `Sum` appends the sum of what was written, which is nothing, to its argument.
pub session_keys : Random → Result StartError SessionKeys
unfolding read_key
session_keys random = do
  auth_key ← read_key random 0 64
  crypt_key ← read_key random 1 32
  session_random ← read_key random 2 16
  ok (record {
    name = random.hex (random.now ++ session_random ++ random.empty_sum);
    auth_key = auth_key;
    crypt_key = crypt_key;
  })

-- The web interface is served on the socket in memory, and the relay on port 80 of IPv4.
pub run : Random → (ℕ → Bool) → Result StartError (SessionKeys × ℕ)
unfolding session_keys
run random listens = do keys ← session_keys random; guard (listens 80) listen_error; ok (keys, 80)
