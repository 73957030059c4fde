-- ===== src/Client/History/Entries.antt =====
-- The entries of the client's map of connections, and what a call can change of them: pkg/core/map.go.
use mathlib.Core.Path.{subst}
use relaybaton.Common.{
  String, ◌≡◌, refl, sym, ap, ◌∙◌, inl, inr, false, none, some, arith, Bool-cases, ◌==◌, same_nat,
  same_string, same_bytes, some_injective,
}
use relaybaton.Common.Dict
use relaybaton.Client.Conn.{Conn, ConnMap, get_conn, put_conn, new_conn, delete_conn}
use relaybaton.Client.React.Laws.Stored.{IsSound}

-- Every connection stands under its own key, and its sockets fit its status.
unfoldable pub IsWell : ConnMap → Type 0
IsWell m =
    (key : String) (conn : Conn) → get_conn m key ≡ some conn → (conn.key ≡ key) × IsSound conn

put_conn-IsWell : (m : ConnMap) (conn : Conn) → IsWell m → IsSound conn → IsWell (put_conn m conn)
unfolding IsWell get_conn put_conn
put_conn-IsWell m conn well sound key x e = elim (Bool-cases (conn.key == key)) [
  | inl h ↦
      let same : conn ≡ x = some_injective (rw (Dict.get-put conn.key key conn m, h) at e) in
      let at_key : conn.key ≡ key = (same_string.same_iff conn.key key).0 h in
      (sym (ap (λ (y : Conn). y.key) same) ∙ at_key, subst IsSound same sound)
  | inr h ↦ well key x (rw (Dict.get-put conn.key key conn m, h) at e)
]

delete_conn-IsWell : (m : ConnMap) (key : String) → IsWell m → IsWell (delete_conn m key)
unfolding IsWell get_conn delete_conn
delete_conn-IsWell m key well k x e = elim (Bool-cases (key == k)) [
  | inl h ↦ absurd (no_conn x (rw (Dict.get-remove key k m, h) at e))
  | inr h ↦ well k x (rw (Dict.get-remove key k m, h) at e)
]
  where
    no_conn : (x : Conn) → ¬ (none ≡ some x)
    no_conn x e = cc

pub new_conn-IsSound : (key : String) → IsSound (new_conn key)
unfolding new_conn
new_conn-IsSound key = record {
  known = omega arith;
  fresh = λ e. (refl, refl, refl);
  ready = λ e. absurd (omega (arith, e));
}

pub new_conn-key : (key : String) → (new_conn key).key ≡ key
unfolding new_conn
new_conn-key key = refl

-- What a call changes of the map: nothing, or the entry of its connection.
pub data Changes (key : String) (m : ConnMap) : ConnMap → Type 0 where
  same : Changes key m m
  put : (conn : Conn) → conn.key ≡ key → IsSound conn → Changes key m (put_conn m conn)
  deleted : Changes key m (delete_conn m key)

pub Changes-IsWell : {key : String} {m m' : ConnMap} → Changes key m m' → IsWell m → IsWell m'
Changes-IsWell same well = well
Changes-IsWell {m = m} (put conn k sound) well = put_conn-IsWell m conn well sound
Changes-IsWell {key} {m} deleted well = delete_conn-IsWell m key well

pub Changes-other :
    {key : String} {m m' : ConnMap} (k : String)
    → Changes key m m'
    → (key == k) ≡ false
    → get_conn m' k ≡ get_conn m k
unfolding get_conn put_conn delete_conn
Changes-other k same o = refl
Changes-other {m = m} k (put conn e sound) o = Dict.get-put conn.key k conn m ∙ rw (e, o) refl
Changes-other {key} {m} k deleted o = Dict.get-remove key k m ∙ rw (o) refl
