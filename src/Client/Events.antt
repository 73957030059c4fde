-- ===== src/Client/Events.antt =====
-- `OnOpened` and `OnClosed` of pkg/core/client.go, and `Conn.Close` of pkg/core/conn.go.
use relaybaton.Common.{String, Bool, true, false, Option, none, some, List, [], ◌∷◌, ◌++◌}
use relaybaton.Router.State.{Router}
use relaybaton.Router.Select.{remove_cache}
use relaybaton.Client.Conn.{Conn, TcpAddr, new_conn, get_conn, put_conn, delete_conn}
use relaybaton.Client.React.{Client}

-- The sockets that a call closes.
pub data Closed : Type 0 where
  local_socket remote_socket tcp_socket : Closed

abbrev closed_if : Bool → Closed → List Closed
closed_if true x = x ∷ []
closed_if false x = []

module _ {Reader : Type 0} where
  unfoldable pub on_opened : Client Reader → String → Client Reader
  on_opened c key = record c { conns = put_conn c.conns (new_conn key) }

  unfoldable pub forget_route : Router Reader → Option TcpAddr → Router Reader
  forget_route r none = r
  forget_route r (some addr) = remove_cache r addr.ip

  -- `none` is the panic of `Map.Get`. The error that gnet passes is only logged.
  unfoldable pub on_closed : Client Reader → String → Option (Client Reader × List Closed)
  on_closed c key = elim (get_conn c.conns key) [
    | none ↦ none
    | some conn ↦ some (
      record c { conns = delete_conn c.conns key; router = forget_route c.router conn.dst_addr },
      closed_if conn.remote_conn remote_socket ++ closed_if conn.tcp_conn tcp_socket,
    )
  ]

-- `Conn.Close`, with which `Run` and `DirectConnect` end: the local connection is always there.
unfoldable close_conn : Conn → List Closed
close_conn conn =
    local_socket ∷ (closed_if conn.remote_conn remote_socket ++ closed_if conn.tcp_conn tcp_socket)
