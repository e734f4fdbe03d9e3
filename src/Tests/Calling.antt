-- ===== src/Tests/Calling.antt =====
-- A call in flight when the connection closes.
use nas_os.Common.{ℕ, false, ◌≡◌, string_eq}
use nas_os.Common.Dict
use nas_os.Rpc.Transport.{
  Calls, no_calls, begin_call, close_connection, is_waiting, Reach, initial, begun,
}
use nas_os.Rpc.Transport.Settled.{IsTracked, Reach-IsTracked, Reach-closed}

abbrev in_flight : Calls ℕ
in_flight = begin_call "c2" (begin_call "c1" no_calls)

in_flight_reached : Reach ℕ in_flight
in_flight_reached = begun "c2" (begun "c1" initial)

Reach-IsTracked_example : IsTracked in_flight
Reach-IsTracked_example = Reach-IsTracked in_flight_reached

Reach-closed_example : is_waiting (Dict.lookup "c1" (close_connection in_flight).futures) ≡ false
Reach-closed_example = Reach-closed in_flight_reached "c1"
